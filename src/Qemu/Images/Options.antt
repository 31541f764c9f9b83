-- ===== src/Qemu/Images/Options.antt =====
-- becky-fx-qemu/src/storage_qcow.rs and src/lib.rs: the arguments of `qemu-img`.
use becky.Base.{ℕ, Bool, Option, none, some, List, [], ◌∷◌, ◌++◌, if◌then◌else◌}
use becky.Text.{Text, chars, join}
use becky.Text.Decimal.{decimal}
use becky.Os.{FilePath}
use becky.Os.Paths.{display}
use becky.Qemu.Images.{QcowPreallocation, off, metadata, falloc, full, QcowOptions}

abbrev pub as_qemu_arg : QcowPreallocation → Text
as_qemu_arg off = chars "off"
as_qemu_arg metadata = chars "metadata"
as_qemu_arg falloc = chars "falloc"
as_qemu_arg full = chars "full"

abbrev on_off : Bool → Text
on_off b = if b then chars "on" else chars "off"

-- An option that is set, behind its key.
abbrev option : {A : Type 0} → Text → (A → Text) → Option A → List Text
option key text none = []
option key text (some a) = (key ++ text a) ∷ []

unfoldable pub create_options : QcowOptions → List Text
unfolding display
create_options o =
    option (chars "backing_file=") display o.backing_file
    ++ (option (chars "backing_fmt=") (λ s. s) o.backing_format
        ++ (option (chars "preallocation=") as_qemu_arg o.preallocation
            ++ (option (chars "compat=") (λ s. s) o.compat
                ++ (option (chars "cluster_size=") decimal o.cluster_size
                    ++ (option (chars "lazy_refcounts=") on_off o.lazy_refcounts
                        ++ option (chars "extended_l2=") on_off o.extended_l2)))))

options_args : Text → List Text
options_args [] = []
options_args (c ∷ options) = chars "-o" ∷ (c ∷ options) ∷ []

abbrev size_args : Option ℕ → List Text
size_args none = []
size_args (some size) = decimal size ∷ []

-- The arguments of `qemu_img_create`.
unfoldable pub create_args : Text → FilePath → Option ℕ → QcowOptions → List Text
unfolding create_options options_args join display
create_args fmt filename size opts =
    (chars "create" ∷ chars "--format" ∷ fmt ∷ [])
    ++ (options_args (join (chars ",") (create_options opts))
        ++ (display filename ∷ size_args size))

-- The arguments of `qemu_img_resize`.
unfoldable pub resize_args : FilePath → ℕ → Bool → List Text
unfolding display
resize_args filename size shrink =
    (chars "resize" ∷ [])
    ++ ((if shrink then chars "--shrink" ∷ [] else []) ++ (display filename ∷ decimal size ∷ []))

unfoldable pub info_args : FilePath → List Text
unfolding display
info_args filename =
    chars "info" ∷ chars "--force-share" ∷ chars "--output" ∷ chars "json" ∷ display filename ∷ []
