-- ===== src/Qemu/Images/Names.antt =====
-- The names of a machine's images.
use mathlib.Core.List.{append_cancel_left, append_cancel_right}
use becky.Base.{ℕ, ◌<◌, ◌≡◌, ◌≢◌, refl, sym, ap, ◌∙◌, arith, [], ◌∷◌, ◌++◌, Option, none, some}
use becky.Base.{All, All-append, length, length-append}
use becky.Text.{Text, chars}
use becky.Id.{UuidCrate, FxId}
use becky.Os.{FilePath, join_name}
use becky.Storage.{SystemConfiguration}
use becky.SystemCommand.PidFile.Names.{IsSafe}
use becky.Qemu.Images.{
  StorageConfigurationDisk, StorageConfigurationCloudImage, QemuQcowFormat, raw, qcow2,
  sanitize_storage_char, sanitize_storage_name, name_or, storage_name, disk_stem, cloud_image_stem,
  qemu_disk_ext, vm_data_dir, qemu_disk_path, cloud_image_overlay_path,
}
use becky.Os.Paths.{file_name, file_stem}

sanitize_storage_char-IsSafe : (c : ℕ) → IsSafe (sanitize_storage_char c)
unfolding sanitize_storage_char
sanitize_storage_char-IsSafe c = ground arith

sanitize_each-IsSafe : (name : Text) → All IsSafe (sanitize_storage_name name)
unfolding sanitize_storage_name
sanitize_each-IsSafe [] = tt
sanitize_each-IsSafe (c ∷ name) = (sanitize_storage_char-IsSafe c, sanitize_each-IsSafe name)

name_or-IsSafe :
    (other : Text) (file : Option Text) → All IsSafe other → All IsSafe (name_or other file)
unfolding name_or
name_or-IsSafe other none safe = safe
name_or-IsSafe other (some name) safe = sanitize_each-IsSafe name

storage_name-IsSafe :
    (id : Text) (file : Option Text) (other : Text)
    → All IsSafe other
    → All IsSafe (storage_name id file other)
unfolding storage_name
storage_name-IsSafe [] file other safe = name_or-IsSafe other file safe
storage_name-IsSafe (c ∷ id) file other safe = sanitize_each-IsSafe (c ∷ id)

disk_stem-IsSafe : (props : StorageConfigurationDisk) → All IsSafe (disk_stem props)
unfolding disk_stem
disk_stem-IsSafe props =
    storage_name-IsSafe props.id (file_name props.path) (chars "disk") (omega arith)

cloud_image_stem-IsSafe :
    (image : StorageConfigurationCloudImage) → All IsSafe (cloud_image_stem image)
unfolding cloud_image_stem
cloud_image_stem-IsSafe image =
    storage_name-IsSafe image.id (file_stem image.path) (chars "cloud-image") (omega arith)

-- A component that is longer than `..`, and safe.
abbrev pub IsOneFile : FilePath → FilePath → Type 0
IsOneFile dir path =
    (name : Text) × (path ≡ join_name dir name) × All IsSafe name × (2 < length name)

ext-IsOneFile :
    (dir : FilePath) (stem : Text) (format : QemuQcowFormat)
    → All IsSafe stem
    → IsOneFile dir (join_name dir (stem ++ b'.' ∷ qemu_disk_ext format))
ext-IsOneFile dir stem raw safe = (
  stem ++ b'.' ∷ qemu_disk_ext raw,
  refl,
  All-append IsSafe stem (b'.' ∷ qemu_disk_ext raw) safe (omega arith),
  omega (arith, length-append stem (b'.' ∷ qemu_disk_ext raw)),
)
ext-IsOneFile dir stem qcow2 safe = (
  stem ++ b'.' ∷ qemu_disk_ext qcow2,
  refl,
  All-append IsSafe stem (b'.' ∷ qemu_disk_ext qcow2) safe (omega arith),
  omega (arith, length-append stem (b'.' ∷ qemu_disk_ext qcow2)),
)

last : Text → ℕ
last [] = 0
last (c ∷ []) = c
last (c ∷ d ∷ s) = last (d ∷ s)

last-append : (s : Text) (c : ℕ) (t : Text) → last (s ++ c ∷ t) ≡ last (c ∷ t)
unfolding last
last-append [] c t = refl
last-append (a ∷ []) c t = refl
last-append (a ∷ b ∷ s) c t = last-append (b ∷ s) c t

ext-injective :
    (s t : Text) (f g : QemuQcowFormat)
    → s ++ b'.' ∷ qemu_disk_ext f ≡ t ++ b'.' ∷ qemu_disk_ext g
    → (s ≡ t) × (f ≡ g)
ext-injective s t raw raw h = (append_cancel_right s t (chars ".img") h, refl)
ext-injective s t qcow2 qcow2 h = (append_cancel_right s t (chars ".qcow2") h, refl)
ext-injective s t raw qcow2 h = absurd (
    unfold last in
    ground (arith, last-append s b'.' (chars "img"), last-append t b'.' (chars "qcow2"), ap last h))
ext-injective s t qcow2 raw h = absurd (
    unfold last in
    ground (arith, last-append s b'.' (chars "qcow2"), last-append t b'.' (chars "img"), ap last h))

-- An identifier that names its file as it is.
abbrev pub IsStorageId : Text → Type 0
IsStorageId id = (id ≢ []) × (sanitize_storage_name id ≡ id)

storage_name_of :
    (id : Text) (file : Option Text)
    → id ≢ []
    → storage_name id file (chars "disk") ≡ sanitize_storage_name id
unfolding storage_name
storage_name_of [] file some_id = absurd (some_id refl)
storage_name_of (c ∷ id) file some_id = refl

disk_stem_of :
    (props : StorageConfigurationDisk) → IsStorageId props.id → disk_stem props ≡ props.id
unfolding disk_stem
disk_stem_of props (some_id, kept) = storage_name_of props.id (file_name props.path) some_id ∙ kept

module _ (U : UuidCrate) (sys_conf : SystemConfiguration) (fx_id : FxId U) where
  -- The image of a disk and the overlay of a cloud image are single files below the data directory
  -- of their machine, whatever their identifiers and paths hold.
  pub image_paths_inside :
      (props : StorageConfigurationDisk) (format : QemuQcowFormat)
      (image : StorageConfigurationCloudImage)
      → IsOneFile (vm_data_dir U sys_conf fx_id) (qemu_disk_path U sys_conf fx_id props format)
        × IsOneFile (vm_data_dir U sys_conf fx_id) (cloud_image_overlay_path U sys_conf fx_id image)
  unfolding qemu_disk_path cloud_image_overlay_path
  image_paths_inside props format image = (
    ext-IsOneFile _ (disk_stem props) format (disk_stem-IsSafe props),
    ext-IsOneFile _ (cloud_image_stem image) qcow2 (cloud_image_stem-IsSafe image),
  )

  -- Two disks of a machine whose identifiers need no replacement have the same image only if their
  -- identifiers and their formats are the same.
  pub qemu_disk_path-injective :
      (a b : StorageConfigurationDisk) (f g : QemuQcowFormat)
      → IsStorageId a.id
      → IsStorageId b.id
      → qemu_disk_path U sys_conf fx_id a f ≡ qemu_disk_path U sys_conf fx_id b g
      → (a.id ≡ b.id) × (f ≡ g)
  unfolding qemu_disk_path
  qemu_disk_path-injective a b f g ia ib h =
      let names =
        append_cancel_left (vm_data_dir U sys_conf fx_id)
          ((disk_stem a ++ b'.' ∷ qemu_disk_ext f) ∷ [])
          ((disk_stem b ++ b'.' ∷ qemu_disk_ext g) ∷ []) h in
      let (stems, formats) = ext-injective (disk_stem a) (disk_stem b) f g (ground arith) in
      (sym (disk_stem_of a ia) ∙ stems ∙ disk_stem_of b ib, formats)
