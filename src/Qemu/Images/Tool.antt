-- ===== src/Qemu/Images/Tool.antt =====
-- becky-fx-qemu/src/lib.rs, src/storage_qcow.rs and src/img_json.rs: the calls of `qemu-img`, and the
-- walk over the disks of a machine that collects errors.
pub mod Status
use becky.Base.{ℕ, Bool, true, false, Option, none, some, List, [], ◌∷◌, if◌then◌else◌}
use becky.Base.{Result, ok, err, map_err, Action, pure, fail, ◌>>=◌, ◌>>◌, catch}
use becky.Text.{Text, chars}
use becky.Os.{IoError, ErrorKind, FilePath}
use becky.SystemCommand.PidFile.{is_not_found}
use becky.Utils.{Pipes, Output, CommandRanError, CommandRanResult, run_system_command}
use becky.Qemu.Errors.{
  QemuStorageCreateError, json_parse, corrupt_image, command_ran_error, file_not_found,
  unsupported_storage,
}
use becky.Qemu.Images.{QcowOptions}
use becky.Qemu.Images.Options.{create_args, resize_args, info_args}

-- `format-specific` of a `QemuImgInfo`, by what its data says of corruption.
pub record FormatSpecific : Type 0 where
  pub corrupt : Bool

-- What is read of `QemuImgInfo`.
pub record QemuImgInfo : Type 0 where
  pub format_specific : Option FormatSpecific

unfoldable pub is_corrupt : QemuImgInfo → Bool
is_corrupt img = elim img.format_specific [ none ↦ false | some specific ↦ specific.corrupt ]

-- What the disks ask of the host: children, files, and serde_json on what `qemu-img info` printed.
pub record ImageHost (W : Type 0) : Type 0 where
  pub pipes : Pipes W
  pub from_slice : List ℕ → Result Text QemuImgInfo
  pub try_exists : FilePath → Action W IoError Bool
  pub create_dir_all : FilePath → Action W IoError (Unit {0})
  pub copy : FilePath → FilePath → Action W IoError ℕ
  -- The metadata of a path, by whether it is a block device.
  pub is_block_device : FilePath → Action W IoError Bool

-- An operation on one disk.
abbrev pub DiskAction : Type 0 → Type 0 → Type 0
DiskAction W A = Action W QemuStorageCreateError A

module _ {W : Type 0} (host : ImageHost W) where
  abbrev qemu_img : List Text → DiskAction W CommandRanResult
  unfolding run_system_command
  qemu_img args =
      catch command_ran_error (run_system_command host.pipes (chars "qemu-img") args none)

  parse_info : CommandRanResult → DiskAction W QemuImgInfo
  parse_info ran w = (map_err json_parse (host.from_slice ran.output.stdout), w)

  unfoldable pub inspect_qemu_image : FilePath → DiskAction W QemuImgInfo
  unfolding run_system_command parse_info info_args
  inspect_qemu_image filename = do ran ← qemu_img (info_args filename); parse_info ran

  unless_corrupt : FilePath → Bool → DiskAction W (Unit {0})
  unless_corrupt filename true = fail (corrupt_image filename)
  unless_corrupt filename false = pure tt

  -- The errors of `is_qcow_image_corrupt`, which are also those of an inspection that tests the
  -- image.
  unfoldable pub is_qcow_image_corrupt : FilePath → DiskAction W (Unit {0})
  unfolding inspect_qemu_image unless_corrupt is_corrupt
  is_qcow_image_corrupt filename = do
    img ← inspect_qemu_image filename
    unless_corrupt filename (is_corrupt img)

  unfoldable pub qemu_img_create :
      Text → FilePath → Option ℕ → QcowOptions → DiskAction W (Unit {0})
  unfolding run_system_command create_args
  qemu_img_create fmt filename size opts = do qemu_img (create_args fmt filename size opts); pure tt

  unfoldable pub qemu_img_resize : FilePath → ℕ → Bool → DiskAction W (Unit {0})
  unfolding run_system_command resize_args
  qemu_img_resize filename size shrink = do qemu_img (resize_args filename size shrink); pure tt

  block_device : FilePath → Result IoError Bool → Result QemuStorageCreateError (Unit {0})
  block_device path (err x) =
      if is_not_found x.kind then err (file_not_found path) else err (QemuStorageCreateError.io x)
  block_device path (ok true) = ok tt
  block_device path (ok false) =
      err (unsupported_storage (chars "host block storage path is not a block device"))

  -- On Unix.
  unfoldable pub validate_host_block_device : FilePath → DiskAction W (Unit {0})
  unfolding block_device
  validate_host_block_device path w =
      let (r, w') = host.is_block_device path w in (block_device path r, w')

  -- One disk fails or not, and the walk goes on; the errors are in order.
  abbrev pub error_of : Result QemuStorageCreateError (Unit {0}) → List QemuStorageCreateError
  error_of (ok _) = []
  error_of (err x) = x ∷ []

-- The walk that every operation on disks makes.
unfoldable pub collect :
    {A W : Type 0} → (A → DiskAction W (Unit {0})) → List A → W → List QemuStorageCreateError × W
collect act [] w = ([], w)
collect act (a ∷ disks) w =
    let (r, w₁) = act a w in
    let (errors, w₂) = collect act disks w₁ in (elim r [ ok _ ↦ errors | err x ↦ x ∷ errors ], w₂)

-- A result that carries every error.
abbrev pub all_of : List QemuStorageCreateError → Result (List QemuStorageCreateError) (Unit {0})
all_of [] = ok tt
all_of (x ∷ errors) = err (x ∷ errors)
