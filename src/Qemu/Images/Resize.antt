-- ===== src/Qemu/Images/Resize.antt =====
-- becky-fx-qemu/src/lib.rs: `sys_storage_resize` of a machine.
pub mod Found
use becky.Base.{ℕ, Bool, true, false, ◌||◌, List, [], ◌∷◌, ◌++◌, any, ◌==◌, list_eq, if◌then◌else◌}
use becky.Base.{Result, ok, err, Action}
use becky.Text.{Text, chars}
use becky.Id.{UuidCrate, FxId}
use becky.Os.{FilePath}
use becky.Storage.{SystemConfiguration}
use becky.Qemu.Errors.{QemuStorageCreateError, file_not_found, unsupported_storage}
use becky.Qemu.Images.{
  StorageConfigurationDisk, DiskFile, CloudDisk, QemuStorageType, qcow2, host_block, cloud_image,
  qemu_disk_path, cloud_image_overlay_path,
}
use becky.Qemu.Images.Tool.{ImageHost, DiskAction, qemu_img_resize, collect, all_of}

pub data StorageResizeRequestDirection : Type 0 where
  shrink grow : StorageResizeRequestDirection

pub record StorageResizeRequest : Type 0 where
  pub filepath : StorageConfigurationDisk
  pub new_size : ℕ
  pub dir : StorageResizeRequestDirection

abbrev is_shrink : StorageResizeRequestDirection → Bool
is_shrink shrink = true
is_shrink grow = false

-- The disks that a request names.
abbrev pub named : {A : Type 0} → (A → Text) → Text → List A → List A
named id name [] = []
named id name (a ∷ disks) =
    let rest = named id name disks in if id a == name then a ∷ rest else rest

abbrev pub has : {A : Type 0} → (A → Text) → Text → List A → Bool
has id name disks = any (λ a. id a == name) disks

-- Whether a request is for one of the disks: `found`.
unfoldable pub names : StorageResizeRequest → QemuStorageType → Bool
unfolding list_eq
names request (qcow2 files) = has (λ f. f.disk.id) request.filepath.id files
names request (host_block devices) = has (λ d. d.id) request.filepath.id devices
names request (QemuStorageType.iso isos) = has (λ i. i.id) request.filepath.id isos
names request (cloud_image images) = has (λ c. c.image.id) request.filepath.id images

abbrev refused : Bool → QemuStorageCreateError → List QemuStorageCreateError
refused true x = x ∷ []
refused false x = []

abbrev not_found : StorageResizeRequest → Bool → List QemuStorageCreateError
not_found request true = []
not_found request false = file_not_found request.filepath.path ∷ []

module _ (U : UuidCrate) {W : Type 0} (host : ImageHost W) where
  module _ (sys_conf : SystemConfiguration) (fx_id : FxId U) where
    resize_file : StorageResizeRequest → FilePath → DiskAction W (Unit {0})
    unfolding qemu_img_resize
    resize_file request filename =
        qemu_img_resize host filename request.new_size (is_shrink request.dir)

    -- Only the disks that the request names are resized, or refused.
    resize_storage : StorageResizeRequest → QemuStorageType → W → List QemuStorageCreateError × W
    unfolding resize_file qemu_disk_path cloud_image_overlay_path collect names list_eq
    resize_storage request (qcow2 files) w =
        collect
          (λ file. resize_file request (qemu_disk_path U sys_conf fx_id file.disk file.format))
          (named (λ file. file.disk.id) request.filepath.id files) w
    resize_storage request (host_block devices) w =
        let x = unsupported_storage (chars "host block storage cannot be resized by qemu-img") in
        (refused (names request (host_block devices)) x, w)
    resize_storage request (QemuStorageType.iso isos) w =
        let x = unsupported_storage (chars "ISO storage cannot be resized") in
        (refused (names request (QemuStorageType.iso isos)) x, w)
    resize_storage request (cloud_image images) w =
        collect
          (λ cloud. resize_file request (cloud_image_overlay_path U sys_conf fx_id cloud.image))
          (named (λ cloud. cloud.image.id) request.filepath.id images) w

    resize_all : StorageResizeRequest → List QemuStorageType → W → List QemuStorageCreateError × W
    unfolding resize_storage
    resize_all request [] w = ([], w)
    resize_all request (storage ∷ storages) w =
        let (errors, w₁) = resize_storage request storage w in
        let (rest, w₂) = resize_all request storages w₁ in (errors ++ rest, w₂)

    resize_requests :
        List QemuStorageType → List StorageResizeRequest → W → List QemuStorageCreateError × W
    unfolding resize_all names
    resize_requests storage [] w = ([], w)
    resize_requests storage (request ∷ requests) w =
        let (errors, w₁) = resize_all request storage w in
        let (rest, w₂) = resize_requests storage requests w₁ in
        (errors ++ (not_found request (any (names request) storage) ++ rest), w₂)

    unfoldable pub sys_storage_resize :
        List QemuStorageType
        → List StorageResizeRequest
        → Action W (List QemuStorageCreateError) (Unit {0})
    unfolding resize_requests
    sys_storage_resize storage requests w =
        let (errors, w') = resize_requests storage requests w in (all_of errors, w')
