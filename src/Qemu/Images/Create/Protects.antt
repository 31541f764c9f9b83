-- ===== src/Qemu/Images/Create/Protects.antt =====
-- Images that exist are not overwritten.
use becky.Base.{◌≡◌, List, [], ◌∷◌, All, All-of, Keeps, lists_eq}
use becky.Id.{UuidCrate, FxId}
use becky.Os.{FilePath}
use becky.Storage.{SystemConfiguration}
use becky.Qemu.Images.{
  QemuStorageType, qcow2, host_block, cloud_image, iso_dest_path, StorageConfigurationIso,
}
use becky.Qemu.Images.Tool.{ImageHost, validate_host_block_device}
use becky.Qemu.Images.Check.{walk_storage, walk_all}
use becky.Qemu.Images.Create.{create_disk, copy_iso, create_cloud, create_walk, sys_storage_create}
use becky.Qemu.Images.Create.Keeps.{
  IsAbout, collect_keeps, block-Keeps, create_disk-Keeps, copy_iso-Keeps, create_cloud-Keeps,
}

module _ (U : UuidCrate) (sys_conf : SystemConfiguration) (fx_id : FxId U) (path : FilePath) where
  -- No disc image is copied to the file.
  abbrev pub Spares : QemuStorageType → Type 0
  Spares (QemuStorageType.iso isos) =
      All (λ props. ¬ (iso_dest_path U sys_conf fx_id props ≡ path)) isos
  Spares _ = Unit

  module _ {W : Type 0} (host : ImageHost W) (P : W → Type 0) (about : IsAbout host path P) where
    copies_keep :
        (isos : List StorageConfigurationIso)
        → All (λ props. ¬ (iso_dest_path U sys_conf fx_id props ≡ path)) isos
        → All (λ props. Keeps P (copy_iso U host sys_conf fx_id props)) isos
    copies_keep [] _ = tt
    copies_keep (props ∷ isos) (ne, rest) =
        (copy_iso-Keeps U host path P about sys_conf fx_id props ne, copies_keep isos rest)

    walk_storage_keeps :
        (storage : QemuStorageType) (w : W)
        → Spares storage
        → P w
        → P (walk_storage (create_walk U host sys_conf fx_id) storage w).1
    unfolding walk_storage create_walk
    walk_storage_keeps (qcow2 files) w _ h =
        collect_keeps P (create_disk U host sys_conf fx_id) files w
          (All-of _ (create_disk-Keeps U host path P about sys_conf fx_id) files) h
    walk_storage_keeps (host_block devices) w _ h =
        collect_keeps P (λ device. validate_host_block_device host device.path) devices w
          (All-of _ (λ device. block-Keeps U host path P about device.path) devices) h
    walk_storage_keeps (QemuStorageType.iso isos) w spares h =
        collect_keeps P (copy_iso U host sys_conf fx_id) isos w (copies_keep isos spares) h
    walk_storage_keeps (cloud_image images) w _ h =
        collect_keeps P (create_cloud U host sys_conf fx_id) images w
          (All-of _ (create_cloud-Keeps U host path P about sys_conf fx_id) images) h

    walk_all_keeps :
        (storages : List QemuStorageType) (w : W)
        → All Spares storages
        → P w
        → P (walk_all (create_walk U host sys_conf fx_id) storages w).1
    unfolding walk_all
    walk_all_keeps [] w _ h = h
    walk_all_keeps (storage ∷ storages) w (spares, rest) h =
        walk_all_keeps storages _ rest (walk_storage_keeps storage w spares h)

    -- A file that exists is not written by the creation of a machine's disks, whatever fails, unless
    -- a disc image is copied to it: a fact about the file that only writes to it change, and by
    -- which it exists, still holds.
    pub sys_storage_create_protects :
        (storages : List QemuStorageType) (w : W)
        → All Spares storages
        → P w
        → P (sys_storage_create U host sys_conf fx_id storages w).1
    unfolding sys_storage_create
    sys_storage_create_protects storages w spares h = walk_all_keeps storages w spares h
