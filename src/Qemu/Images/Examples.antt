-- ===== src/Qemu/Images/Examples.antt =====
-- Disks on a host that is the list of its files.
use becky.Base.{
  ◌≡◌, refl, List, [], ◌∷◌, none, some, true, ok, err, any, ◌==◌, lists_eq, list_eq, arith, All,
  Bool, ◌↔◌,
}
use becky.Base.{map}
use becky.Text.{Text, chars}
use becky.Text.Decimal.{decimal}
use becky.Id.{string}
use becky.Id.Sample.{sample}
use becky.Os.{FilePath}
use becky.Storage.{SystemConfiguration}
use becky.Utils.{CommandRanResult, run_system_command}
use becky.Qemu.Errors.{file_not_found}
use becky.Qemu.Images.{
  StorageConfigurationDisk, StorageConfigurationIso, QcowOptions, QemuQcowFormat, DiskFile,
  QemuStorageType, qcow2, raw, sanitize_storage_name, iso_name, qemu_disk_path, vm_data_dir,
  disk_stem, iso_dest_path, cloud_image_overlay_path,
}
use becky.Qemu.Images
use becky.Qemu.Images.Names.{IsOneFile, image_paths_inside, qemu_disk_path-injective}
use becky.Qemu.Images.Options.{create_args}
use becky.Qemu.Images.Tool.{ImageHost, is_qcow_image_corrupt, qemu_img_create}
use becky.Qemu.Images.Tool.Status.{qemu_img_create_iff}
use becky.Qemu.Images.Create.{sys_storage_create}
use becky.Qemu.Images.Create.Keeps.{IsAbout}
use becky.Qemu.Images.Create.Protects.{sys_storage_create_protects}
use becky.Qemu.Images.Resize.{
  StorageResizeRequest, StorageResizeRequestDirection, names, sys_storage_resize,
}
use becky.Qemu.Images.Resize.Found.{sys_storage_resize_found}

has_file : FilePath → List FilePath → Bool
unfolding lists_eq
has_file path files = any (λ f. f == path) files

-- `qemu-img` succeeds, and no image is corrupt.
unfoldable files_host : ImageHost (List FilePath)
unfolding has_file
files_host = record {
  pipes = record {
    now = λ w. (0, w);
    spawn_piped = λ cmd args w. (ok 0, w);
    wait_with_output = λ child w. (ok (record { status = 0; stdout = []; stderr = [] }), w);
    output_within = λ limit child w. (none, w);
  };
  from_slice = λ bytes. ok (record { format_specific = none });
  try_exists = λ path w. (ok (has_file path w), w);
  create_dir_all = λ path w. (ok tt, w);
  copy = λ source dest w. (ok 1, dest ∷ w);
  is_block_device = λ path w. (ok true, w);
}

abbrev data_root : FilePath
data_root = chars "/" ∷ chars "data" ∷ []

abbrev conf : SystemConfiguration
conf = record {
  emulator_paths = [];
  binary_paths = [];
  run_path = [];
  vm_root_path = [];
  vm_data_root_path = data_root;
  os_cache_root_path = [];
}

abbrev disk : Text → StorageConfigurationDisk
disk id = record { id = id; path = []; size = 1024; bootable = true }

abbrev plain_options : QcowOptions
plain_options = record {
  backing_file = none;
  backing_format = some (chars "raw");
  preallocation = none;
  compat = none;
  cluster_size = some 65536;
  lazy_refcounts = none;
  extended_l2 = some true;
}

abbrev root_disk : DiskFile
root_disk = record { disk = disk (chars "root"); format = qcow2; opts = plain_options }

abbrev media : StorageConfigurationIso
media = record { id = chars "os.iso"; path = chars "/" ∷ chars "os.iso" ∷ []; bootable = true }

abbrev machine_disks : List QemuStorageType
machine_disks = qcow2 (root_disk ∷ []) ∷ QemuStorageType.iso (media ∷ []) ∷ []

abbrev root_path : FilePath
root_path = chars "/" ∷ chars "data" ∷ chars "vm" ∷ chars "root.qcow2" ∷ []

create_line :
    create_args (chars "qcow2") root_path (some 1024) plain_options
    ≡ chars "create"
      ∷ chars "--format"
      ∷ chars "qcow2"
      ∷ chars "-o"
      ∷ chars "backing_fmt=raw,cluster_size=65536,extended_l2=on"
      ∷ chars "/data/vm/root.qcow2"
      ∷ chars "1024"
      ∷ []
unfolding create_args decimal
create_line = refl

-- Two identifiers that share a name, and one that names the directory above.
shared_names :
    (sanitize_storage_name (chars "a b") ≡ sanitize_storage_name (chars "a/b"))
    × (iso_name (record media { id = chars ".." }) ≡ chars "..")
unfolding sanitize_storage_name iso_name
shared_names = (refl, refl)

-- An identifier that is an absolute path leaves the data root.
left_root :
    vm_data_dir sample conf (string (chars "/etc/../x")) ≡ map chars ("/" ∷ "etc" ∷ ".." ∷ "x" ∷ [])
unfolding vm_data_dir
left_root = refl

root_about : IsAbout files_host root_path (λ w. has_file root_path w ≡ true)
unfolding files_host is_qcow_image_corrupt qemu_img_create has_file lists_eq
root_about = record {
  seen = λ w h. ground arith;
  on_exists = λ other. record { at = λ w h. h };
  on_dir = λ other. record { at = λ w h. h };
  on_block = λ other. record { at = λ w h. h };
  on_info = λ other. record { at = λ w h. h };
  on_create = λ fmt other size opts ne. record { at = λ w h. h };
  on_copy = λ source other ne. record { at = λ w h. ground arith };
}

sys_storage_create_protects_example :
    has_file root_path
      (sys_storage_create sample files_host conf
        (string (chars "vm"))
        machine_disks
        (root_path ∷ [])).1
    ≡ true
unfolding has_file lists_eq
sys_storage_create_protects_example =
    sys_storage_create_protects sample conf (string (chars "vm")) root_path files_host
      (λ w. has_file root_path w ≡ true) root_about machine_disks (root_path ∷ [])
      (tt, ((λ same. absurd (unfold iso_dest_path in ground arith), tt), tt)) refl

image_paths_inside_example :
    IsOneFile
      (vm_data_dir sample conf (string (chars "vm")))
      (qemu_disk_path sample conf (string (chars "vm")) (disk (chars "a/b")) raw)
    × IsOneFile (vm_data_dir sample conf (string (chars "vm"))) (
        cloud_image_overlay_path sample conf
          (string (chars "vm"))
          (record { id = []; path = []; os_type = Images.OsImageFileType.qcow2 }))
image_paths_inside_example =
    image_paths_inside sample conf (string (chars "vm")) (disk (chars "a/b")) raw
      (record { id = []; path = []; os_type = Images.OsImageFileType.qcow2 })

qemu_disk_path-injective_example : (chars "root" ≡ chars "root") × (QemuQcowFormat.raw ≡ raw)
unfolding sanitize_storage_name
qemu_disk_path-injective_example =
    qemu_disk_path-injective sample conf (string (chars "vm")) (disk (chars "root"))
      (disk (chars "root")) raw raw (λ h. ground arith, refl) (λ h. ground arith, refl) refl

abbrev grow_root : StorageResizeRequest
grow_root = record {
  filepath = disk (chars "root");
  new_size = 2048;
  dir = StorageResizeRequestDirection.grow;
}

resized :
    (sys_storage_resize sample files_host conf
      (string (chars "vm"))
      machine_disks
      (grow_root ∷ [])
      []).0
    ≡ ok tt
unfolding sys_storage_resize files_host
resized = refl

not_resized :
    (sys_storage_resize sample files_host conf (string (chars "vm")) [] (grow_root ∷ []) []).0
    ≡ err (file_not_found [] ∷ [])
unfolding sys_storage_resize files_host
not_resized = refl

sys_storage_resize_found_example :
    All (λ request. any (names request) machine_disks ≡ true) (grow_root ∷ [])
sys_storage_resize_found_example =
    sys_storage_resize_found sample files_host conf (string (chars "vm")) machine_disks
      (grow_root ∷ []) [] resized

qemu_img_create_iff_run :
    ((qemu_img_create files_host (chars "qcow2") root_path (some 1024) plain_options []).0 ≡ ok tt)
    ↔ ((ran : CommandRanResult) × ((run_system_command files_host.pipes
            (chars "qemu-img")
            (create_args (chars "qcow2") root_path (some 1024) plain_options)
            none
            []).0
          ≡ ok ran))
qemu_img_create_iff_run =
    qemu_img_create_iff files_host (chars "qcow2") root_path (some 1024) plain_options []
