-- ===== src/Storage/Examples.antt =====
-- Storage on a disk in memory, which is the list of its directories.
use becky.Base.{◌≡◌, ◌⊎◌, refl, List, [], ◌∷◌, none, some, ok, err, any, ◌==◌}
use becky.Base.{lists_eq, list_eq}
use Prim.Native.String.{String}
use becky.Text.{chars}
use becky.Os.{FilePath}
use becky.Storage.{
  SystemConfiguration, StorageFilesystem, StorageFilesystemError, Disk, sys_storage_create,
}
use becky.Storage.Created.{HasDirs, sys_storage_create_binds}

unfoldable memory_disk : Disk (List FilePath)
unfolding lists_eq
memory_disk = record {
  metadata = λ path w. (ok (any (λ dir. dir == path) w), w);
  create_dir_all = λ path w. (ok tt, path ∷ w);
}

abbrev dir : String → FilePath
dir name = chars "/" ∷ chars name ∷ []

abbrev configuration : SystemConfiguration
configuration = record {
  emulator_paths = [];
  binary_paths = [];
  run_path = dir "run";
  vm_root_path = dir "vm";
  vm_data_root_path = dir "data";
  os_cache_root_path = dir "cache";
}

abbrev unbound : StorageFilesystem
unbound = record { system_configuration = none }

creates :
    (sys_storage_create memory_disk configuration (unbound, [])).1.0
    ≡ record { system_configuration = some configuration }
unfolding sys_storage_create memory_disk
creates = refl

sys_storage_create_binds_example :
    let (answer, (s', w')) = sys_storage_create memory_disk configuration (unbound, []) in
    ((answer ≡ ok tt)
      × HasDirs memory_disk configuration
      × (s'.system_configuration ≡ some configuration))
    ⊎ ((e : StorageFilesystemError) × (answer ≡ err e) × (s' ≡ unbound))
sys_storage_create_binds_example = sys_storage_create_binds memory_disk configuration unbound []
