-- ===== src/Storage.antt =====
-- becky-engine/src/storage.rs and src/sys_conf.rs: the directories of a host, and the storage
-- backend that makes and checks them.
pub mod Created
mod Examples
use becky.Base.{ℕ, List, [], ◌∷◌, Option, none, some, Bool, true, false, if◌then◌else◌}
use becky.Base.{Result, ok, err, Action, pure, fail, ◌>>=◌, ◌>>◌, catch, on_world}
use becky.Text.{Text, chars}
use becky.Os.{IoError, ErrorKind, not_found, FilePath}
use becky.SystemCommand.PidFile.{is_not_found}

pub record SystemConfiguration : Type 0 where
  pub emulator_paths : List FilePath
  pub binary_paths : List FilePath
  pub run_path : FilePath
  pub vm_root_path : FilePath
  pub vm_data_root_path : FilePath
  pub os_cache_root_path : FilePath

pub data StorageFilesystemError : Type 0 where
  io : IoError → StorageFilesystemError
  directory_not_found : FilePath → StorageFilesystemError
  unsupported : Text → StorageFilesystemError

-- What is asked of the file system; the metadata of a path says whether it is a directory.
pub record Disk (W : Type 0) : Type 0 where
  pub metadata : FilePath → Action W IoError Bool
  pub create_dir_all : FilePath → Action W IoError (Unit {0})

dir_result : FilePath → Result IoError Bool → Result StorageFilesystemError (Unit {0})
dir_result path (err e) = if is_not_found e.kind then err (directory_not_found path) else err (io e)
dir_result path (ok true) = ok tt
dir_result path (ok false) =
    err (unsupported (chars "configured storage path exists but is not a directory"))

-- `StorageFilesystem`
pub record StorageFilesystem : Type 0 where
  pub system_configuration : Option SystemConfiguration

module _ {W : Type 0} (disk : Disk W) where
  unfoldable pub ensure_dir : FilePath → Action W StorageFilesystemError (Unit {0})
  unfolding dir_result
  ensure_dir path w = let (r, w') = disk.metadata path w in (dir_result path r, w')

  unfoldable pub ensure_system_dirs :
      SystemConfiguration → Action W StorageFilesystemError (Unit {0})
  unfolding ensure_dir
  ensure_system_dirs sys_conf = do
    ensure_dir sys_conf.os_cache_root_path
    ensure_dir sys_conf.vm_root_path
    ensure_dir sys_conf.vm_data_root_path
    ensure_dir sys_conf.run_path

  -- `SystemConfiguration::new`; whether an emulator exists is only logged.
  unfoldable pub new_configuration :
      FilePath
      → List FilePath
      → FilePath
      → FilePath
      → FilePath
      → Action W IoError SystemConfiguration
  new_configuration run_path emulator_paths vm_root_path vm_data_root_path os_cache_root_path = do
    disk.create_dir_all run_path
    disk.create_dir_all vm_root_path
    disk.create_dir_all vm_data_root_path
    disk.create_dir_all os_cache_root_path
    pure (record {
      emulator_paths = emulator_paths;
      binary_paths = [];
      run_path = run_path;
      vm_root_path = vm_root_path;
      vm_data_root_path = vm_data_root_path;
      os_cache_root_path = os_cache_root_path;
    })

  -- What `sys_storage_info`, `sys_storage_check`, `sys_storage_open` and `sys_storage_close` do.
  unfoldable pub validate_bound_configuration :
      StorageFilesystem → Action W StorageFilesystemError (Unit {0})
  unfolding ensure_system_dirs
  validate_bound_configuration s w = elim s.system_configuration [
    | some sys_conf ↦ ensure_system_dirs sys_conf w
    | none ↦ (
      err (
          unsupported
            (chars "StorageFilesystem has no bound SystemConfiguration for this lifecycle method")),
      w,
    )
  ]

  make_dirs : SystemConfiguration → Action W StorageFilesystemError (Unit {0})
  unfolding ensure_system_dirs
  make_dirs sys_conf = do
    catch io (disk.create_dir_all sys_conf.os_cache_root_path)
    catch io (disk.create_dir_all sys_conf.vm_root_path)
    catch io (disk.create_dir_all sys_conf.vm_data_root_path)
    catch io (disk.create_dir_all sys_conf.run_path)
    ensure_system_dirs sys_conf

  bind_configuration :
      SystemConfiguration → Action (StorageFilesystem × W) StorageFilesystemError (Unit {0})
  bind_configuration sys_conf (s, w) =
      (ok tt, (record s { system_configuration = some sys_conf }, w))

  unfoldable pub sys_storage_create :
      SystemConfiguration → Action (StorageFilesystem × W) StorageFilesystemError (Unit {0})
  unfolding make_dirs bind_configuration
  sys_storage_create sys_conf = on_world (make_dirs sys_conf) >> bind_configuration sys_conf

-- `sys_storage_resize`, by the paths that are to be resized.
unfoldable pub sys_storage_resize : List FilePath → Result StorageFilesystemError (Unit {0})
sys_storage_resize [] = ok tt
sys_storage_resize (r ∷ requests) =
    err (unsupported (chars "StorageFilesystem does not resize provider disks"))
