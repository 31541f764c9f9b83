-- ===== src/Storage/Created.antt =====
-- What the creation of storage leaves.
use becky.Base.{◌≡◌, ◌⊎◌, inl, inr, refl, arith, true, false, Bool, some, Result, ok, err}
use becky.Base.{ok_of_bind, ◌>>◌, catch, continue}
use becky.Os.{IoError, FilePath}
use becky.Storage.{
  SystemConfiguration, StorageFilesystem, StorageFilesystemError, io, Disk, dir_result, ensure_dir,
  ensure_system_dirs, make_dirs, bind_configuration, sys_storage_create,
}

module _ {W : Type 0} (disk : Disk W) where
  -- The path was seen as a directory.
  abbrev pub WasDir : FilePath → Type 0
  WasDir path = (v : W) × ((disk.metadata path v).0 ≡ ok true)

  dir_ok : (path : FilePath) (r : Result IoError Bool) → dir_result path r ≡ ok tt → r ≡ ok true
  unfolding dir_result
  dir_ok path (ok true) h = refl
  dir_ok path (ok false) h = absurd cc
  dir_ok path (err e) h = absurd (ground arith)

  ensure_dir-WasDir : (path : FilePath) (w : W) → (ensure_dir disk path w).0 ≡ ok tt → WasDir path
  unfolding ensure_dir
  ensure_dir-WasDir path w h = (w, dir_ok path _ h)

  abbrev pub HasDirs : SystemConfiguration → Type 0
  HasDirs c =
      WasDir c.os_cache_root_path
      × WasDir c.vm_root_path
      × WasDir c.vm_data_root_path
      × WasDir c.run_path

  ensure_system_dirs-HasDirs :
      (c : SystemConfiguration) (w : W) → (ensure_system_dirs disk c w).0 ≡ ok tt → HasDirs c
  unfolding ensure_system_dirs
  ensure_system_dirs-HasDirs c w h =
      let last = ensure_dir disk c.run_path in
      let data' = ensure_dir disk c.vm_data_root_path >> last in
      let root = ensure_dir disk c.vm_root_path >> data' in
      let (_, h₁, t₁) = ok_of_bind (ensure_dir disk c.os_cache_root_path) (λ _. root) w tt h in
      let (_, h₂, t₂) = ok_of_bind (ensure_dir disk c.vm_root_path) (λ _. data') _ tt t₁ in
      let (_, h₃, h₄) = ok_of_bind (ensure_dir disk c.vm_data_root_path) (λ _. last) _ tt t₂ in
      (
        ensure_dir-WasDir _ _ h₁,
        ensure_dir-WasDir _ _ h₂,
        ensure_dir-WasDir _ _ h₃,
        ensure_dir-WasDir _ _ h₄,
      )

  make_dirs-HasDirs : (c : SystemConfiguration) (w : W) → (make_dirs disk c w).0 ≡ ok tt → HasDirs c
  unfolding make_dirs
  make_dirs-HasDirs c w h =
      let make = λ (path : FilePath). catch io (disk.create_dir_all path) in
      let check = ensure_system_dirs disk c in
      let fourth = make c.run_path >> check in
      let third = make c.vm_data_root_path >> fourth in
      let second = make c.vm_root_path >> third in
      let (_, _, t₁) = ok_of_bind (make c.os_cache_root_path) (λ _. second) w tt h in
      let (_, _, t₂) = ok_of_bind (make c.vm_root_path) (λ _. third) _ tt t₁ in
      let (_, _, t₃) = ok_of_bind (make c.vm_data_root_path) (λ _. fourth) _ tt t₂ in
      let (_, _, t₄) = ok_of_bind (make c.run_path) (λ _. check) _ tt t₃ in
      ensure_system_dirs-HasDirs c _ t₄

  created_or_not :
      (c : SystemConfiguration) (s : StorageFilesystem)
      (r : Result StorageFilesystemError (Unit {0})) (w : W)
      → let (answer, (s', w')) = continue r (λ _. bind_configuration disk c) (s, w) in
        ((answer ≡ ok tt) × (r ≡ ok tt) × (s'.system_configuration ≡ some c))
        ⊎ ((e : StorageFilesystemError) × (answer ≡ err e) × (s' ≡ s))
  unfolding bind_configuration
  created_or_not c s (ok _) w = inl (refl, refl, refl)
  created_or_not c s (err e) w = inr (e, refl, refl)

  -- Storage that was created is bound to its configuration, and each of its four directories was
  -- seen as a directory; a creation that fails leaves the binding as it was.
  pub sys_storage_create_binds :
      (c : SystemConfiguration) (s : StorageFilesystem) (w : W)
      → let (answer, (s', w')) = sys_storage_create disk c (s, w) in
        ((answer ≡ ok tt) × HasDirs c × (s'.system_configuration ≡ some c))
        ⊎ ((e : StorageFilesystemError) × (answer ≡ err e) × (s' ≡ s))
  unfolding sys_storage_create
  sys_storage_create_binds c s w =
      elim (created_or_not c s (make_dirs disk c w).0 (make_dirs disk c w).1) [
        | inl (a, made, bound) ↦ inl (a, make_dirs-HasDirs c w made, bound)
        | inr failed ↦ inr failed
      ]
