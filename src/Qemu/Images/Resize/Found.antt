-- ===== src/Qemu/Images/Resize/Found.antt =====
-- Which disks a resize found.
use becky.Base.{◌≡◌, refl, List, [], ◌∷◌, ◌++◌, All, any, true, false, Bool, ok, arith}
use becky.Id.{UuidCrate, FxId}
use becky.Storage.{SystemConfiguration}
use becky.Qemu.Errors.{QemuStorageCreateError}
use becky.Qemu.Images.{QemuStorageType}
use becky.Qemu.Images.Tool.{ImageHost, all_of}
use becky.Qemu.Images.Resize.{
  StorageResizeRequest, names, not_found, resize_all, resize_requests, sys_storage_resize,
}

append_nil : (xs ys : List QemuStorageCreateError) → xs ++ ys ≡ [] → (xs ≡ []) × (ys ≡ [])
append_nil [] ys h = (refl, h)
append_nil (x ∷ xs) ys h = absurd (ground arith)

none_of : (errors : List QemuStorageCreateError) → all_of errors ≡ ok tt → errors ≡ []
none_of [] h = refl
none_of (x ∷ errors) h = absurd (ground arith)

found_of :
    (request : StorageResizeRequest) (found : Bool) → not_found request found ≡ [] → found ≡ true
found_of request true h = refl
found_of request false h = absurd (ground arith)

module _ (U : UuidCrate) {W : Type 0} (host : ImageHost W) where
  module _ (sys_conf : SystemConfiguration) (fx_id : FxId U) where
    resize_requests_found :
        (storage : List QemuStorageType) (requests : List StorageResizeRequest) (w : W)
        → (resize_requests U host sys_conf fx_id storage requests w).0 ≡ []
        → All (λ request. any (names request) storage ≡ true) requests
    unfolding resize_requests
    resize_requests_found storage [] w h = tt
    resize_requests_found storage (request ∷ requests) w h =
        let (errors, w') = resize_all U host sys_conf fx_id request storage w in
        let (_, h₁) = append_nil errors _ h in
        let (missing, h₂) = append_nil (not_found request (any (names request) storage)) _ h₁ in
        (found_of request _ missing, resize_requests_found storage requests w' h₂)

    -- A resize that succeeds found, for each request, a disk of the machine with its identifier.
    pub sys_storage_resize_found :
        (storage : List QemuStorageType) (requests : List StorageResizeRequest) (w : W)
        → (sys_storage_resize U host sys_conf fx_id storage requests w).0 ≡ ok tt
        → All (λ request. any (names request) storage ≡ true) requests
    unfolding sys_storage_resize
    sys_storage_resize_found storage requests w h =
        resize_requests_found storage requests w (none_of _ h)
