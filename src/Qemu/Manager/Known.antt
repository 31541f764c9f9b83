-- ===== src/Qemu/Manager/Known.antt =====
-- The workers of a manager and its machines.
use becky.Base.{
  ℕ, ◌≡◌, sym, subst, ◌∙◌, none, Eq, get, insert, remove, get-insert, get-insert_other, get-remove,
  get-remove_other, arith,
}
use becky.Qemu.Manager.{QemuManager, WorkerControlHandle}

module _ {K : Type 0} ⦃e : Eq K⦄ where
  abbrev pub WorkersKnown : QemuManager K → Type 0
  WorkersKnown m = (k : K) → get m.vms k ≡ none → get m.vmctl k ≡ none

  pub insert_vms_known :
      (m : QemuManager K) (k : K) (vm : ℕ)
      → WorkersKnown m
      → WorkersKnown (record m { vms = insert m.vms k vm })
  insert_vms_known m k vm h i lost = elim (e.dec k i) [
    | yes same ↦ absurd (ground (arith, get-insert m.vms k vm))
    | no ne ↦ h i (sym (get-insert_other m.vms k vm i ne) ∙ lost)
  ]

  pub insert_both_known :
      (m : QemuManager K) (k : K) (vm : ℕ) (worker : WorkerControlHandle)
      → WorkersKnown m
      → WorkersKnown (record m { vmctl = insert m.vmctl k worker; vms = insert m.vms k vm })
  insert_both_known m k vm worker h i lost = elim (e.dec k i) [
    | yes same ↦ absurd (ground (arith, get-insert m.vms k vm))
    | no ne ↦
        get-insert_other m.vmctl k worker i ne ∙ h i (sym (get-insert_other m.vms k vm i ne) ∙ lost)
  ]

  pub insert_worker_known :
      (m : QemuManager K) (k : K) (worker : WorkerControlHandle)
      → ¬ (get m.vms k ≡ none)
      → WorkersKnown m
      → WorkersKnown (record m { vmctl = insert m.vmctl k worker })
  insert_worker_known m k worker found h i lost = elim (e.dec k i) [
    | yes same ↦ absurd (found (subst (λ j. get m.vms j ≡ none) (sym same) lost))
    | no ne ↦ get-insert_other m.vmctl k worker i ne ∙ h i lost
  ]

  pub remove_worker_known :
      (m : QemuManager K) (k : K)
      → WorkersKnown m
      → WorkersKnown (record m { vmctl = remove m.vmctl k })
  remove_worker_known m k h i lost = elim (e.dec k i) [
    | yes same ↦ ground (arith, get-remove m.vmctl k)
    | no ne ↦ get-remove_other m.vmctl k i ne ∙ h i lost
  ]

  pub remove_vm_known :
      (m : QemuManager K) (k : K)
      → get m.vmctl k ≡ none
      → WorkersKnown m
      → WorkersKnown (record m { vms = remove m.vms k })
  remove_vm_known m k idle h i lost = elim (e.dec k i) [
    | yes same ↦ ground arith
    | no ne ↦ h i (sym (get-remove_other m.vms k i ne) ∙ lost)
  ]
