-- ===== src/Qemu/Instance/Control/Started.antt =====
-- Which machines are attached to, and what a start returns.
use becky.Base.{
  ℕ, ◌≡◌, ◌↔◌, ◌⊎◌, refl, Option, none, some, inl, inr, false, ok, Option-cases, Result-cases,
  Bool-cases, ok_of_bind, arith, ◌>>◌,
}
use becky.Id.{UuidCrate, FxId}
use becky.Qemu.Config.{QemuCrate}
use becky.Qemu.Paths.{pid_path_s, ctl_socket_path_s}
use becky.Qemu.Instance.{
  QemuInstance, QemuHandle, CommandText, live_pid_from_pidfile, root_of, has_ga,
  qmp_connect_timeout_secs, uds_retry_interval_millis,
}
use becky.Qemu.Instance.Comm.{InstanceHost, connected}
use becky.Qemu.Instance.Comm.Connected.{WasSeen, is_some, connected_ok}
use becky.Qemu.Instance.Control.{
  attach_with, attach_live, try_attach_existing, make_log_dir, fresh_command, start_command,
  connect_started, start_unless, fx_start,
}

module _ {W : Type 0} {U : UuidCrate} {B : QemuCrate} {Q : Type 0} where
  module _ (host : InstanceHost (FxId U) W) (text : CommandText Q) (fx_id : FxId U) where
    abbrev IsGood : QemuInstance U B Q → QemuHandle → Type 0
    IsGood i handle = WasSeen host handle.process.pid × (is_some handle.ga ≡ has_ga i)

    attach_with_ok :
        (i : QemuInstance U B Q) (ctl : Option ℕ) (w : W) (handle : QemuHandle)
        → (attach_with host text fx_id i ctl w).0 ≡ ok (some handle)
        → IsGood i handle
    unfolding attach_with
    attach_with_ok i none w handle e = absurd (ground arith)
    attach_with_ok i (some ctl) w handle e =
        let (h, found, e₁) = ok_of_bind (connected host text fx_id i ctl) _ w (some handle) e in
        let same : h ≡ handle = ground arith in
        connected_ok host text fx_id i ctl w handle (rw (← same) found)

    attach_ok :
        (i : QemuInstance U B Q) (w : W) (handle : QemuHandle)
        → (try_attach_existing host text fx_id i w).0 ≡ ok (some handle)
        → IsGood i handle
    unfolding try_attach_existing attach_live
    attach_ok i w handle e =
        elim (Option-cases (live_pid_from_pidfile host.os (pid_path_s U (root_of i) i.fx_id) w).0) [
          | inl gone ↦ absurd (ground arith)
          | inr (pid, live) ↦
              let w₁ = (live_pid_from_pidfile host.os (pid_path_s U (root_of i) i.fx_id) w).1 in
              elim (Bool-cases (host.exists (ctl_socket_path_s U (root_of i) i.fx_id) w₁).0) [
                | inr missing ↦ absurd (ground arith)
                | inl found ↦
                    let (ctl, w₂) =
                      host.connect_ctl (ctl_socket_path_s U (root_of i) i.fx_id)
                        (qmp_connect_timeout_secs i) (uds_retry_interval_millis i)
                        (host.exists (ctl_socket_path_s U (root_of i) i.fx_id) w₁).1 in
                    attach_with_ok i ctl w₂ handle (ground arith)
              ]
        ]

    connect_started_ok :
        (i : QemuInstance U B Q) (w : W) (handle : QemuHandle)
        → (connect_started host text fx_id (i, w)).0 ≡ ok handle
        → IsGood i handle
    unfolding connect_started
    connect_started_ok i w handle e =
        let (ctl, w₁) =
          host.connect_ctl (ctl_socket_path_s U (root_of i) i.fx_id) (qmp_connect_timeout_secs i)
            (uds_retry_interval_millis i) w in
        elim (Option-cases ctl) [
          | inl late ↦ absurd (ground arith)
          | inr (api, found) ↦ connected_ok host text fx_id i api w₁ handle (ground arith)
        ]

    start_unless_ok :
        (attached : Option QemuHandle) (i : QemuInstance U B Q) (w : W) (handle : QemuHandle)
        → ((h : QemuHandle) → attached ≡ some h → IsGood i h)
        → (start_unless host text fx_id attached (i, w)).0 ≡ ok handle
        → IsGood i handle
    unfolding start_unless make_log_dir fresh_command start_command
    start_unless_ok (some h) i w handle good e = good handle (ground arith)
    start_unless_ok none i w handle good e =
        let logs = make_log_dir {B = B} {Q = Q} host in
        let fresh = fresh_command {B = B} host text in
        let start = start_command {B = B} {Q = Q} host fx_id in
        let connect = connect_started {B = B} host text fx_id in
        let s₁ = (logs (i, w)).1 in
        let s₂ = (fresh s₁).1 in
        let s₃ = (start s₂).1 in
        let (_, _, e₁) = ok_of_bind logs (λ _. fresh >> start >> connect) (i, w) handle e in
        let (_, _, e₂) = ok_of_bind fresh (λ _. start >> connect) s₁ handle e₁ in
        let (_, _, e₃) = ok_of_bind start (λ _. connect) s₂ handle e₂ in
        connect_started_ok s₃.0 s₃.1 handle e₃

    -- A start that succeeds returns a handle whose pid a process had, and which has a guest agent
    -- just if the machine is configured with one, whether it was attached to or started.
    pub fx_start_ok :
        (i : QemuInstance U B Q) (w : W) (handle : QemuHandle)
        → (fx_start host text fx_id (i, w)).0 ≡ ok handle
        → WasSeen host handle.process.pid × (is_some handle.ga ≡ has_ga i)
    unfolding fx_start
    fx_start_ok i w handle e = elim (Result-cases (try_attach_existing host text fx_id i w).0) [
      | inr (x, failed) ↦ absurd (ground arith)
      | inl (attached, tried) ↦
          start_unless_ok attached i (try_attach_existing host text fx_id i w).1 handle
            (λ h is. attach_ok i w h (rw (tried, is) refl)) (ground arith)
    ]

    never_none :
        (i : QemuInstance U B Q) (ctl : ℕ) (w : W)
        → ¬ ((attach_with host text fx_id i (some ctl) w).0 ≡ ok none)
    unfolding attach_with
    never_none i ctl w e =
        let (h, _, e₁) = ok_of_bind (connected host text fx_id i ctl) _ w none e in
        absurd (ground arith)

    -- An attachment finds nothing just if no process has the pid of the pid file, or the control
    -- socket is missing, or no connection to it is made in time.
    pub try_attach_none_iff :
        (i : QemuInstance U B Q) (w : W)
        → let (live, w₁) = live_pid_from_pidfile host.os (pid_path_s U (root_of i) i.fx_id) w in
          let (found, w₂) = host.exists (ctl_socket_path_s U (root_of i) i.fx_id) w₁ in
          let (ctl, w₃) =
            host.connect_ctl
              (ctl_socket_path_s U (root_of i) i.fx_id)
              (qmp_connect_timeout_secs i)
              (uds_retry_interval_millis i)
              w₂ in
          ((try_attach_existing host text fx_id i w).0 ≡ ok none)
          ↔ ((live ≡ none) ⊎ ((found ≡ false) ⊎ (ctl ≡ none)))
    unfolding try_attach_existing attach_live
    try_attach_none_iff i w =
        let (live, w₁) = live_pid_from_pidfile host.os (pid_path_s U (root_of i) i.fx_id) w in
        let (found, w₂) = host.exists (ctl_socket_path_s U (root_of i) i.fx_id) w₁ in
        let (ctl, w₃) =
          host.connect_ctl (ctl_socket_path_s U (root_of i) i.fx_id) (qmp_connect_timeout_secs i)
            (uds_retry_interval_millis i) w₂ in
        elim (Option-cases live) [
          | inl gone ↦ (λ h. inl gone, λ h. ground arith)
          | inr (pid, alive) ↦ elim (Bool-cases found) [
            | inr missing ↦ (λ h. inr (inl missing), λ h. ground arith)
            | inl here ↦ elim (Option-cases ctl) [
              | inl late ↦ (λ h. inr (inr late), λ h. unfold attach_with in ground arith)
              | inr (api, up) ↦
                  (λ h. absurd (never_none i api w₃ (ground arith)), λ h. absurd (ground arith))
            ]
          ]
        ]
