-- ===== src/Scanner/Offloading.antt =====
-- The scanner and its offload manager together: reports of the HAL while an offload scan runs.
use platform_system_connecti.Offload.Connection.{stop_scan-first_failure}
use platform_system_connecti.HalData.{HalCode}
use platform_system_connecti.Base.{
  ℕ, ◌≡◌, refl, ◌∙◌, Bool, true, false, none, some, ==_refl, ok, fault, ap,
}
use platform_system_connecti.Offload.{
  Hal, Manager, AsyncErrorReason, binder_death, stop_scan, is_no_error, get_offload_status,
  call_hal, on_object_death, same_service, StatusCode, remote_failure, status_of, report_error,
  report_status,
}
use platform_system_connecti.Offload.Requests.{init_if_up, IsConnected}
use platform_system_connecti.ScanRequest.{PnoSettings, sched_request}
use platform_system_connecti.Scanner.{
  Told, pno_over_offload_failed, Scanner, World, tell, start_pno_scan_default,
  stop_pno_scan_offload, stop_pno_scan, on_offload_error,
}

-- A scan that runs over the offload HAL.
pub record RunsOver (m : Manager) (s : Scanner) : Type 0 where
  pub supported : s.offload_scan_supported ≡ true
  pub running : s.pno_scan_running_over_offload ≡ true
  pub up : m.service_available ≡ true
  pub healthy : is_no_error m.offload_status ≡ true

no_object : (m : Manager) (answer : Bool) → m.wifi_offload_hal ≡ none → call_hal m answer ≡ fault
no_object m answer e = rw e

stop_scan-no_object :
    (hal : Hal) (m : Manager)
    → m.wifi_offload_hal ≡ none
    → m.service_available ≡ true
    → is_no_error m.offload_status ≡ true
    → stop_scan hal m ≡ fault
unfolding stop_scan get_offload_status
stop_scan-no_object hal m lost up healthy =
    simp (init_if_up hal m up, up, healthy, no_object m hal.unsubscribe_scan_results lost)

pub tell_keeps :
    (h : Bool) (t : Told) (s : Scanner)
    → ((tell h t s).offload_scan_supported ≡ s.offload_scan_supported)
      × ((tell h t s).pno_scan_running_over_offload ≡ s.pno_scan_running_over_offload)
      × ((tell h t s).pno_settings ≡ s.pno_settings)
      × ((tell h t s).valid ≡ s.valid)
unfolding tell
tell_keeps true t s = (refl, refl, refl, refl)
tell_keeps false t s = (refl, refl, refl, refl)

stop_pno_scan-no_object :
    (w : World) (m : Manager) (s : Scanner)
    → RunsOver m s
    → m.wifi_offload_hal ≡ none
    → stop_pno_scan w (m, s) ≡ fault
unfolding stop_pno_scan stop_pno_scan_offload
stop_pno_scan-no_object w m s r lost =
    simp (r.supported, r.running, stop_scan-no_object w.hal m lost r.up r.healthy)

tell-RunsOver :
    {m : Manager} {s : Scanner} (h : Bool) (t : Told) → RunsOver m s → RunsOver m (tell h t s)
tell-RunsOver {s = s} h t r = record {
  supported = (tell_keeps h t s).0 ∙ r.supported;
  running = (tell_keeps h t s).1 ∙ r.running;
  up = r.up;
  healthy = r.healthy;
}

on_offload_error-no_object :
    (w : World) (reason : AsyncErrorReason) (m : Manager) (s : Scanner)
    → RunsOver m s
    → m.wifi_offload_hal ≡ none
    → on_offload_error w reason (m, s) ≡ fault
unfolding on_offload_error
on_offload_error-no_object w reason m s r lost =
    let told = pno_over_offload_failed reason in
    simp (
      r.running,
      stop_pno_scan-no_object w m (tell s.pno_scan_event_handler told s)
          (tell-RunsOver s.pno_scan_event_handler told r) lost,
    )

without_object :
    {m : Manager} {s : Scanner} → RunsOver m s → RunsOver (record m { wifi_offload_hal = none }) s
without_object r = record {
  supported = r.supported;
  running = r.running;
  up = r.up;
  healthy = r.healthy;
}

-- The death of the service while a scan runs over it ends in a fault: the manager has dropped the
-- service and still counts it as available when its callback stops the scan through it.
pub death_while_running :
    (w : World) (m : Manager) (s : Scanner) (cookie : ℕ)
    → RunsOver m s
    → m.wifi_offload_hal ≡ some cookie
    → on_object_death (λ reason. some (on_offload_error w reason)) cookie (m, s) ≡ fault
unfolding on_object_death
death_while_running w m s cookie r e =
    let m1 : Manager = record m { wifi_offload_hal = none } in
    let same : same_service m.wifi_offload_hal cookie ≡ true = rw e (==_refl cookie) in
    simp (same, on_offload_error-no_object w binder_death m1 s (without_object r) refl)

-- The binder's death while no scan runs over the HAL is only noted.
pub death_while_idle :
    (w : World) (m : Manager) (s : Scanner) (cookie : ℕ)
    → s.pno_scan_running_over_offload ≡ false
    → m.wifi_offload_hal ≡ some cookie
    → on_object_death (λ reason. some (on_offload_error w reason)) cookie (m, s)
      ≡ ok (
        record m { wifi_offload_hal = none; service_available = false; death_recipient = false },
        s,
      )
unfolding on_object_death on_offload_error
death_while_idle w m s cookie idle e =
    let same : same_service m.wifi_offload_hal cookie ≡ true = rw e (==_refl cookie) in
    simp (same, idle)

-- The last step of falling back, where netlink takes the request.
start_default-succeeds :
    (w : World) (settings : PnoSettings) (s : Scanner)
    → s.valid ≡ true
    → w.sched_answer (sched_request w.device w.is_associated settings) ≡ none
    → start_pno_scan_default w settings s ≡ ok (record s { pno_scan_started = true }, true)
unfolding start_pno_scan_default
start_default-succeeds w settings s v e = rw (e, v) refl

stop_over_offload :
    (w : World) (m : Manager) (s : Scanner)
    → RunsOver m s
    → IsConnected m
    → stop_pno_scan w (m, s) ≡ ok ((m, record s { pno_scan_running_over_offload = false }), true)
unfolding stop_pno_scan stop_pno_scan_offload
stop_over_offload w m s r c =
    simp (r.supported, r.running, stop_scan-first_failure w.hal m c, init_if_up w.hal m r.up)

-- An error report of the HAL while a valid scanner has a scan running over it, with a service that
-- is up: where netlink takes the request for the last settings, the handler is told of the failure
-- if there is one, the scan is marked as started over netlink and no longer as running over the
-- HAL, and the manager keeps the status.
pub report_error-falls_back :
    (w : World) (m : Manager) (s : Scanner) (code : HalCode) (status : StatusCode)
    → RunsOver m s
    → IsConnected m
    → s.valid ≡ true
    → status_of code ≡ some status
    → is_no_error status ≡ false
    → w.sched_answer (sched_request w.device w.is_associated s.pno_settings) ≡ none
    → report_error (λ reason. some (on_offload_error w reason)) code (m, s)
      ≡ ok (
        record m { offload_status = status },
        record (tell s.pno_scan_event_handler (pno_over_offload_failed remote_failure) s) {
          pno_scan_running_over_offload = false;
          pno_scan_started = true;
        },
      )
unfolding report_error report_status on_offload_error
report_error-falls_back w m s code status r c v e bad netlink =
    let told = pno_over_offload_failed remote_failure in
    let s1 = tell s.pno_scan_event_handler told s in
    let (_, _, settings, valid) = tell_keeps s.pno_scan_event_handler told s in
    let s2 : Scanner = record s1 { pno_scan_running_over_offload = false } in
    let request =
      ap (λ p. w.sched_answer (sched_request w.device w.is_associated p)) settings ∙ netlink in
    simp (
      e,
      bad,
      r.running,
      stop_over_offload w m s1 (tell-RunsOver s.pno_scan_event_handler told r) c,
      start_default-succeeds w s2.pno_settings s2 (valid ∙ v) request,
    )
