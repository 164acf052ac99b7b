-- ===== src/Scanner/Lifetime.antt =====
-- The scanner counts as valid behind every operation that returns.
use platform_system_connecti.HalData.{create_scan_param, create_scan_filter}
use platform_system_connecti.Offload.{Manager, AsyncErrorReason, start_scan, stop_scan}
use platform_system_connecti.Scanner.Offloading.{tell_keeps}
use platform_system_connecti.Base.{
  Ends, any, Ends-bind, Ends-if, Ends-option, ℕ, ◌≡◌, Bool, true, false, not, ◌==◌, Outcome, ok,
  fault, arith, ◌&&◌, ◌∙◌, [],
}
use platform_system_connecti.ScanRequest.{
  PnoSettings, SingleScanSettings, scan_type_of, sched_request, scan_request, pno_lists,
}
use platform_system_connecti.Scanner.{
  Scanner, World, State, check_alive, scan, start_pno_scan_default, stop_pno_scan_default, enodev,
  pno_over_offload_started, pno_over_offload_failed, pno_scan_failed, start_pno_scan_offload,
  start_pno_scan, stop_pno_scan_offload, stop_pno_scan, on_offload_error, on_own, tell, Told,
}

abbrev pub Valid : Scanner × Bool → Type 0
Valid r = r.0.valid ≡ true

checked : (s : Scanner) (n : ℕ) → s.valid ≡ true → Ends Valid (check_alive n (s, false))
checked s n v = Ends-if Valid (n == enodev) fault (ok (s, false)) tt v

start_default-valid :
    (w : World) (p : PnoSettings) (s : Scanner)
    → s.valid ≡ true
    → Ends Valid (start_pno_scan_default w p s)
unfolding start_pno_scan_default
start_default-valid w p s v = Ends-if Valid (not s.valid) (ok (s, false)) _ v (
    Ends-option Valid (w.sched_answer (sched_request w.device w.is_associated p)) _ _ v
      (λ n. checked s n v))

stop_default-valid :
    (w : World) (s : Scanner) → s.valid ≡ true → (stop_pno_scan_default w s).0.valid ≡ true
unfolding stop_pno_scan_default
stop_default-valid w s v = ground arith

pub scan-valid :
    (w : World) (settings : SingleScanSettings) (s : Scanner)
    → s.valid ≡ true
    → Ends Valid (scan w settings s)
unfolding scan
scan-valid w settings s v = Ends-if Valid (not s.valid) (ok (s, false)) _ v (
    Ends-bind (λ t. Unit {0}) Valid (scan_type_of w.device settings) _
      (any (scan_type_of w.device settings))
      (λ t u.
        Ends-option Valid (w.scan_answer (scan_request w.device w.is_associated t settings)) _ _ v
          (λ n. checked s n v)))

abbrev pub StateValid : State × Bool → Type 0
StateValid r = r.0.1.valid ≡ true

own-StateValid :
    (m : Manager) (o : Outcome (Scanner × Bool)) → Ends Valid o → Ends StateValid (on_own m o)
own-StateValid m o v = Ends-bind Valid StateValid o _ v (λ r p. p)

pub tell-valid : (h : Bool) (t : Told) (s : Scanner) → s.valid ≡ true → (tell h t s).valid ≡ true
tell-valid h t s v = (tell_keeps h t s).3 ∙ v

start_offload-valid :
    (w : World) (p : PnoSettings) (m : Manager) (s : Scanner)
    → s.valid ≡ true
    → Ends StateValid (start_pno_scan_offload w p (m, s))
unfolding start_pno_scan_offload
start_offload-valid w p m s v =
    let lists = pno_lists w.device [] p.pno_networks in
    let request =
      start_scan w.hal m (create_scan_param lists.0 [] p.interval_ms)
        (create_scan_filter lists.1 lists.2 p.min_5g_rssi) in
    Ends-bind (λ r. Unit {0}) StateValid request _ (any request)
      (λ r u.
        tell-valid (r.success && s.pno_scan_event_handler) pno_over_offload_started
          (record s { pno_scan_running_over_offload = r.success }) v)

pub start_pno_scan-valid :
    (w : World) (p : PnoSettings) (m : Manager) (s : Scanner)
    → s.valid ≡ true
    → Ends StateValid (start_pno_scan w p (m, s))
unfolding start_pno_scan
start_pno_scan-valid w p m s v =
    let s1 : Scanner = record s { pno_settings = p; pno_scan_results_from_offload = false } in
    Ends-if StateValid (not s1.offload_scan_supported) _ _
      (own-StateValid m (start_pno_scan_default w p s1) (start_default-valid w p s1 v))
      (Ends-bind StateValid StateValid (start_pno_scan_offload w p (m, s1)) _
        (start_offload-valid w p m s1 v)
        (λ r u. Ends-if StateValid r.1 _ _ u (
          own-StateValid r.0.0 (start_pno_scan_default w p r.0.1)
            (start_default-valid w p r.0.1 u))))

stop_offload-valid :
    (w : World) (m : Manager) (s : Scanner)
    → s.valid ≡ true
    → Ends StateValid (stop_pno_scan_offload w (m, s))
unfolding stop_pno_scan_offload
stop_offload-valid w m s v =
    let request = stop_scan w.hal m in
    Ends-if StateValid (not s.pno_scan_running_over_offload) _ _ v
      (Ends-bind (λ r. Unit {0}) StateValid request _ (any request) (λ r u. v))

pub stop_pno_scan-valid :
    (w : World) (m : Manager) (s : Scanner)
    → s.valid ≡ true
    → Ends StateValid (stop_pno_scan w (m, s))
unfolding stop_pno_scan
stop_pno_scan-valid w m s v =
    Ends-if StateValid (not s.offload_scan_supported) _ _ (stop_default-valid w s v) (
      Ends-bind StateValid StateValid (stop_pno_scan_offload w (m, s)) _
        (stop_offload-valid w m s v)
        (λ r u. Ends-if StateValid r.1 _ _ u (stop_default-valid w r.0.1 u)))

abbrev pub OnlyValid : State → Type 0
OnlyValid st = st.1.valid ≡ true

pub on_offload_error-valid :
    (w : World) (reason : AsyncErrorReason) (m : Manager) (s : Scanner)
    → s.valid ≡ true
    → Ends OnlyValid (on_offload_error w reason (m, s))
unfolding on_offload_error
on_offload_error-valid w reason m s v =
    let s1 = tell s.pno_scan_event_handler (pno_over_offload_failed reason) s in
    Ends-if OnlyValid (not s.pno_scan_running_over_offload) _ _ v (
      Ends-bind StateValid OnlyValid (stop_pno_scan w (m, s1)) _
        (stop_pno_scan-valid w m s1
          (tell-valid s.pno_scan_event_handler (pno_over_offload_failed reason) s v))
        (λ r u.
          Ends-bind Valid OnlyValid (start_pno_scan_default w r.0.1.pno_settings r.0.1) _
            (start_default-valid w r.0.1.pno_settings r.0.1 u)
            (λ t x. Ends-if OnlyValid t.1 _ _ x (
              Ends-if OnlyValid t.0.pno_scan_event_handler _ _
                (tell-valid true pno_scan_failed t.0 x) tt))))
