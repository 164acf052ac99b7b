-- ===== src/Scanner/History.antt =====
-- Histories of a scanner: the calls of its clients, the reports of the kernel and of the offload
-- HAL, and `Invalidate`, in any order.
use platform_system_connecti.Broadcast.{Subscriptions}
use platform_system_connecti.Scanner.Invalidating.{invalidate}
use platform_system_connecti.Base.{
  Ends, Ends-bind, Ends-if, ℕ, ◌≡◌, refl, subst, Bool, true, false, not, Option, none, some, List,
  if◌then◌else◌, Outcome, ok,
}
use platform_system_connecti.HalData.{HalCode, HalScanResult}
use platform_system_connecti.Offload.{
  Manager, StatusCode, is_no_error, status_of, report_status, report_error, report_scan_results,
  on_object_death, same_service, remote_failure, binder_death,
}
use platform_system_connecti.ScanRequest.{PnoSettings, SingleScanSettings}
use platform_system_connecti.Scanner.{
  Scanner, World, State, new_scanner, scan, start_pno_scan, stop_pno_scan, on_scan_results_ready,
  on_sched_scan_results_ready, scan_result_ready, scan_failed, on_offload_scan_result,
  on_offload_error, subscribe_scan_events, unsubscribe_scan_events, subscribe_pno_scan_events,
  unsubscribe_pno_scan_events, pno_scan_failed, pno_network_found,
}
use platform_system_connecti.Scanner.Lifetime.{
  Valid, StateValid, OnlyValid, scan-valid, start_pno_scan-valid, stop_pno_scan-valid,
  on_offload_error-valid, tell-valid,
}

report_status-valid :
    (w : World) (o : Option StatusCode) (m : Manager) (s : Scanner)
    → s.valid ≡ true
    → Ends OnlyValid (report_status (λ reason. some (on_offload_error w reason)) o (m, s))
unfolding report_status
report_status-valid w none m s v = v
report_status-valid w (some status) m s v =
    let called =
      if is_no_error status then ok (m, s) else on_offload_error w remote_failure (m, s) in
    Ends-bind OnlyValid OnlyValid called _
      (Ends-if OnlyValid (is_no_error status) (ok (m, s)) _ v
        (on_offload_error-valid w remote_failure m s v))
      (λ r u. u)

death-valid :
    (w : World) (cookie : ℕ) (m : Manager) (s : Scanner)
    → s.valid ≡ true
    → Ends OnlyValid (on_object_death (λ reason. some (on_offload_error w reason)) cookie (m, s))
unfolding on_object_death
death-valid w cookie m s v =
    let m1 : Manager = record m { wifi_offload_hal = none } in
    Ends-if OnlyValid (not (same_service m.wifi_offload_hal cookie)) _ _ v (
      Ends-bind OnlyValid OnlyValid (on_offload_error w binder_death (m1, s)) _
        (on_offload_error-valid w binder_death m1 s v) (λ r u. u))

-- One operation that returns. `abortScan` changes no member.
pub data Step : State → State → Type 0 where
  scanned :
      {m : Manager} {s t : Scanner} (w : World) (settings : SingleScanSettings) (b : Bool)
      → scan w settings s ≡ ok (t, b)
      → Step (m, s) (m, t)
  started :
      {x y : State} (w : World) (p : PnoSettings) (b : Bool)
      → start_pno_scan w p x ≡ ok (y, b)
      → Step x y
  stopped : {x y : State} (w : World) (b : Bool) → stop_pno_scan w x ≡ ok (y, b) → Step x y
  results_ready :
      {m : Manager} {s : Scanner} (aborted : Bool)
      → Step (m, s) (m, on_scan_results_ready aborted s)
  sched_results_ready :
      {m : Manager} {s : Scanner} (scan_stopped : Bool)
      → Step (m, s) (m, on_sched_scan_results_ready scan_stopped s)
  subscribed :
      {m : Manager} {s : Scanner} (handler : Bool)
      → Step (m, s) (m, subscribe_scan_events handler s)
  unsubscribed : {m : Manager} {s : Scanner} → Step (m, s) (m, unsubscribe_scan_events s)
  pno_subscribed :
      {m : Manager} {s : Scanner} (handler : Bool)
      → Step (m, s) (m, subscribe_pno_scan_events handler s)
  pno_unsubscribed : {m : Manager} {s : Scanner} → Step (m, s) (m, unsubscribe_pno_scan_events s)
  offload_results :
      {m : Manager} {s : Scanner} {y : State} (clock : ℕ → ℕ) (results : List HalScanResult)
      → report_scan_results (some (λ x. ok (x.0, on_offload_scan_result x.1))) clock results (m, s)
        ≡ ok y
      → Step (m, s) y
  offload_error :
      {x y : State} (w : World) (code : HalCode)
      → report_error (λ reason. some (on_offload_error w reason)) code x ≡ ok y
      → Step x y
  service_died :
      {x y : State} (w : World) (cookie : ℕ)
      → on_object_death (λ reason. some (on_offload_error w reason)) cookie x ≡ ok y
      → Step x y
  invalidated :
      {m : Manager} {s : Scanner} (index : ℕ) (subscriptions : Subscriptions)
      → Step (m, s) (m, (invalidate index (s, subscriptions)).0)

pub data Reaches (x : State) : State → Type 0 where
  at_once : Reaches x x
  then_step : {y z : State} → Reaches x y → Step y z → Reaches x z

by_end : {A : Type 0} (P : A → Type 0) (m : Outcome A) {a : A} → Ends P m → m ≡ ok a → P a
by_end P m p e = subst (Ends P) e p

if-valid :
    (b : Bool) (s t : Scanner) → s.valid ≡ true → t.valid ≡ true → (if b then s else t).valid ≡ true
if-valid true s t p q = p
if-valid false s t p q = q

sched_ready-valid :
    (stop : Bool) (s : Scanner) → s.valid ≡ true → (on_sched_scan_results_ready stop s).valid ≡ true
unfolding on_sched_scan_results_ready
sched_ready-valid stop s v = if-valid (not s.pno_scan_event_handler) s _ v (
    if-valid stop _ _ (tell-valid s.pno_scan_started pno_scan_failed s v)
      (tell-valid true pno_network_found (record s { pno_scan_results_from_offload = false }) v))

offload_result-valid : (s : Scanner) → s.valid ≡ true → (on_offload_scan_result s).valid ≡ true
unfolding on_offload_scan_result
offload_result-valid s v = if-valid (not s.pno_scan_running_over_offload) s _ v (
    tell-valid s.pno_scan_event_handler pno_network_found
      (record s { pno_scan_results_from_offload = true }) v)

Step-valid : {x y : State} → Step x y → x.1.valid ≡ true → y.1.valid ≡ true
unfolding on_scan_results_ready subscribe_scan_events unsubscribe_scan_events
    subscribe_pno_scan_events unsubscribe_pno_scan_events report_scan_results report_error
    invalidate
Step-valid (scanned {s = s} w settings b e) v =
    by_end Valid (scan w settings s) (scan-valid w settings s v) e
Step-valid {x} (started w p b e) v =
    by_end StateValid (start_pno_scan w p x) (start_pno_scan-valid w p x.0 x.1 v) e
Step-valid {x} (stopped w b e) v =
    by_end StateValid (stop_pno_scan w x) (stop_pno_scan-valid w x.0 x.1 v) e
Step-valid (results_ready {s = s} aborted) v =
    tell-valid s.scan_event_handler (if aborted then scan_failed else scan_result_ready)
      (record s { scan_started = false }) v
Step-valid (sched_results_ready {s = s} stop) v = sched_ready-valid stop s v
Step-valid (subscribed {s = s} handler) v = if-valid (not s.valid) s _ v v
Step-valid unsubscribed v = v
Step-valid (pno_subscribed {s = s} handler) v = if-valid (not s.valid) s _ v v
Step-valid pno_unsubscribed v = v
Step-valid (offload_results {m = m} {s = s} clock results e) v =
    by_end OnlyValid
      (report_scan_results (some (λ x. ok (x.0, on_offload_scan_result x.1))) clock results (m, s))
      (offload_result-valid s v) e
Step-valid {x} (offload_error w code e) v =
    by_end OnlyValid (report_error (λ reason. some (on_offload_error w reason)) code x)
      (report_status-valid w (status_of code) x.0 x.1 v) e
Step-valid {x} (service_died w cookie e) v =
    by_end OnlyValid (on_object_death (λ reason. some (on_offload_error w reason)) cookie x)
      (death-valid w cookie x.0 x.1 v) e
Step-valid (invalidated index subscriptions) v = v

-- A new scanner's `valid_` stays true through all histories of operations that
-- return, `Invalidate` among them.
pub Reaches-valid :
    (m : Manager) (supported : Bool) (unset : PnoSettings) (x : State)
    → Reaches (m, new_scanner supported unset) x
    → x.1.valid ≡ true
unfolding new_scanner
Reaches-valid m supported unset x at_once = refl
Reaches-valid m supported unset x (then_step {y} r s) =
    Step-valid s (Reaches-valid m supported unset y r)
