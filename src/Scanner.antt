-- ===== src/Scanner.antt =====
-- scanning/scanner_impl.cpp: one-shot and scheduled scans of one interface, over netlink or the
-- offload HAL. The scanner's state is a pair: the offload manager it owns and its own members.
pub mod Requests
pub mod Offloading
pub mod Lifetime
pub mod Invalidating
pub mod History
pub mod Results
use platform_system_connecti.Base.{
  ℕ, zero, suc, ◌+◌, ◌*◌, ◌^◌, ◌%◌, Bool, true, false, not, ◌&&◌, ◌||◌, Option, none, some, List,
  [], ◌∷◌, ◌++◌, ltb, leb, ◌==◌, if◌then◌else◌, map, length, Outcome, ok, fail, hang, fault, ◌>>=◌,
}
use platform_system_connecti.Wire.{Bytes}
use platform_system_connecti.HalData.{create_scan_param, create_scan_filter}
use platform_system_connecti.Offload.{
  Hal, Manager, AsyncErrorReason, binder_death, remote_failure, start_scan, stop_scan,
}
use platform_system_connecti.ScanRequest.{
  PnoSettings, SingleScanSettings, Device, ScanRequest, SchedRequest, scan_request, scan_type_of,
  pno_lists, sched_request,
}

-- What the handlers of the two subscriptions are told.
pub data Told : Type 0 where
  scan_result_ready scan_failed : Told
  pno_network_found pno_scan_failed : Told
  pno_over_offload_started : Told
  pno_over_offload_failed : AsyncErrorReason → Told

-- The members of `ScannerImpl`. A handler is there or not; `told` and `stops` record what the
-- handlers were told, the latest last.
pub record Scanner : Type 0 where
  pub valid : Bool
  pub scan_started : Bool
  pub pno_scan_started : Bool
  pub offload_scan_supported : Bool
  pub pno_scan_running_over_offload : Bool
  pub pno_scan_results_from_offload : Bool
  pub pno_settings : PnoSettings
  pub scan_event_handler : Bool
  pub pno_scan_event_handler : Bool
  pub told : List Told

-- What the rest of the system answers while an operation runs. A request over netlink answers an
-- error number, or none when it succeeds.
pub record World : Type 0 where
  pub hal : Hal
  pub device : Device
  pub is_associated : Bool
  pub scan_answer : ScanRequest → Option ℕ
  pub sched_answer : SchedRequest → Option ℕ
  pub stop_scheduled : Bool

abbrev pub State : Type 0
State = Manager × Scanner

abbrev pub enodev : ℕ
enodev = 19

-- `CHECK(error_code != ENODEV)`: the process ends.
abbrev pub check_alive {ℓ} : {A : Type ℓ} → ℕ → A → Outcome A
check_alive error_code a = if error_code == enodev then fault else ok a

unfoldable pub tell : Bool → Told → Scanner → Scanner
tell handler t s = if handler then record s { told = s.told ++ (t ∷ []) } else s

unfoldable pub new_scanner : Bool → PnoSettings → Scanner
new_scanner supported unset = record {
  valid = true;
  scan_started = false;
  pno_scan_started = false;
  offload_scan_supported = supported;
  pno_scan_running_over_offload = false;
  pno_scan_results_from_offload = false;
  pno_settings = unset;
  scan_event_handler = false;
  pno_scan_event_handler = false;
  told = [];
}

-- One-shot scans.
unfoldable pub scan : World → SingleScanSettings → Scanner → Outcome (Scanner × Bool)
scan w settings s = if not s.valid then ok (s, false) else do
  scan_type ← scan_type_of w.device settings
  elim (w.scan_answer (scan_request w.device w.is_associated scan_type settings)) [
    | some error_code ↦ check_alive error_code (s, false)
    | none ↦ ok (record s { scan_started = true }, true)
  ]

-- Whether the abort is passed on to the kernel.
unfoldable pub abort_scan : Scanner → Bool
abort_scan s = s.valid && s.scan_started

unfoldable pub on_scan_results_ready : Bool → Scanner → Scanner
on_scan_results_ready aborted s =
    tell s.scan_event_handler (if aborted then scan_failed else scan_result_ready)
      (record s { scan_started = false })

-- Scheduled scans.
unfoldable pub start_pno_scan_default : World → PnoSettings → Scanner → Outcome (Scanner × Bool)
start_pno_scan_default w settings s =
    if not s.valid
    then ok (s, false)
    else elim (w.sched_answer (sched_request w.device w.is_associated settings)) [
      | some error_code ↦ check_alive error_code (s, false)
      | none ↦ ok (record s { pno_scan_started = true }, true)
    ]

unfoldable pub start_pno_scan_offload : World → PnoSettings → State → Outcome (State × Bool)
start_pno_scan_offload w settings (m, s) = do
  let (scan_ssids, match_ssids, security) = pno_lists w.device [] settings.pno_networks
  r ←
      start_scan w.hal m (create_scan_param scan_ssids [] settings.interval_ms)
        (create_scan_filter match_ssids security settings.min_5g_rssi)
  let s1 = record s { pno_scan_running_over_offload = r.success }
  let s2 = tell (r.success && s.pno_scan_event_handler) pno_over_offload_started s1
  ok ((r.manager, s2), r.success)

-- An operation of the scanner's own members, on the pair.
abbrev pub on_own : Manager → Outcome (Scanner × Bool) → Outcome (State × Bool)
on_own m o = o >>= λ r. ok ((m, r.0), r.1)

unfoldable pub start_pno_scan : World → PnoSettings → State → Outcome (State × Bool)
start_pno_scan w settings (m, s) =
    let s1 = record s { pno_settings = settings; pno_scan_results_from_offload = false } in
    if not s1.offload_scan_supported then on_own m (start_pno_scan_default w settings s1) else do
      ((m2, s2), over_offload) ← start_pno_scan_offload w settings (m, s1)
      if over_offload then ok ((m2, s2), true) else on_own m2 (start_pno_scan_default w settings s2)

unfoldable pub stop_pno_scan_offload : World → State → Outcome (State × Bool)
stop_pno_scan_offload w (m, s) =
    if not s.pno_scan_running_over_offload then ok ((m, s), false) else do
      r ← stop_scan w.hal m
      ok ((r.manager, record s { pno_scan_running_over_offload = false }), true)

unfoldable pub stop_pno_scan_default : World → Scanner → Scanner × Bool
stop_pno_scan_default w s =
    if not s.valid
    then (s, false)
    else if not w.stop_scheduled
    then (s, false)
    else (record s { pno_scan_started = false }, true)

unfoldable pub stop_pno_scan : World → State → Outcome (State × Bool)
stop_pno_scan w (m, s) =
    if not s.offload_scan_supported then on_own m (ok (stop_pno_scan_default w s)) else do
      ((m2, s2), over_offload) ← stop_pno_scan_offload w (m, s)
      if over_offload then ok ((m2, s2), true) else on_own m2 (ok (stop_pno_scan_default w s2))

unfoldable pub on_sched_scan_results_ready : Bool → Scanner → Scanner
on_sched_scan_results_ready scan_stopped s =
    if not s.pno_scan_event_handler
    then s
    else if scan_stopped
    then record (tell s.pno_scan_started pno_scan_failed s) { pno_scan_started = false }
    else tell true pno_network_found (record s { pno_scan_results_from_offload = false })

-- Reports of the offload manager.
unfoldable pub on_offload_scan_result : Scanner → Scanner
on_offload_scan_result s =
    if not s.pno_scan_running_over_offload
    then s
    else tell s.pno_scan_event_handler pno_network_found
        (record s { pno_scan_results_from_offload = true })

-- The last call goes through `pno_scan_event_handler_` without a test.
unfoldable pub on_offload_error : World → AsyncErrorReason → State → Outcome State
on_offload_error w reason (m, s) = if not s.pno_scan_running_over_offload then ok (m, s) else do
  let s1 = tell s.pno_scan_event_handler (pno_over_offload_failed reason) s
  ((m2, s2), stopped) ← stop_pno_scan w (m, s1)
  (s3, restarted) ← start_pno_scan_default w s2.pno_settings s2
  if restarted
      then ok (m2, s3)
      else if s3.pno_scan_event_handler
      then ok (m2, tell true pno_scan_failed s3)
      else fault

-- Subscriptions.
unfoldable pub subscribe_scan_events : Bool → Scanner → Scanner
subscribe_scan_events handler s =
    if not s.valid then s else record s { scan_event_handler = handler }

unfoldable pub unsubscribe_scan_events : Scanner → Scanner
unsubscribe_scan_events s = record s { scan_event_handler = false }

unfoldable pub subscribe_pno_scan_events : Bool → Scanner → Scanner
subscribe_pno_scan_events handler s =
    if not s.valid then s else record s { pno_scan_event_handler = handler }

unfoldable pub unsubscribe_pno_scan_events : Scanner → Scanner
unsubscribe_pno_scan_events s = record s { pno_scan_event_handler = false }
