-- ===== src/Offload.antt =====
-- scanning/offload/offload_scan_manager.cpp: requests and reports of the offload HAL. The HAL service is a
-- parameter: each operation is given the answers that the service gives while it runs.
pub mod Connection
pub mod Requests
use platform_system_connecti.Base.{
  ℕ, zero, suc, ◌+◌, ◌/◌, ◌%◌, Bool, true, false, not, ◌&&◌, ◌||◌, Option, none, some, List, [],
  ◌∷◌, ◌++◌, ltb, ◌==◌, if◌then◌else◌, map, length, Outcome, ok, fail, hang, fault, ◌>>=◌,
}
use platform_system_connecti.Wire.{Bytes}
use platform_system_connecti.ScanResult.{NativeScanResult}
use platform_system_connecti.HalData.{
  HalCode, hal_ok, hal_timeout, hal_no_connection, hal_error, hal_unknown, HalScanResult, ScanParam,
  ScanFilter, ScanStats, NativeScanStats, convert_to_native, convert_stats,
}

pub data StatusCode : Type 0 where
  no_error no_service not_connected time_out error : StatusCode

pub data ReasonCode : Type 0 where
  none_reason not_available operation_failed transaction_failed : ReasonCode

pub data AsyncErrorReason : Type 0 where
  binder_death remote_failure : AsyncErrorReason

-- A call's answer: whether the transport worked, and the status that came back.
pub record HalAnswer : Type 0 where
  pub transport_status : Bool
  pub code : HalCode

-- What the service answers while an operation runs. `service` is the object that
-- `GetOffloadService` finds, by its address.
pub record Hal : Type 0 where
  pub service : Option ℕ
  pub link_to_death : Bool
  pub callback_made : Bool
  pub set_event_callback : Bool
  pub configure_scans : ScanParam → ScanFilter → HalAnswer
  pub subscribe_scan_results : ℕ → HalAnswer
  pub unsubscribe_scan_results : Bool
  pub get_scan_stats : HalAnswer × ScanStats

-- The members of `OffloadScanManager`; `wifi_offload_hal` is the service's address.
pub record Manager : Type 0 where
  pub wifi_offload_hal : Option ℕ
  pub wifi_offload_callback : Bool
  pub death_recipient : Bool
  pub offload_status : StatusCode
  pub service_available : Bool
  pub cached_scan_results : List NativeScanResult

abbrev pub is_no_error : StatusCode → Bool
is_no_error no_error = true
is_no_error _ = false

-- `InitService`, with the members it has set when it gives up.
unfoldable pub init_service : Hal → Manager → Manager × Bool
init_service hal m =
    let found = record m { wifi_offload_hal = hal.service } in
    let linked = record found { death_recipient = true } in
    let called_back = record linked { wifi_offload_callback = hal.callback_made } in
    elim hal.service [
      | none ↦ (found, false)
      | some _ ↦
          if not hal.link_to_death
          then (linked, false)
          else if not hal.callback_made
          then (called_back, false)
          else if not hal.set_event_callback
          then (called_back, false)
          else (record called_back { service_available = true }, true)
    ]

-- The members as the constructor sets them.
unfoldable pub unset_manager : Manager
unset_manager = record {
  wifi_offload_hal = none;
  wifi_offload_callback = false;
  death_recipient = false;
  offload_status = error;
  service_available = false;
  cached_scan_results = [];
}

unfoldable pub new_manager : Hal → Manager
new_manager hal =
    let (m, up) = init_service hal unset_manager in
    if up then record m { offload_status = no_error } else m

unfoldable pub init_service_if_needed : Hal → Manager → Manager × Bool
init_service_if_needed hal m = if not m.service_available then init_service hal m else (m, true)

unfoldable pub get_offload_status : Manager → StatusCode
get_offload_status m = if not m.service_available then no_service else m.offload_status

-- A member call through `wifi_offload_hal_`.
abbrev pub call_hal {ℓ} : {A : Type ℓ} → Manager → A → Outcome A
call_hal m a = elim m.wifi_offload_hal [ none ↦ fault | some _ ↦ ok a ]

unfoldable pub verify_hidl_status : HalAnswer → ReasonCode × Bool
verify_hidl_status answer =
    if not answer.transport_status
    then (transaction_failed, false)
    else elim answer.code [ hal_ok ↦ (none_reason, true) | _ ↦ (operation_failed, false) ]

abbrev pub subscription_delay_ms : ℕ
subscription_delay_ms = 5000

-- An operation's new members, reason and answer.
pub record Reply : Type 0 where
  pub manager : Manager
  pub reason : ReasonCode
  pub success : Bool

-- The request of `startScan`, once the service is up: configure, then subscribe.
unfoldable pub request_scan : Hal → Manager → ScanParam → ScanFilter → Outcome Reply
request_scan hal m param filter = do
  configured ← call_hal m (verify_hidl_status (hal.configure_scans param filter))
  if not configured.1
      then ok (record { manager = m; reason = configured.0; success = false })
      else (do
        subscribed ←
            call_hal m (verify_hidl_status (hal.subscribe_scan_results subscription_delay_ms))
        if not subscribed.1
            then ok (record { manager = m; reason = subscribed.0; success = false })
            else ok (record { manager = m; reason = none_reason; success = true }))

unfoldable pub start_scan : Hal → Manager → ScanParam → ScanFilter → Outcome Reply
start_scan hal m param filter =
    let (m1, up) = init_service_if_needed hal m in
    if not up || not (is_no_error (get_offload_status m1))
    then ok (record { manager = m1; reason = not_available; success = false })
    else request_scan hal m1 param filter

unfoldable pub stop_scan : Hal → Manager → Outcome Reply
stop_scan hal m =
    let (m1, up) = init_service_if_needed hal m in
    if not up || not (is_no_error (get_offload_status m1))
    then ok (record { manager = m1; reason = not_available; success = false })
    else do
      done ← call_hal m1 hal.unsubscribe_scan_results
      ok (
          if not done
          then record { manager = m1; reason = transaction_failed; success = false }
          else record { manager = m1; reason = none_reason; success = true })

unfoldable pub get_cached_results : Manager → List NativeScanResult → List NativeScanResult
get_cached_results m out = out ++ m.cached_scan_results

-- `getScanStats`: the manager, and the statistics if it has an answer.
unfoldable pub read_scan_stats : Hal → Manager → Outcome (Manager × Option NativeScanStats)
read_scan_stats hal m =
    let (m1, up) = init_service_if_needed hal m in
    if not up || not (is_no_error (get_offload_status m1)) then ok (m1, none) else do
      answer ← call_hal m1 hal.get_scan_stats
      ok (
          if (verify_hidl_status answer.0).1
          then (m1, some (convert_stats answer.1))
          else (m1, none))

-- A report runs the callback, if there is one, on the manager as it is at that moment and on
-- whatever the callback's owner keeps.
abbrev pub Callback : Type 0 → Type 0
Callback X = Option (Manager × X → Outcome (Manager × X))

abbrev pub call_back : {X : Type 0} → Callback X → Manager × X → Outcome (Manager × X)
call_back none s = ok s
call_back (some callback) s = callback s

unfoldable pub report_scan_results :
    {X : Type 0} → Callback X → (ℕ → ℕ) → List HalScanResult → Manager × X → Outcome (Manager × X)
report_scan_results callback clock results (m, x) =
    call_back callback (record m { cached_scan_results = convert_to_native clock results }, x)

unfoldable pub status_of : HalCode → Option StatusCode
status_of hal_ok = some no_error
status_of hal_timeout = some time_out
status_of hal_no_connection = some not_connected
status_of hal_error = some error
status_of hal_unknown = none

-- `ReportError` once the status is known: it is set behind the callback.
unfoldable pub report_status :
    {X : Type 0}
    → (AsyncErrorReason → Callback X)
    → Option StatusCode
    → Manager × X
    → Outcome (Manager × X)
report_status callback none s = ok s
report_status callback (some status) s = do
  (m, x) ← if is_no_error status then ok s else call_back (callback remote_failure) s
  ok (record m { offload_status = status }, x)

unfoldable pub report_error :
    {X : Type 0} → (AsyncErrorReason → Callback X) → HalCode → Manager × X → Outcome (Manager × X)
report_error callback code s = report_status callback (status_of code) s

abbrev pub same_service : Option ℕ → ℕ → Bool
same_service none cookie = cookie == 0
same_service (some address) cookie = address == cookie

-- `OnObjectDeath`: the service counts as available until the callback has run.
unfoldable pub on_object_death :
    {X : Type 0} → (AsyncErrorReason → Callback X) → ℕ → Manager × X → Outcome (Manager × X)
on_object_death callback cookie (m, x) =
    if not (same_service m.wifi_offload_hal cookie) then ok (m, x) else do
      (m1, x1) ← call_back (callback binder_death) (record m { wifi_offload_hal = none }, x)
      ok (record m1 { service_available = false; death_recipient = false }, x1)
