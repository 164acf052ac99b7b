-- ===== src/Offload/Requests.antt =====
-- What the manager's requests answer, on every branch, and which managers can answer at all.
use platform_system_connecti.Base.{
  ℕ, ◌≡◌, refl, sym, ◌∙◌, Bool, true, false, ◌&&◌, none, some, List, [], ◌∷◌, ◌++◌, if◌then◌else◌,
  ok, arith, Bool-cases, Option-cases, inl, inr,
}
use platform_system_connecti.HalData.{
  ScanParam, ScanFilter, HalCode, hal_ok, hal_timeout, hal_no_connection, hal_error, hal_unknown,
}
use platform_system_connecti.Offload.{
  ReasonCode, none_reason, not_available, operation_failed, transaction_failed, Hal, HalAnswer,
  Manager, is_no_error, init_service, init_service_if_needed, get_offload_status,
  verify_hidl_status, request_scan, start_scan, subscription_delay_ms,
}

-- A service that counts as available has an object to call.
unfoldable pub IsConnected : Manager → Type 0
IsConnected m = m.service_available ≡ true → (a : ℕ) × (m.wifi_offload_hal ≡ some a)

found_service :
    (hal : Hal) (m : Manager)
    → m.service_available ≡ false
    → (init_service hal m).0.service_available ≡ true
    → (init_service hal m).0.wifi_offload_hal ≡ hal.service
unfolding init_service
found_service hal m down up = elim (Option-cases hal.service) [
  | inl e ↦ ground arith
  | inr (a, e) ↦ ground arith
]

needs_service :
    (hal : Hal) (m : Manager)
    → m.service_available ≡ false
    → hal.service ≡ none
    → (init_service hal m).0.service_available ≡ false
unfolding init_service
needs_service hal m down e = rw e down

pub init_service-IsConnected :
    (hal : Hal) (m : Manager) → m.service_available ≡ false → IsConnected (init_service hal m).0
unfolding IsConnected
init_service-IsConnected hal m down = λ up. elim (Option-cases hal.service) [
  | inl e ↦ cc (needs_service hal m down e)
  | inr (a, e) ↦ (a, found_service hal m down up ∙ e)
]

pub init_if_up :
    (hal : Hal) (m : Manager)
    → m.service_available ≡ true
    → init_service_if_needed hal m ≡ (m, true)
unfolding init_service_if_needed
init_if_up hal m up = simp up

pub init_if_down :
    (hal : Hal) (m : Manager)
    → m.service_available ≡ false
    → init_service_if_needed hal m ≡ init_service hal m
unfolding init_service_if_needed
init_if_down hal m down = simp down

pub init_if_needed-IsConnected :
    (hal : Hal) (m : Manager) → IsConnected m → IsConnected (init_service_if_needed hal m).0
init_if_needed-IsConnected hal m c = elim (Bool-cases m.service_available) [
  | inl up ↦ simp (init_if_up hal m up) c
  | inr down ↦ simp (init_if_down hal m down) (init_service-IsConnected hal m down)
]

init_service_lem :
    (hal : Hal) (m : Manager)
    → m.service_available ≡ false
    → ((init_service hal m).1 ≡ (init_service hal m).0.service_available)
      × ((init_service hal m).0.offload_status ≡ m.offload_status)
unfolding init_service
init_service_lem hal m down = elim (Option-cases hal.service) [
  | inl e ↦ ground arith
  | inr (a, e) ↦ ground arith
]

-- `InitServiceIfNeeded` answers whether the service is available behind it.
pub init_if_needed_lem :
    (hal : Hal) (m : Manager)
    → ((init_service_if_needed hal m).1 ≡ (init_service_if_needed hal m).0.service_available)
      × ((init_service_if_needed hal m).0.offload_status ≡ m.offload_status)
init_if_needed_lem hal m = elim (Bool-cases m.service_available) [
  | inl up ↦ simp (init_if_up hal m up) (sym up, refl)
  | inr down ↦ simp (init_if_down hal m down) (init_service_lem hal m down)
]

-- The steps of a request, each with the reason to give when it fails.
abbrev pub Steps : Type 0
Steps = List (Bool × ReasonCode)

abbrev pub all_succeed : Steps → Bool
all_succeed [] = true
all_succeed ((b, r) ∷ steps) = b && all_succeed steps

abbrev pub first_failure : Steps → ReasonCode
first_failure [] = none_reason
first_failure ((b, r) ∷ steps) = let rest = first_failure steps in if b then rest else r

abbrev is_hal_ok : HalCode → Bool
is_hal_ok hal_ok = true
is_hal_ok _ = false

abbrev pub call_steps : HalAnswer → Steps
call_steps answer =
    (answer.transport_status, transaction_failed) ∷ (is_hal_ok answer.code, operation_failed) ∷ []

code_lem :
    (t : Bool) (c : HalCode)
    → verify_hidl_status (record { transport_status = t; code = c }) ≡ (
      first_failure (call_steps (record { transport_status = t; code = c })),
      all_succeed (call_steps (record { transport_status = t; code = c })),
    )
unfolding verify_hidl_status
code_lem false c = refl
code_lem true hal_ok = refl
code_lem true hal_timeout = refl
code_lem true hal_no_connection = refl
code_lem true hal_error = refl
code_lem true hal_unknown = refl

-- The whole of a request: the service, its status, and the calls.
abbrev pub start_steps : Hal → Manager → ScanParam → ScanFilter → Steps
start_steps hal m param filter =
    (m.service_available, not_available)
    ∷ (is_no_error m.offload_status, not_available)
    ∷ (call_steps (hal.configure_scans param filter)
        ++ call_steps (hal.subscribe_scan_results subscription_delay_ms))

request_lem :
    (hal : Hal) (m : Manager) (param : ScanParam) (filter : ScanFilter) (a : ℕ)
    → m.wifi_offload_hal ≡ some a
    → request_scan hal m param filter ≡ (
        let steps =
          call_steps (hal.configure_scans param filter)
          ++ call_steps (hal.subscribe_scan_results subscription_delay_ms) in
        ok (record { manager = m; reason = first_failure steps; success = all_succeed steps }))
unfolding request_scan
request_lem hal m param filter a e =
    let c = hal.configure_scans param filter in
    let s = hal.subscribe_scan_results subscription_delay_ms in
    rw (e, code_lem c.transport_status c.code, code_lem s.transport_status s.code) (ground arith)

-- `startScan` on a manager that has an object to call if it is up always answers: it succeeds when
-- every step does, and else gives the reason of the first step that fails.
pub start_scan-first_failure :
    (hal : Hal) (m : Manager) (param : ScanParam) (filter : ScanFilter)
    → IsConnected m
    → start_scan hal m param filter ≡ (
        let m1 = (init_service_if_needed hal m).0 in
        ok (record {
          manager = m1;
          reason = first_failure (start_steps hal m1 param filter);
          success = all_succeed (start_steps hal m1 param filter);
        }))
unfolding start_scan get_offload_status IsConnected
start_scan-first_failure hal m param filter c =
    let m1 = (init_service_if_needed hal m).0 in
    let answers = (init_if_needed_lem hal m).0 in
    elim (Bool-cases m1.service_available) [
      | inr down ↦ simp (answers, down)
      | inl up ↦
          let (a, e) = init_if_needed-IsConnected hal m c up in
          elim (Bool-cases (is_no_error m1.offload_status)) [
            | inr bad ↦ simp (answers, up, bad)
            | inl good ↦ simp (answers, up, good, request_lem hal m1 param filter a e)
          ]
    ]
