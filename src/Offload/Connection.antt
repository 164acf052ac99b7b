-- ===== src/Offload/Connection.antt =====
-- A manager's life: it stays connected, a service that was missing at first is never used, and
-- the reports keep the latest results and status.
use platform_system_connecti.Base.{
  ℕ, ◌≡◌, refl, ap, ◌∙◌, Bool, true, false, Option, none, some, List, [], ◌∷◌, Outcome, ok, ◌>>=◌,
  Bool-cases, inl, inr,
}
use platform_system_connecti.HalData.{ScanParam, ScanFilter, NativeScanStats}
use platform_system_connecti.Offload.{
  not_available, transaction_failed, Hal, Manager, is_no_error, init_service,
  init_service_if_needed, get_offload_status, new_manager, unset_manager, call_hal, start_scan,
  stop_scan, read_scan_stats, on_object_death, same_service, Callback, call_back,
}
use platform_system_connecti.Offload.Requests.{
  IsConnected, init_if_needed-IsConnected, init_if_needed_lem, first_failure, all_succeed, Steps,
  init_service-IsConnected,
}

abbrev pub is_read : Option NativeScanStats → Bool
is_read none = false
is_read (some stats) = true

abbrev pub stop_steps : Hal → Manager → Steps
stop_steps hal m =
    (m.service_available, not_available)
    ∷ (is_no_error m.offload_status, not_available)
    ∷ (hal.unsubscribe_scan_results, transaction_failed)
    ∷ []

call_found :
    (m : Manager) (a : ℕ) (answer : Bool)
    → m.wifi_offload_hal ≡ some a
    → call_hal m answer ≡ ok answer
call_found m a answer e = rw e

-- `stopScan` on a manager that has an object to call if it is up always answers: it succeeds when
-- every step does, and else gives the reason of the first step that fails.
pub stop_scan-first_failure :
    (hal : Hal) (m : Manager)
    → IsConnected m
    → stop_scan hal m ≡ (
        let m1 = (init_service_if_needed hal m).0 in
        ok (record {
          manager = m1;
          reason = first_failure (stop_steps hal m1);
          success = all_succeed (stop_steps hal m1);
        }))
unfolding stop_scan get_offload_status IsConnected
stop_scan-first_failure hal m c =
    let m1 = (init_service_if_needed hal m).0 in
    let answers = (init_if_needed_lem hal m).0 in
    elim (Bool-cases m1.service_available) [
      | inr down ↦ simp (answers, down)
      | inl up ↦
          let (a, e) = init_if_needed-IsConnected hal m c up in
          elim (Bool-cases (is_no_error m1.offload_status)) [
            | inr bad ↦ simp (answers, up, bad)
            | inl good ↦ elim (Bool-cases hal.unsubscribe_scan_results) [
              | inl done ↦ simp (answers, up, good, call_found m1 a true e, done)
              | inr lost ↦ simp (answers, up, good, call_found m1 a false e, lost)
            ]
          ]
    ]

-- A manager with an error status, whatever the service answers.
pub start_scan-refused :
    (hal : Hal) (m : Manager) (param : ScanParam) (filter : ScanFilter)
    → is_no_error m.offload_status ≡ false
    → start_scan hal m param filter
      ≡ ok (record {
        manager = (init_service_if_needed hal m).0;
        reason = not_available;
        success = false;
      })
unfolding start_scan get_offload_status
start_scan-refused hal m param filter bad =
    let m1 = (init_service_if_needed hal m).0 in
    let (answers, kept) = init_if_needed_lem hal m in
    let still : is_no_error m1.offload_status ≡ false = ap is_no_error kept ∙ bad in
    elim (Bool-cases m1.service_available) [
      | inr down ↦ simp (answers, down)
      | inl up ↦ simp (answers, up, still)
    ]

stop_scan-refused :
    (hal : Hal) (m : Manager)
    → is_no_error m.offload_status ≡ false
    → stop_scan hal m
      ≡ ok (record {
        manager = (init_service_if_needed hal m).0;
        reason = not_available;
        success = false;
      })
unfolding stop_scan get_offload_status
stop_scan-refused hal m bad =
    let m1 = (init_service_if_needed hal m).0 in
    let (answers, kept) = init_if_needed_lem hal m in
    let still : is_no_error m1.offload_status ≡ false = ap is_no_error kept ∙ bad in
    elim (Bool-cases m1.service_available) [
      | inr down ↦ simp (answers, down)
      | inl up ↦ simp (answers, up, still)
    ]

read_scan_stats-refused :
    (hal : Hal) (m : Manager)
    → is_no_error m.offload_status ≡ false
    → read_scan_stats hal m ≡ ok ((init_service_if_needed hal m).0, none)
unfolding read_scan_stats get_offload_status
read_scan_stats-refused hal m bad =
    let m1 = (init_service_if_needed hal m).0 in
    let (answers, kept) = init_if_needed_lem hal m in
    let still : is_no_error m1.offload_status ≡ false = ap is_no_error kept ∙ bad in
    elim (Bool-cases m1.service_available) [
      | inr down ↦ simp (answers, down)
      | inl up ↦ simp (answers, up, still)
    ]

-- What happens to a manager, each time with what the service answers then: requests, and the death of
-- the service at an address, on which the callback stops the scan or does nothing.
pub data Event : Type 0 where
  starts : Hal → ScanParam → ScanFilter → Event
  stops reads_stats : Hal → Event
  dies : ℕ → Option Hal → Event

-- The manager with the answers that its requests got, the latest first.
abbrev pub Answered : Type 0
Answered = Manager × List Bool

unfoldable pub stop_and_note : Hal → Answered → Outcome Answered
stop_and_note hal (m, answers) = do r ← stop_scan hal m; ok (r.manager, r.success ∷ answers)

abbrev pub on_death : Option Hal → Callback (List Bool)
on_death none = none
on_death (some hal) = some (stop_and_note hal)

unfoldable pub run_event : Event → Answered → Outcome Answered
unfolding stop_and_note
run_event (starts hal param filter) (m, answers) = do
  r ← start_scan hal m param filter
  ok (r.manager, r.success ∷ answers)
run_event (stops hal) s = stop_and_note hal s
run_event (reads_stats hal) (m, answers) = do
  r ← read_scan_stats hal m
  ok (r.0, is_read r.1 ∷ answers)
run_event (dies cookie callback) s = on_object_death (λ reason. on_death callback) cookie s

unfoldable pub run : List Event → Answered → Outcome Answered
unfolding run_event
run [] s = ok s
run (e ∷ later) s = run_event e s >>= run later

abbrev pub AllRefused : List Bool → Type 0
AllRefused [] = Unit {0}
AllRefused (b ∷ answers) = (b ≡ false) × AllRefused answers

-- A manager without a status that allows requests, which has refused all requests.
abbrev Refuses : Answered → Type 0
Refuses (m, answers) = (is_no_error m.offload_status ≡ false) × AllRefused answers

-- A step that returns, and what its result keeps.
abbrev Returns : Outcome Answered → Type 0
Returns o = (s : Answered) × (o ≡ ok s) × Refuses s

refuses_still :
    (hal : Hal) (m : Manager)
    → is_no_error m.offload_status ≡ false
    → is_no_error (init_service_if_needed hal m).0.offload_status ≡ false
refuses_still hal m bad = ap is_no_error (init_if_needed_lem hal m).1 ∙ bad

stop_and_note-Returns : (hal : Hal) (s : Answered) → Refuses s → Returns (stop_and_note hal s)
unfolding stop_and_note
stop_and_note-Returns hal (m, answers) (bad, all) =
    rw (stop_scan-refused hal m bad) ((_, refl, (refuses_still hal m bad, (refl, all))))

dies-Returns :
    (cookie : ℕ) (o : Option Hal) (s : Answered)
    → Refuses s
    → Returns (on_object_death (λ reason. on_death o) cookie s)
unfolding on_object_death
dies-Returns cookie o (m, answers) (bad, all) =
    elim (Bool-cases (same_service m.wifi_offload_hal cookie)) [
      | inr other ↦ rw other ((_, refl, (bad, all)))
      | inl same ↦ rw same (called o)
    ]
  where
    called :
        (o : Option Hal)
        → Returns (
            call_back (on_death o) (record m { wifi_offload_hal = none }, answers) >>= λ r.
            ok (record r.0 { service_available = false; death_recipient = false }, r.1))
    called none = (_, refl, (bad, all))
    called (some hal) =
        let (s, e, h) =
          stop_and_note-Returns hal (record m { wifi_offload_hal = none }, answers) (bad, all) in
        rw e ((_, refl, h))

run_event-Returns : (e : Event) (s : Answered) → Refuses s → Returns (run_event e s)
unfolding run_event
run_event-Returns (starts hal param filter) (m, answers) (bad, all) =
    rw (start_scan-refused hal m param filter bad)
      ((_, refl, (refuses_still hal m bad, (refl, all))))
run_event-Returns (stops hal) s h = stop_and_note-Returns hal s h
run_event-Returns (reads_stats hal) (m, answers) (bad, all) =
    rw (read_scan_stats-refused hal m bad) ((_, refl, (refuses_still hal m bad, (refl, all))))
run_event-Returns (dies cookie o) s h = dies-Returns cookie o s h

run-Returns : (later : List Event) (s : Answered) → Refuses s → Returns (run later s)
unfolding run
run-Returns [] s h = (s, refl, h)
run-Returns (e ∷ later) s h =
    let (t, done, k) = run_event-Returns e s h in rw done (run-Returns later t k)

no_service-init :
    (hal : Hal) (m : Manager)
    → hal.service ≡ none
    → init_service hal m ≡ (record m { wifi_offload_hal = none }, false)
unfolding init_service
no_service-init hal m e = rw e

new_manager-status :
    (hal : Hal) → hal.service ≡ none → is_no_error (new_manager hal).offload_status ≡ false
unfolding new_manager unset_manager
new_manager-status hal e = simp (no_service-init hal unset_manager e)

-- A manager that is made while there is no service refuses all that follows, whatever the service
-- answers then and however often it comes and goes: every request to start a scan, to stop one and
-- for statistics returns and fails, those of the callback at a death of the service among them, as
-- long as the HAL does not report a status.
pub requests-new_manager :
    (first : Hal) (later : List Event)
    → first.service ≡ none
    → (s : Answered) × (run later (new_manager first, []) ≡ ok s) × AllRefused s.1
requests-new_manager first later e =
    let (s, done, h) = run-Returns later (new_manager first, []) (new_manager-status first e, tt) in
    (s, done, h.1)

-- A new manager is connected.
new_manager-IsConnected : (hal : Hal) → IsConnected (new_manager hal)
unfolding new_manager unset_manager IsConnected
new_manager-IsConnected hal =
    let c = init_service-IsConnected hal unset_manager refl in
    elim (Bool-cases (init_service hal unset_manager).1) [
      | inl up ↦ simp up c
      | inr down ↦ simp down c
    ]
