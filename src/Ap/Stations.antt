-- ===== src/Ap/Stations.antt =====
-- The counter over a history of station events.
use platform_system_connecti.Base.{
  ℕ, zero, suc, ◌+◌, ◌≡◌, refl, Bool, true, false, List, [], ◌∷◌, ◌++◌, if◌then◌else◌, arith, ◌%◌,
  ◌^◌, ◌<◌, ◌-◌,
}
use platform_system_connecti.Ap.{
  StationEvent, new_station, del_station, Ap, new_ap, on_station_event, CleanUpCall, kill_hostapd,
  interface_down, station_mode, stop_hostapd, notify, is_positive,
}

pub run : List StationEvent → Ap → Ap
run [] a = a
run (e ∷ es) a = run es (on_station_event e a)

abbrev pub joined : List StationEvent → ℕ
joined [] = 0
joined (new_station ∷ es) = suc (joined es)
joined (del_station ∷ es) = joined es

abbrev pub left : List StationEvent → ℕ
left [] = 0
left (new_station ∷ es) = left es
left (del_station ∷ es) = suc (left es)

-- The leaves that find no station: from `n` present ones on.
abbrev pub unmatched : ℕ → List StationEvent → ℕ
unmatched n [] = 0
unmatched n (new_station ∷ es) = unmatched (suc n) es
unmatched zero (del_station ∷ es) = suc (unmatched zero es)
unmatched (suc n) (del_station ∷ es) = unmatched n es

at_count : ℕ → List ℕ → Ap
at_count n told = record { number_of_associated_stations = n; notified = told }

-- The counter behind a history.
abbrev pub count_of : List StationEvent → Ap → ℕ
count_of es a = (run es a).number_of_associated_stations

run-at_count :
    (es : List StationEvent) (n : ℕ) (told : List ℕ)
    → n + joined es < 2 ^ 31
    → count_of es (at_count n told) + left es ≡ n + joined es + unmatched n es
unfolding run on_station_event notify at_count
run-at_count [] n told h = omega arith
run-at_count (new_station ∷ es) n told h =
    let more : (n + 1) % 2 ^ 32 ≡ suc n = omega (arith, h) in
    rw (count_of, more)
      (omega (arith, run-at_count es (suc n) (told ++ (suc n ∷ [])) (omega (arith, h))))
run-at_count (del_station ∷ es) zero told h = omega (arith, run-at_count es 0 told h)
run-at_count (del_station ∷ es) (suc n) told h =
    let positive : is_positive (suc n) ≡ true = ground (arith, h) in
    let fewer : (suc n + (2 ^ 32 - 1)) % 2 ^ 32 ≡ n = omega (arith, h) in
    rw (count_of, positive, fewer)
      (omega (arith, run-at_count es n (told ++ (n ∷ [])) (omega (arith, h))))

-- Over every history with fewer than 2^31 joins, the counter and the leaves together are the joins
-- and the leaves that found no station.
pub run-new_ap_count :
    (es : List StationEvent)
    → joined es < 2 ^ 31
    → count_of es new_ap + left es ≡ joined es + unmatched 0 es
unfolding new_ap at_count
run-new_ap_count es h = omega (arith, run-at_count es 0 [] (omega (arith, h)))

notified-at_count :
    (e : StationEvent) (n : ℕ) (told : List ℕ)
    → ((on_station_event e (at_count n told)).number_of_associated_stations ≡ n
        → (on_station_event e (at_count n told)).notified ≡ told)
      × (¬ ((on_station_event e (at_count n told)).number_of_associated_stations ≡ n)
          → (on_station_event e (at_count n told)).notified
            ≡ told ++ ((on_station_event e (at_count n told)).number_of_associated_stations ∷ []))
unfolding on_station_event notify at_count
notified-at_count new_station n told = (λ e. absurd (omega (arith, e)), λ d. refl)
notified-at_count del_station zero told = (λ e. refl, λ d. absurd (d refl))
notified-at_count del_station (suc n) told = grind arith

-- A notification is sent exactly when the counter moves, and holds the new counter.
pub on_station_event-notified :
    (e : StationEvent) (a : Ap)
    → ((on_station_event e a).number_of_associated_stations ≡ a.number_of_associated_stations
        → (on_station_event e a).notified ≡ a.notified)
      × (¬ ((on_station_event e a).number_of_associated_stations ≡ a.number_of_associated_stations)
          → (on_station_event e a).notified
            ≡ a.notified ++ ((on_station_event e a).number_of_associated_stations ∷ []))
unfolding at_count
on_station_event-notified e a = notified-at_count e a.number_of_associated_stations a.notified

-- The calls of a sequence that stops behind the first one that fails, and whether all succeeded.
pub until_failure : (CleanUpCall → Bool) → List CleanUpCall → List CleanUpCall × Bool
until_failure answer [] = ([], true)
until_failure answer (c ∷ cs) =
    let rest = until_failure answer cs in if answer c then (c ∷ rest.0, rest.1) else (c ∷ [], false)

-- `StopHostapd` kills hostapd, takes the interface down and resets its mode, in this order, stops
-- behind the first call that fails, and succeeds when none does.
pub stop_hostapd-until_failure :
    (answer : CleanUpCall → Bool)
    → stop_hostapd answer ≡ until_failure answer (kill_hostapd ∷ interface_down ∷ station_mode ∷ [])
unfolding stop_hostapd until_failure
stop_hostapd-until_failure answer = ground arith
