-- ===== src/Ap.antt =====
-- ap_interface_impl.cpp: the station counter of an access point, its notifications, and the
-- clean-up after hostapd. The counter is the 32-bit word of an `int`; counting past its bounds, which
-- the language leaves undefined, wraps.
pub mod Stations
use platform_system_connecti.Base.{
  ℕ, ◌+◌, ◌-◌, Bool, true, false, not, List, [], ◌∷◌, ◌++◌, leb, if◌then◌else◌, ltb, ◌==◌, ◌%◌, ◌^◌,
  ◌&&◌,
}
use platform_system_connecti.Wire.{Bytes}

-- `StationEvent`.
pub data StationEvent : Type 0 where
  new_station del_station : StationEvent

-- `> 0` on an `int`.
abbrev pub is_positive : ℕ → Bool
is_positive n = not (n == 0) && ltb n (2 ^ 31)

-- `notified` holds what `NotifyNumAssociatedStationsChanged` was told, the latest last.
pub record Ap : Type 0 where
  pub number_of_associated_stations : ℕ
  pub notified : List ℕ

unfoldable pub new_ap : Ap
new_ap = record { number_of_associated_stations = 0; notified = [] }

notify : Ap → ℕ → Ap
notify ap n = record ap { number_of_associated_stations = n; notified = ap.notified ++ (n ∷ []) }

unfoldable pub on_station_event : StationEvent → Ap → Ap
unfolding notify
on_station_event new_station ap = notify ap ((ap.number_of_associated_stations + 1) % 2 ^ 32)
on_station_event del_station ap =
    if is_positive ap.number_of_associated_stations
    then notify ap ((ap.number_of_associated_stations + (2 ^ 32 - 1)) % 2 ^ 32)
    else ap

-- The calls of `StopHostapd`, and what they answer.
pub data CleanUpCall : Type 0 where
  kill_hostapd interface_down station_mode : CleanUpCall

unfoldable pub stop_hostapd : (CleanUpCall → Bool) → List CleanUpCall × Bool
stop_hostapd answer =
    if not (answer kill_hostapd)
    then (kill_hostapd ∷ [], false)
    else if not (answer interface_down)
    then (kill_hostapd ∷ interface_down ∷ [], false)
    else if not (answer station_mode)
    then (kill_hostapd ∷ interface_down ∷ station_mode ∷ [], false)
    else (kill_hostapd ∷ interface_down ∷ station_mode ∷ [], true)
