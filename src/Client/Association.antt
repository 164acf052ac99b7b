-- ===== src/Client/Association.antt =====
-- The association state over a history of MLME events.
use platform_system_connecti.Base.{
  Option-cases, ℕ, ◌/◌, ◌≡◌, ◌↔◌, refl, sym, ap, Bool-cases, Bool, true, false, not, ◌&&◌, Option,
  none, some, List, [], ◌∷◌, ◌==◌, if◌then◌else◌, length, arith, inl, inr, sign_extend,
}
use platform_system_connecti.Wire.{Bytes}
use platform_system_connecti.Mlme.{ConnectEvent, CommonFields}
use platform_system_connecti.Client.{
  Client, AssociationResult, new_client, refresh_loop, on_connect, on_associate, on_roam,
  on_disconnect, on_disassociate, StationInfo, signal_poll, ToolCall, wifi_down, wifi_up, set_mac,
  set_mac_address,
}

-- The events of `MlmeEventHandler`, with the scan results that the kernel holds at the time.
pub data Event : Type 0 where
  connected associated : Option (List AssociationResult) → ConnectEvent → Event
  roamed : Option (List AssociationResult) → CommonFields → Event
  disconnected disassociated : CommonFields → Event

pub handle : Event → Client → Client
handle (connected scan e) c = on_connect scan e c
handle (associated scan e) c = on_associate scan e c
handle (roamed scan e) c = on_roam scan e c
handle (disconnected e) c = on_disconnect e c
handle (disassociated e) c = on_disassociate e c

pub run : List Event → Client → Client
run [] c = c
run (e ∷ es) c = run es (handle e c)

-- The address that an event leaves the interface associated with, if it does.
abbrev pub joins : Event → Option Bytes
joins (connected scan e) =
    if not e.is_timeout && e.status_code == 0 then some e.common.bssid else none
joins (associated scan e) =
    if not e.is_timeout && e.status_code == 0 then some e.common.bssid else none
joins (roamed scan e) = some e.bssid
joins (disconnected e) = none
joins (disassociated e) = none

abbrev pub last_join : Option Bytes → List Event → Option Bytes
last_join j [] = j
last_join j (e ∷ es) = last_join (joins e) es

-- The interface is associated with the address, or with none.
abbrev pub Tracks : Option Bytes → Client → Type 0
Tracks none c = (c.is_associated ≡ false) × (c.bssid ≡ [])
Tracks (some b) c = (c.is_associated ≡ true) × (c.bssid ≡ b)

handle-Tracks : (e : Event) (c : Client) → Tracks (joins e) (handle e c)
unfolding handle on_connect on_associate on_roam on_disconnect on_disassociate
handle-Tracks (connected (some scan) e) c = ground arith
handle-Tracks (connected none e) c = ground arith
handle-Tracks (associated (some scan) e) c = ground arith
handle-Tracks (associated none e) c = ground arith
handle-Tracks (roamed (some scan) e) c = ground arith
handle-Tracks (roamed none e) c = ground arith
handle-Tracks (disconnected e) c = ground arith
handle-Tracks (disassociated e) c = ground arith

run-Tracks :
    (es : List Event) (j : Option Bytes) (c : Client)
    → Tracks j c
    → Tracks (last_join j es) (run es c)
unfolding run
run-Tracks [] j c h = h
run-Tracks (e ∷ es) j c h = run-Tracks es (joins e) (handle e c) (handle-Tracks e c)

-- After any history the interface is associated exactly as the last event left it: with that
-- event's address, or not at all and with the address cleared.
pub run-new_client :
    (freq : ℕ) (es : List Event) → Tracks (last_join none es) (run es (new_client freq))
unfolding new_client
run-new_client freq es = run-Tracks es none (new_client freq) (refl, refl)

abbrev pub number_or : Option ℕ → ℕ → ℕ
number_or none d = d
number_or (some n) d = n

abbrev pub results : Option (List AssociationResult) → List AssociationResult
results none = []
results (some rs) = rs

-- The frequency of the last associated scan result.
abbrev pub last_associated : Option ℕ → List AssociationResult → Option ℕ
last_associated f [] = f
last_associated f (r ∷ rs) = last_associated (if r.associated then some r.frequency else f) rs

refresh_loop_lem :
    (f : Option ℕ) (freq : ℕ) (rs : List AssociationResult)
    → refresh_loop (number_or f freq) rs ≡ number_or (last_associated f rs) freq
unfolding refresh_loop
refresh_loop_lem f freq [] = refl
refresh_loop_lem f freq (r ∷ rs) = elim (Bool-cases r.associated) [
  | inl y ↦ rw y (refresh_loop_lem (some r.frequency) freq rs)
  | inr n ↦ rw n (refresh_loop_lem f freq rs)
]

-- A successful connection takes the frequency of the last associated scan result, and keeps the
-- old one where there is none or the results cannot be read.
pub on_connect_frequency :
    (scan : Option (List AssociationResult)) (e : ConnectEvent) (c : Client)
    → (on_connect scan e c).associate_freq ≡ (
        if not e.is_timeout && e.status_code == 0
        then number_or (last_associated none (results scan)) c.associate_freq
        else c.associate_freq)
unfolding on_connect
on_connect_frequency none e c = ground arith
on_connect_frequency (some rs) e c = ground (arith, refresh_loop_lem none c.associate_freq rs)

-- A poll needs an association and an answer of the kernel for the current address. It reports the
-- RSSI as a signed number, the rate in Mbit/s and the frequency.
pub signal_poll_lem :
    (station : Bytes → Option StationInfo) (c : Client) (out : List ℕ)
    → (signal_poll station c ≡ some out) ↔ (
        (c.is_associated ≡ true)
        × (info : StationInfo) × (station c.bssid ≡ some info)
        × (out
            ≡ sign_extend info.current_rssi ∷ info.station_tx_bitrate / 10 ∷ c.associate_freq ∷ []))
unfolding signal_poll
signal_poll_lem station c out = (λ h. polled h, λ (a, i, s, e). rw (a, s) (ap some (sym e)))
  where
    polled :
        signal_poll station c ≡ some out
        → (c.is_associated ≡ true)
          × (info : StationInfo) × (station c.bssid ≡ some info)
          × (out
              ≡ sign_extend info.current_rssi
                ∷ info.station_tx_bitrate / 10
                ∷ c.associate_freq
                ∷ [])
    polled h = elim (Option-cases (station c.bssid)) [
      | inl e ↦ absurd (ground arith)
      | inr (info, e) ↦ (ground arith, info, e, ground arith)
    ]

-- The address is set exactly if it has six bytes and the tool does all three steps.
pub set_mac_address_lem :
    (tool : ToolCall → Bool) (mac : Bytes)
    → ((set_mac_address tool mac).1 ≡ true) ↔ (
        (length mac ≡ 6)
        × (tool wifi_down ≡ true)
        × (tool (set_mac mac) ≡ true)
        × (tool wifi_up ≡ true))
unfolding set_mac_address
set_mac_address_lem tool mac = ground arith

-- Once the interface is down for an address of six bytes, the tool is asked to set the address, and
-- to switch the interface on only if that worked.
pub set_mac_address_calls :
    (tool : ToolCall → Bool) (mac : Bytes)
    → length mac ≡ 6
    → tool wifi_down ≡ true
    → (set_mac_address tool mac).0 ≡ (
        if tool (set_mac mac)
        then wifi_down ∷ set_mac mac ∷ wifi_up ∷ []
        else wifi_down ∷ set_mac mac ∷ [])
unfolding set_mac_address
set_mac_address_calls tool mac h d = ground arith
