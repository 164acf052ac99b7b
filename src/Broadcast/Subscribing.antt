-- ===== src/Broadcast/Subscribing.antt =====
-- net/netlink_manager.cpp, and the functions of net/netlink_utils.cpp and scanning/scan_utils.cpp that
-- pass these calls on: the maps of handlers, by their keys.
use platform_system_connecti.Base.{
  ℕ, ◌≡◌, not, ◌&&◌, ◌||◌, List, [], ◌∷◌, ◌==◌, if◌then◌else◌, arith, Bool-cases, inl, inr,
}
use platform_system_connecti.Netlink.{has_handler, erase}
use platform_system_connecti.Broadcast.{Subscriptions}

-- `handlers[key] = handler`.
unfoldable pub set_key : ℕ → List ℕ → List ℕ
set_key key keys = if has_handler key keys then keys else key ∷ keys

unfoldable pub subscribe_scan_result_notification : ℕ → Subscriptions → Subscriptions
unfolding set_key
subscribe_scan_result_notification key s = record s {
  on_scan_result_ready = set_key key s.on_scan_result_ready;
}

unfoldable pub unsubscribe_scan_result_notification : ℕ → Subscriptions → Subscriptions
unsubscribe_scan_result_notification key s = record s {
  on_scan_result_ready = erase key s.on_scan_result_ready;
}

unfoldable pub subscribe_sched_scan_result_notification : ℕ → Subscriptions → Subscriptions
unfolding set_key
subscribe_sched_scan_result_notification key s = record s {
  on_sched_scan_result_ready = set_key key s.on_sched_scan_result_ready;
}

unfoldable pub unsubscribe_sched_scan_result_notification : ℕ → Subscriptions → Subscriptions
unsubscribe_sched_scan_result_notification key s = record s {
  on_sched_scan_result_ready = erase key s.on_sched_scan_result_ready;
}

unfoldable pub subscribe_mlme_event : ℕ → Subscriptions → Subscriptions
unfolding set_key
subscribe_mlme_event key s = record s { on_mlme_event = set_key key s.on_mlme_event }

unfoldable pub unsubscribe_mlme_event : ℕ → Subscriptions → Subscriptions
unsubscribe_mlme_event key s = record s { on_mlme_event = erase key s.on_mlme_event }

unfoldable pub subscribe_reg_domain_change : ℕ → Subscriptions → Subscriptions
unfolding set_key
subscribe_reg_domain_change key s = record s {
  on_reg_domain_changed = set_key key s.on_reg_domain_changed;
}

unfoldable pub unsubscribe_reg_domain_change : ℕ → Subscriptions → Subscriptions
unsubscribe_reg_domain_change key s = record s {
  on_reg_domain_changed = erase key s.on_reg_domain_changed;
}

unfoldable pub subscribe_station_event : ℕ → Subscriptions → Subscriptions
unfolding set_key
subscribe_station_event key s = record s { on_station_event = set_key key s.on_station_event }

unfoldable pub unsubscribe_station_event : ℕ → Subscriptions → Subscriptions
unsubscribe_station_event key s = record s { on_station_event = erase key s.on_station_event }

unfoldable pub subscribe_channel_switch_event : ℕ → Subscriptions → Subscriptions
unfolding set_key
subscribe_channel_switch_event key s = record s {
  on_channel_switch_event = set_key key s.on_channel_switch_event;
}

unfoldable pub unsubscribe_channel_switch_event : ℕ → Subscriptions → Subscriptions
unsubscribe_channel_switch_event key s = record s {
  on_channel_switch_event = erase key s.on_channel_switch_event;
}

-- A key that is set is there, and an erased one is not; all others are as they were.
pub has_handler-set_key :
    (j key : ℕ) (keys : List ℕ)
    → has_handler j (set_key key keys) ≡ ((key == j) || has_handler j keys)
unfolding set_key
has_handler-set_key j key keys = elim (Bool-cases (has_handler key keys)) [
  | inl old ↦ rw old (ground (arith, old))
  | inr new ↦ rw new
]

pub has_handler-erase :
    (j key : ℕ) (keys : List ℕ)
    → has_handler j (erase key keys) ≡ (not (key == j) && has_handler j keys)
has_handler-erase j key [] = ground arith
has_handler-erase j key (k ∷ keys) = ground (arith, has_handler-erase j key keys)
