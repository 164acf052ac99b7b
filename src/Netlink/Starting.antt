-- ===== src/Netlink/Starting.antt =====
-- When the manager counts as started.
use platform_system_connecti.Base.{
  ℕ, ◌≡◌, refl, Bool, true, false, not, Option, none, some, List, if◌then◌else◌, Ends, Ends-bind,
  Ends-cases, find, text_key, arith, any,
}
use platform_system_connecti.Wire.{Bytes}
use platform_system_connecti.Netlink.Family.{
  SystemCall, Manager, make, and_then, join, group_id, subscribe_to_events, setup_sync_socket,
  setup_async_socket, watch_socket, discover_family_id, watch_and_join, start, multicast_group_reg,
  multicast_group_scan, multicast_group_mlme, genl_name,
}

-- Not started, whether the step succeeded or not.
abbrev Quiet : Manager × Bool → Type 0
Quiet r = r.0.started ≡ false

and_then-Quiet :
    (r : Manager × Bool) (next : Manager → Manager × Bool)
    → Quiet r
    → ((m : Manager) → m.started ≡ false → Quiet (next m))
    → Quiet (and_then r next)
and_then-Quiet (m, true) next q h = h m q
and_then-Quiet (m, false) next q h = q

join-Quiet :
    (answer : SystemCall → Bool) (o : Option ℕ) (m : Manager)
    → m.started ≡ false
    → Quiet (join answer o m)
join-Quiet answer none m q = q
join-Quiet answer (some id) m q = q

-- The last step counts exactly where all steps before it succeeded.
finished :
    (r : Manager × Bool)
    → Quiet r
    → (let e = and_then r (λ m. (record m { started = true }, true)) in e.0.started ≡ e.1)
finished (m, true) q = refl
finished (m, false) q = q

watch_and_join-started :
    (answer : SystemCall → Bool) (m : Manager)
    → m.started ≡ false
    → (let e = watch_and_join answer m in e.0.started ≡ e.1)
unfolding watch_and_join subscribe_to_events
watch_and_join-started answer m q =
    let watched = make answer watch_socket m in
    let step = subscribe_to_events answer in
    let joins : (g : Bytes) (m : Manager) → m.started ≡ false → Quiet (step g m) =
      λ g m h. join-Quiet answer (group_id g (find genl_name m.message_types)) m h in
    let reg = and_then watched (step multicast_group_reg) in
    let scan = and_then reg (step multicast_group_scan) in
    let mlme = and_then scan (step multicast_group_mlme) in
    finished mlme (
      and_then-Quiet scan (step multicast_group_mlme)
        (and_then-Quiet reg (step multicast_group_scan)
          (and_then-Quiet watched (step multicast_group_reg) q (joins multicast_group_reg))
          (joins multicast_group_scan))
        (joins multicast_group_mlme))

if_found :
    (answer : SystemCall → Bool) (found : Bool) (m : Manager)
    → m.started ≡ false
    → (let e = (if found then watch_and_join answer m else (m, false)) in e.0.started ≡ e.1)
if_found answer true m q = watch_and_join-started answer m q
if_found answer false m q = q

-- However the start of the manager goes, once it has returned the manager counts as started exactly
-- where the start succeeded.
pub start-started :
    (answer : SystemCall → Bool) (response : Option (List Bytes)) (m : Manager)
    → Ends (λ r. r.0.started ≡ r.1) (start answer response m)
unfolding start
start-started answer response m =
    let P : Manager × Bool → Type 0 = λ r. r.0.started ≡ r.1 in
    let sockets = and_then (make answer setup_sync_socket m) (make answer setup_async_socket) in
    Ends-cases P m.started _ _ (λ old. old)
      (λ new.
        let q =
          and_then-Quiet (make answer setup_sync_socket m) (make answer setup_async_socket) new
            (λ m h. h) in
        Ends-cases P (not sockets.1) _ _ (λ e. ground (arith, q, e))
          (λ e.
            Ends-bind _ P (discover_family_id response sockets.0.message_types) _ (any _)
              (λ r h. if_found answer r.1 (record sockets.0 { message_types = r.0 }) q)))
