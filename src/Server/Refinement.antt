-- ===== src/Server/Refinement.antt =====
-- Every call of the server is a step that the specification of its registry allows.
use platform_system_connecti.Base.{
  ℕ, ◌≡◌, refl, ◌∙◌, sym, subst, not, Option, Outcome, ok, Ends, Ends-bind, any, Ends-ok, Ends-if,
  Bool-cases, inl, inr, ◌>>=◌, find, text_key,
}
use platform_system_connecti.Wire.{Bytes}
use platform_system_connecti.Netlink.{has_handler}
use platform_system_connecti.NetlinkUtils.{Link, InterfaceInfo, get_wiphy_index, get_interfaces}
use platform_system_connecti.Server.{
  Server, new_server, register_callback, unregister_callback, setup_interface, add_ap, add_client,
  create_ap_interface, create_client_interface, tear_down_ap_interface, tear_down_client_interface,
  mark_down_all_interfaces, forget_all, tear_down_interfaces, Clearing,
}
use platform_system_connecti.Server.TornDown.{forget_all-farewells}
use platform_system_connecti.Server.Registry.{
  registry, Allowed, clears, NoDuplicates, NoDuplicates-append, NoDuplicates-erase_first,
  register-Allowed, unregister-Allowed, add_client-Allowed, add_ap-Allowed,
  tear_down_client-Allowed, tear_down_ap-Allowed, Request, adds, removes, asks_client, asks_ap,
  ends_client, ends_ap, ends_all, Reply, no_reply, created, success_is,
}
use platform_system_connecti.Server.Callbacks.{
  add_client-callbacks, add_ap-callbacks, tear_down_client-callbacks, tear_down_ap-callbacks,
}
use platform_system_connecti.Server.Offers.{Same, Offers, SetUp, setup-SetUp}

-- The calls of the server, with what the kernel answers and what variables hold at first.
pub data Call : Type 0 where
  registers_callback unregisters_callback : ℕ → Call
  creates_ap creates_client : Link → Bytes → Call
  tears_down_ap tears_down_client : Bytes → Call
  tears_down_all : Clearing → Link → ℕ → Call

unfoldable pub run_call : Call → Server → Outcome (Server × Reply)
run_call (registers_callback c) s = ok (register_callback c s, no_reply)
run_call (unregisters_callback c) s = ok (unregister_callback c s, no_reply)
run_call (creates_ap l name) s = create_ap_interface l name s >>= λ r. ok (r.0, created r.1)
run_call (creates_client l name) s = create_client_interface l name s >>= λ r. ok (r.0, created r.1)
run_call (tears_down_ap name) s =
    ok ((tear_down_ap_interface name s).0, success_is (tear_down_ap_interface name s).1)
run_call (tears_down_client name) s =
    ok ((tear_down_client_interface name s).0, success_is (tear_down_client_interface name s).1)
run_call (tears_down_all cleared l unset) s =
    tear_down_interfaces cleared l unset s >>= λ t. ok (t, no_reply)

-- The states the server comes to.
pub data Reaches : Server → Type 0 where
  starts : (unset : ℕ) → Reaches (new_server unset)
  goes_on :
      {s t : Server} {reply : Reply} (c : Call)
      → Reaches s
      → run_call c s ≡ ok (t, reply)
      → Reaches t

-- What a call asks of the registry: a request for an interface comes with what the kernel offers.
abbrev pub Asks : Call → Server → Request → Type 0
Asks (registers_callback c) s q = q ≡ adds c
Asks (unregisters_callback c) s q = q ≡ removes c
Asks (creates_ap l name) s q =
    (o : Option InterfaceInfo) × Offers l s.wiphy_index name o × (q ≡ asks_ap name o)
Asks (creates_client l name) s q =
    (o : Option InterfaceInfo) × Offers l s.wiphy_index name o × (q ≡ asks_client name o)
Asks (tears_down_ap name) s q = q ≡ ends_ap name
Asks (tears_down_client name) s q = q ≡ ends_client name
Asks (tears_down_all cleared l unset) s q = q ≡ ends_all

-- What each call keeps to: a step of the specification, and a list of callbacks without duplicates.
abbrev Keeps : Request → Server → Server × Reply → Type 0
Keeps q s r = Allowed q (registry s) (registry r.0) r.1 × NoDuplicates r.0.interface_event_callbacks

abbrev Steps : Call → Server → Server × Reply → Type 0
Steps c s r = (q : Request) × Asks c s q × Keeps q s r

from-Same : (q : Request) (s t : Server) (u : Server × Reply) → Same s t → Keeps q t u → Keeps q s u
from-Same q s t u (r, c) (a, d) = (subst (λ x. Allowed q x (registry u.0) u.1) r a, d)

register-Keeps :
    (c : ℕ) (s : Server)
    → NoDuplicates s.interface_event_callbacks
    → Keeps (adds c) s (register_callback c s, no_reply)
register-Keeps c s h = (
  register-Allowed c s,
  unfold register_callback in
      (elim (Bool-cases (has_handler c s.interface_event_callbacks)) [
        | inl e ↦ rw e h
        | inr e ↦ rw e (NoDuplicates-append c s.interface_event_callbacks e h)
      ]),
)

kept :
    (s t : Server)
    → NoDuplicates s.interface_event_callbacks
    → t.interface_event_callbacks ≡ s.interface_event_callbacks
    → NoDuplicates t.interface_event_callbacks
kept s t h e = subst NoDuplicates (sym e) h

forget_all-Keeps :
    (cleared : Clearing) (s : Server)
    → NoDuplicates s.interface_event_callbacks
    → Keeps ends_all s (forget_all cleared s, no_reply)
unfolding registry find
forget_all-Keeps cleared s h = rw (forget_all-farewells cleared s) (clears refl, h)

tear_down_all-Keeps :
    (cleared : Clearing) (l : Link) (unset : ℕ) (s : Server)
    → NoDuplicates s.interface_event_callbacks
    → Ends (λ t. Keeps ends_all s (t, no_reply)) (tear_down_interfaces cleared l unset s)
unfolding tear_down_interfaces mark_down_all_interfaces registry
tear_down_all-Keeps cleared l unset s h =
    let u = forget_all cleared s in
    let q = forget_all-Keeps cleared s h in
    Ends-bind (λ t. Keeps ends_all s (t, no_reply)) _ (mark_down_all_interfaces l unset u) _
      (Ends-bind _ _ (get_wiphy_index l unset) _ (any _) (λ r k.
        Ends-if _ (not r.1) _ _ q (Ends-bind _ _ (get_interfaces l r.0) _ (any _) (λ i m. q))))
      (λ t k. k)

create_ap-Steps :
    (l : Link) (name : Bytes) (s : Server)
    → NoDuplicates s.interface_event_callbacks
    → Ends (λ r. Steps (creates_ap l name) s (r.0, created r.1)) (create_ap_interface l name s)
unfolding create_ap_interface
create_ap-Steps l name s h =
    Ends-bind (SetUp l name s)
      (λ (r : Server × Option ℕ). Steps (creates_ap l name) s (r.0, created r.1))
      (setup_interface l name s) _ (setup-SetUp l name s)
      (λ r k.
        let t = add_ap name r.1 r.0 in
        (
          asks_ap name r.1,
          (r.1, k.1, refl),
          from-Same (asks_ap name r.1) s r.0 (t.0, created t.1) k.0
              (add_ap-Allowed name r.1 r.0, kept s t.0 h (add_ap-callbacks name r.1 r.0 ∙ k.0.1)),
        ))

create_client-Steps :
    (l : Link) (name : Bytes) (s : Server)
    → NoDuplicates s.interface_event_callbacks
    → Ends
        (λ r. Steps (creates_client l name) s (r.0, created r.1))
        (create_client_interface l name s)
unfolding create_client_interface
create_client-Steps l name s h =
    Ends-bind (SetUp l name s)
      (λ (r : Server × Option ℕ). Steps (creates_client l name) s (r.0, created r.1))
      (setup_interface l name s) _ (setup-SetUp l name s)
      (λ r k.
        let t = add_client name r.1 r.0 in
        (
          asks_client name r.1,
          (r.1, k.1, refl),
          from-Same (asks_client name r.1) s r.0 (t.0, created t.1) k.0
              (
                add_client-Allowed name r.1 r.0,
                kept s t.0 h (add_client-callbacks name r.1 r.0 ∙ k.0.1),
              ),
        ))

run_call-Steps :
    (c : Call) (s : Server)
    → NoDuplicates s.interface_event_callbacks
    → Ends (Steps c s) (run_call c s)
unfolding run_call
run_call-Steps (registers_callback c) s h = (adds c, refl, register-Keeps c s h)
run_call-Steps (unregisters_callback c) s h = (
  removes c,
  refl,
  (
    unregister-Allowed c s h,
    unfold unregister_callback in NoDuplicates-erase_first c s.interface_event_callbacks h,
  ),
)
run_call-Steps (creates_ap l name) s h =
    Ends-bind (λ r. Steps (creates_ap l name) s (r.0, created r.1)) (Steps (creates_ap l name) s)
      (create_ap_interface l name s) _ (create_ap-Steps l name s h) (λ r k. k)
run_call-Steps (creates_client l name) s h =
    Ends-bind (λ r. Steps (creates_client l name) s (r.0, created r.1))
      (Steps (creates_client l name) s) (create_client_interface l name s) _
      (create_client-Steps l name s h) (λ r k. k)
run_call-Steps (tears_down_ap name) s h = (
  ends_ap name,
  refl,
  (
    tear_down_ap-Allowed name s,
    kept s (tear_down_ap_interface name s).0 h (tear_down_ap-callbacks name s),
  ),
)
run_call-Steps (tears_down_client name) s h = (
  ends_client name,
  refl,
  (
    tear_down_client-Allowed name s,
    kept s (tear_down_client_interface name s).0 h (tear_down_client-callbacks name s),
  ),
)
run_call-Steps (tears_down_all cleared l unset) s h =
    Ends-bind (λ t. Keeps ends_all s (t, no_reply)) (Steps (tears_down_all cleared l unset) s)
      (tear_down_interfaces cleared l unset s) _ (tear_down_all-Keeps cleared l unset s h)
      (λ t k. (ends_all, refl, k))

pub Reaches-NoDuplicates : (s : Server) → Reaches s → NoDuplicates s.interface_event_callbacks
unfolding new_server
Reaches-NoDuplicates s (starts unset) = tt
Reaches-NoDuplicates s (goes_on c before e) =
    let r = Ends-ok (Steps c _) _ (s, _) (run_call-Steps c _ (Reaches-NoDuplicates _ before)) e in
    r.2.1

-- From every state that the server comes to, a call that returns is a step that the specification of
-- the registry allows, with the reply that it demands. Registering adds one callback to a set that
-- lacks it, and unregistering removes one. Making an interface sets the object of its name to the next
-- new one, for a kernel interface that may be taken for the name, and gives the caller that object;
-- it changes nothing and gives none just where the kernel gives no wiphy or no list, or the list has
-- neither the name nor a usable interface. Tearing one down leaves its name without an object and
-- succeeds where there is one, and else changes nothing and fails. Tearing down all leaves no object.
-- Nothing else of the registry changes.
pub run_call-Allowed :
    (c : Call) (s t : Server) (reply : Reply)
    → Reaches s
    → run_call c s ≡ ok (t, reply)
    → (q : Request) × Asks c s q × Allowed q (registry s) (registry t) reply
run_call-Allowed c s t reply reached e =
    let r =
      Ends-ok (Steps c s) (run_call c s) (t, reply)
        (run_call-Steps c s (Reaches-NoDuplicates s reached)) e in
    (r.0, r.1, r.2.0)
