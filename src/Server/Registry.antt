-- ===== src/Server/Registry.antt =====
-- What the server promises of its interfaces and callbacks, whatever the order it keeps them in.
use platform_system_connecti.Base.{
  ℕ, suc, ◌≡◌, refl, ap, fun_ext, Bool, true, false, not, ◌&&◌, ◌||◌, Option, none, some, List, [],
  ◌∷◌, ◌++◌, ◌==◌, if◌then◌else◌, same_text, text_key, find, put, remove, find-put, find-remove,
  arith, Bool-cases, Option-cases, inl, inr,
}
use platform_system_connecti.Wire.{Bytes}
use platform_system_connecti.Netlink.{has_handler}
use platform_system_connecti.NetlinkUtils.{InterfaceInfo}
use platform_system_connecti.Server.{
  Interface, Server, register_callback, erase_first, unregister_callback, add_ap, add_client,
  tear_down_ap_interface, tear_down_client_interface,
}

-- The abstract state: the object of each name with its kernel interface, the set of callbacks, and the
-- next object.
pub record Registry : Type 0 where
  pub client : Bytes → Option Interface
  pub ap : Bytes → Option Interface
  pub callback : ℕ → Bool
  pub next : ℕ

unfoldable pub registry : Server → Registry
registry s = record {
  client = λ n. find n s.client_interfaces;
  ap = λ n. find n s.ap_interfaces;
  callback = λ c. has_handler c s.interface_event_callbacks;
  next = s.next_binder;
}

-- A map with one entry set.
abbrev pub updated :
    (Bytes → Option Interface) → Bytes → Option Interface → Bytes → Option Interface
updated f name value n = if same_text n name then value else f n

-- What a caller asks for; a request for an interface comes with what the kernel has for the name.
pub data Request : Type 0 where
  adds removes : ℕ → Request
  asks_client asks_ap : Bytes → Option InterfaceInfo → Request
  ends_client ends_ap : Bytes → Request
  ends_all : Request

-- What the caller gets: nothing, the binder object of a new interface or none, or a success.
pub data Reply : Type 0 where
  no_reply : Reply
  created : Option ℕ → Reply
  success_is : Bool → Reply

-- The steps that the specification allows on a request, and the reply to it.
pub data Allowed : Request → Registry → Registry → Reply → Type 0 where
  registers :
      {r t : Registry} (c : ℕ)
      → r.callback c ≡ false
      → t ≡ record r { callback = λ d. (d == c) || r.callback d }
      → Allowed (adds c) r t no_reply
  registered_before :
      {r t : Registry} (c : ℕ) → r.callback c ≡ true → t ≡ r → Allowed (adds c) r t no_reply
  unregisters :
      {r t : Registry} (c : ℕ)
      → t ≡ record r { callback = λ d. not (d == c) && r.callback d }
      → Allowed (removes c) r t no_reply
  makes_client :
      {r t : Registry} (name : Bytes) (i : InterfaceInfo)
      → t ≡ record r {
        client = updated r.client name (some (record { binder = r.next; info = i }));
        next = suc r.next;
      }
      → Allowed (asks_client name (some i)) r t (created (some r.next))
  no_client :
      {r t : Registry} (name : Bytes) → t ≡ r → Allowed (asks_client name none) r t (created none)
  makes_ap :
      {r t : Registry} (name : Bytes) (i : InterfaceInfo)
      → t ≡ record r {
        ap = updated r.ap name (some (record { binder = r.next; info = i }));
        next = suc r.next;
      }
      → Allowed (asks_ap name (some i)) r t (created (some r.next))
  no_ap : {r t : Registry} (name : Bytes) → t ≡ r → Allowed (asks_ap name none) r t (created none)
  drops_client :
      {r t : Registry} (name : Bytes) (i : Interface)
      → r.client name ≡ some i
      → t ≡ record r { client = updated r.client name none }
      → Allowed (ends_client name) r t (success_is true)
  unknown_client :
      {r t : Registry} (name : Bytes)
      → r.client name ≡ none
      → t ≡ r
      → Allowed (ends_client name) r t (success_is false)
  drops_ap :
      {r t : Registry} (name : Bytes) (i : Interface)
      → r.ap name ≡ some i
      → t ≡ record r { ap = updated r.ap name none }
      → Allowed (ends_ap name) r t (success_is true)
  unknown_ap :
      {r t : Registry} (name : Bytes)
      → r.ap name ≡ none
      → t ≡ r
      → Allowed (ends_ap name) r t (success_is false)
  clears :
      {r t : Registry}
      → t ≡ record r { client = λ n. none; ap = λ n. none }
      → Allowed ends_all r t no_reply

-- A callback stands in the list once.
abbrev pub NoDuplicates : List ℕ → Type 0
NoDuplicates [] = Unit {0}
NoDuplicates (k ∷ ks) = (has_handler k ks ≡ false) × NoDuplicates ks

has_handler-append :
    (d c : ℕ) (ks : List ℕ) → has_handler d (ks ++ (c ∷ [])) ≡ ((d == c) || has_handler d ks)
has_handler-append d c [] = ground arith
has_handler-append d c (k ∷ ks) = ground (arith, has_handler-append d c ks)

has_handler-erase_first :
    (d c : ℕ) (ks : List ℕ)
    → NoDuplicates ks
    → has_handler d (erase_first c ks) ≡ (not (d == c) && has_handler d ks)
unfolding erase_first
has_handler-erase_first d c [] h = ground arith
has_handler-erase_first d c (k ∷ ks) (fresh, h) =
    ground (arith, has_handler-erase_first d c ks h, fresh)

pub NoDuplicates-append :
    (c : ℕ) (ks : List ℕ)
    → has_handler c ks ≡ false
    → NoDuplicates ks
    → NoDuplicates (ks ++ (c ∷ []))
NoDuplicates-append c [] e h = (refl, tt)
NoDuplicates-append c (k ∷ ks) e (fresh, h) =
    (ground (arith, has_handler-append k c ks), NoDuplicates-append c ks (ground arith) h)

pub NoDuplicates-erase_first :
    (c : ℕ) (ks : List ℕ) → NoDuplicates ks → NoDuplicates (erase_first c ks)
unfolding erase_first
NoDuplicates-erase_first c [] h = tt
NoDuplicates-erase_first c (k ∷ ks) (fresh, h) = elim (Bool-cases (c == k)) [
  | inl same ↦ rw same h
  | inr other ↦
      rw other (ground (arith, has_handler-erase_first k c ks h), NoDuplicates-erase_first c ks h)
]

-- The maps, as the specification sees them.
updated-put :
    (name : Bytes) (i : Interface) (m : List (Bytes × Interface))
    → ◌≡◌ {A = Bytes → Option Interface}
        (λ n. find n (put name i m))
        (updated (λ n. find n m) name (some i))
updated-put name i m = fun_ext (λ n. find-put n name i m)

updated-remove :
    (name : Bytes) (m : List (Bytes × Interface))
    → ◌≡◌ {A = Bytes → Option Interface}
        (λ n. find n (remove name m))
        (updated (λ n. find n m) name none)
updated-remove name m = fun_ext (λ n. find-remove n name m)

pub register-Allowed :
    (c : ℕ) (s : Server) → Allowed (adds c) (registry s) (registry (register_callback c s)) no_reply
unfolding register_callback registry
register-Allowed c s = elim (Bool-cases (has_handler c s.interface_event_callbacks)) [
  | inl old ↦ rw old (registered_before c old refl)
  | inr new ↦ rw new (
      registers c new (
        ap (λ (f : ℕ → Bool). record (registry s) { callback = f })
          (fun_ext (λ d. has_handler-append d c s.interface_event_callbacks))))
]

pub unregister-Allowed :
    (c : ℕ) (s : Server)
    → NoDuplicates s.interface_event_callbacks
    → Allowed (removes c) (registry s) (registry (unregister_callback c s)) no_reply
unfolding unregister_callback registry
unregister-Allowed c s h = unregisters c (
    ap (λ (f : ℕ → Bool). record (registry s) { callback = f })
      (fun_ext (λ d. has_handler-erase_first d c s.interface_event_callbacks h)))

pub add_client-Allowed :
    (name : Bytes) (o : Option InterfaceInfo) (s : Server)
    → Allowed
        (asks_client name o)
        (registry s)
        (registry (add_client name o s).0)
        (created (add_client name o s).1)
unfolding add_client registry
add_client-Allowed name none s = no_client name refl
add_client-Allowed name (some i) s = makes_client name i (
    ap
      (λ (f : Bytes → Option Interface). record (registry s) {
        client = f;
        next = suc s.next_binder;
      })
      (updated-put name (record { binder = s.next_binder; info = i }) s.client_interfaces))

pub add_ap-Allowed :
    (name : Bytes) (o : Option InterfaceInfo) (s : Server)
    → Allowed
        (asks_ap name o)
        (registry s)
        (registry (add_ap name o s).0)
        (created (add_ap name o s).1)
unfolding add_ap registry
add_ap-Allowed name none s = no_ap name refl
add_ap-Allowed name (some i) s = makes_ap name i (
    ap (λ (f : Bytes → Option Interface). record (registry s) { ap = f; next = suc s.next_binder })
      (updated-put name (record { binder = s.next_binder; info = i }) s.ap_interfaces))

pub tear_down_client-Allowed :
    (name : Bytes) (s : Server)
    → Allowed
        (ends_client name)
        (registry s)
        (registry (tear_down_client_interface name s).0)
        (success_is (tear_down_client_interface name s).1)
unfolding tear_down_client_interface registry
tear_down_client-Allowed name s = elim (Option-cases (find name s.client_interfaces)) [
  | inl e ↦ rw (e, tear_down_client_interface) (unknown_client name e refl)
  | inr (i, e) ↦
      rw (e, tear_down_client_interface)
        (drops_client name i e (
          ap (λ (f : Bytes → Option Interface). record (registry s) { client = f })
            (updated-remove name s.client_interfaces)))
]

pub tear_down_ap-Allowed :
    (name : Bytes) (s : Server)
    → Allowed
        (ends_ap name)
        (registry s)
        (registry (tear_down_ap_interface name s).0)
        (success_is (tear_down_ap_interface name s).1)
unfolding tear_down_ap_interface registry
tear_down_ap-Allowed name s = elim (Option-cases (find name s.ap_interfaces)) [
  | inl e ↦ rw (e, tear_down_ap_interface) (unknown_ap name e refl)
  | inr (i, e) ↦
      rw (e, tear_down_ap_interface)
        (drops_ap name i e (
          ap (λ (f : Bytes → Option Interface). record (registry s) { ap = f })
            (updated-remove name s.ap_interfaces)))
]
