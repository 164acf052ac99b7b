-- ===== src/Server/Shared.antt =====
-- server.cpp: the fallback of `SetupInterface` gives one kernel interface to several names.
use platform_system_connecti.Base.{
  ◌≡◌, refl, ◌∙◌, suc, true, false, Option, none, some, List, [], ◌∷◌, ◌++◌, if◌then◌else◌,
  same_text, text_key, find, find-put, same_text_iff,
}
use platform_system_connecti.Wire.{Bytes}
use platform_system_connecti.NetlinkUtils.{InterfaceInfo}
use platform_system_connecti.Server.{Server, add_client}
use platform_system_connecti.Server.Usable.{
  Barred, AllBarred, not_Barred-is_usable, AllBarred-NoneOf,
}
use platform_system_connecti.Server.Interfaces.{
  is_usable, find_named, find_usable, choose_interface, NoneOf, is_named,
}

find_named-missing :
    (name : Bytes) (infos : List InterfaceInfo)
    → NoneOf (is_named name) infos
    → find_named name infos ≡ none
unfolding find_named
find_named-missing name [] h = refl
find_named-missing name (i ∷ infos) (e, h) = rw e (find_named-missing name infos h)

unnamed : (o p : Option InterfaceInfo) → o ≡ none → elim o [ some i ↦ some i | none ↦ p ] ≡ p
unnamed none p e = refl
unnamed (some i) p e = absurd (cc)

choose_interface-missing :
    (name : Bytes) (infos : List InterfaceInfo)
    → NoneOf (is_named name) infos
    → choose_interface name infos ≡ find_usable infos
unfolding choose_interface
choose_interface-missing name infos h =
    unnamed (find_named name infos) (find_usable infos) (find_named-missing name infos h)

find_usable-behind :
    (front after : List InterfaceInfo) (i : InterfaceInfo)
    → NoneOf (λ j. is_usable j.name) front
    → is_usable i.name ≡ true
    → find_usable (front ++ (i ∷ after)) ≡ some i
unfolding find_usable
find_usable-behind [] after i h e = rw e
find_usable-behind (j ∷ front) after i (k, h) e = rw k (find_usable-behind front after i h e)

choose_interface-fallback :
    (name : Bytes) (front after : List InterfaceInfo) (i : InterfaceInfo)
    → NoneOf (is_named name) (front ++ (i ∷ after))
    → AllBarred front
    → ¬ Barred i.name
    → choose_interface name (front ++ (i ∷ after)) ≡ some i
choose_interface-fallback name front after i h barred usable =
    choose_interface-missing name (front ++ (i ∷ after)) h
    ∙ find_usable-behind front after i (AllBarred-NoneOf front barred)
        (not_Barred-is_usable i.name usable)

-- A client made for an interface has the next binder object, and the other names keep theirs.
add_client-find :
    (name n : Bytes) (i : InterfaceInfo) (s : Server)
    → find n (add_client name (some i) s).0.client_interfaces ≡ (
        if same_text n name
        then some (record { binder = s.next_binder; info = i })
        else find n s.client_interfaces)
unfolding add_client
add_client-find name n i s =
    find-put n name (record { binder = s.next_binder; info = i }) s.client_interfaces

itself : (n : Bytes) → same_text n n ≡ true
itself n = (same_text_iff n n).1 refl

-- Where the kernel reports neither of two different names, and `i` is the first interface that it
-- reports whose name is not "p2p0" and does not start with "aware_data", making a client interface for
-- each name in turn leaves two different objects, one under each name, that both stand for `i`.
pub choose_interface-shared :
    (a b : Bytes) (front after : List InterfaceInfo) (i : InterfaceInfo) (s : Server)
    → NoneOf (is_named a) (front ++ (i ∷ after))
    → NoneOf (is_named b) (front ++ (i ∷ after))
    → AllBarred front
    → ¬ Barred i.name
    → same_text a b ≡ false
    → (let t = (add_client a (choose_interface a (front ++ (i ∷ after))) s).0 in
        let u = (add_client b (choose_interface b (front ++ (i ∷ after))) t).0 in
        (find a u.client_interfaces ≡ some (record { binder = s.next_binder; info = i }))
        × (find b u.client_interfaces ≡ some (record { binder = suc s.next_binder; info = i })))
unfolding add_client
choose_interface-shared a b front after i s h k barred usable differ =
    let t = (add_client a (some i) s).0 in
    rw (choose_interface-fallback a front after i h barred usable) (
      rw (choose_interface-fallback b front after i k barred usable) (
        add_client-find b a i t ∙ rw differ (add_client-find a a i s ∙ rw (itself a)),
        add_client-find b b i t ∙ rw (itself b),
      ))
