-- ===== src/NetlinkUtils/Interfaces.antt =====
-- `GetInterfaces` and `GetWiphyIndex` on the replies of a dump.
use platform_system_connecti.Base.{
  ℕ, ◌≡◌, refl, ◌∙◌, ap, true, Option, none, some, List, [], ◌∷◌, ◌++◌, append_assoc, append-nil,
  ok, attempt,
}
use platform_system_connecti.Wire.{Bytes}
use platform_system_connecti.Nl80211.Replies.{cmd_new_interface}
use platform_system_connecti.NetlinkUtils.{
  Link, InterfaceInfo, check_reply, interface_of, push, interfaces_loop, get_interfaces,
  get_interfaces_request,
}

-- A reply that the checks accept, with what it holds: an interface, or less.
pub record IsReply (l : Link) (p : Bytes) (o : Option InterfaceInfo) : Type 0 where
  pub accepted : check_reply l cmd_new_interface p ≡ ok tt
  pub holds : attempt (interface_of p) ≡ ok o

abbrev pub AllReplies : Link → List Bytes → List (Option InterfaceInfo) → Type 0
AllReplies l [] [] = Unit {0}
AllReplies l [] (o ∷ os) = ⊥
AllReplies l (p ∷ ps) [] = ⊥
AllReplies l (p ∷ ps) (o ∷ os) = IsReply l p o × AllReplies l ps os

abbrev pub present : List (Option InterfaceInfo) → List InterfaceInfo
present [] = []
present (none ∷ os) = present os
present (some i ∷ os) = i ∷ present os

push-present :
    (o : Option InterfaceInfo) (os : List (Option InterfaceInfo)) (infos : List InterfaceInfo)
    → push o infos ++ present os ≡ infos ++ present (o ∷ os)
push-present none os infos = refl
push-present (some i) os infos = append_assoc infos (i ∷ []) (present os)

interfaces_loop-present :
    (l : Link) (ps : List Bytes) (os : List (Option InterfaceInfo)) (infos : List InterfaceInfo)
    → AllReplies l ps os
    → interfaces_loop l infos ps ≡ ok (infos ++ present os, true)
unfolding interfaces_loop
interfaces_loop-present l [] [] infos h = rw (append-nil infos)
interfaces_loop-present l [] (o ∷ os) infos h = absurd h
interfaces_loop-present l (p ∷ ps) [] infos h = absurd h
interfaces_loop-present l (p ∷ ps) (o ∷ os) infos (h, all) =
    rw (h.accepted, h.holds)
      (interfaces_loop-present l ps os (push o infos) all
        ∙ ap (λ t. ok (t, true)) (push-present o os infos))

-- Replies that are all accepted give the interfaces they hold, in order; the pseudo interfaces, which
-- lack an index, a name or an address, are left out.
pub get_interfaces-present :
    (l : Link) (wiphy_index : ℕ) (p : Bytes) (ps : List Bytes) (os : List (Option InterfaceInfo))
    → l.responses (get_interfaces_request l wiphy_index) ≡ some (p ∷ ps)
    → AllReplies l (p ∷ ps) os
    → get_interfaces l wiphy_index ≡ ok (present os, true)
unfolding get_interfaces
get_interfaces-present l wiphy_index p ps os e all =
    rw (e, get_interfaces) (interfaces_loop-present l (p ∷ ps) os [] all)
