-- ===== src/Server/Offers.antt =====
-- server.cpp: what `SetupInterface` finds for a name, and that it leaves the server's interfaces and
-- callbacks as they are.
use platform_system_connecti.Base.{
  ℕ, ◌≡◌, refl, ◌∙◌, ap, Bool, true, false, not, Option, none, List, ok, Ends, Ends-bind, Ends-self,
  Ends-cases, Bool-cases, inl, inr, subst, arith,
}
use platform_system_connecti.Wire.{Bytes}
use platform_system_connecti.Netlink.{has_handler}
use platform_system_connecti.NetlinkUtils.{Link, InterfaceInfo, get_wiphy_index, get_interfaces}
use platform_system_connecti.Server.{
  Server, refresh_wiphy_index, subscribe_reg_domain_change, chosen, setup_interface,
}
use platform_system_connecti.Server.Interfaces.{Choice, choose_interface-Choice}
use platform_system_connecti.Server.Registry.{registry}

-- What the kernel offers for a name, the index of the last wiphy being `before`: no interface where it
-- gives no wiphy, none where it gives no list of the wiphy's interfaces, and else what may be taken
-- from the list.
pub data Offers (l : Link) (before : ℕ) (name : Bytes) : Option InterfaceInfo → Type 0 where
  no_wiphy : (w : ℕ) → get_wiphy_index l before ≡ ok (w, false) → Offers l before name none
  no_list :
      (w : ℕ) (infos : List InterfaceInfo)
      → get_wiphy_index l before ≡ ok (w, true)
      → get_interfaces l w ≡ ok (infos, false)
      → Offers l before name none
  lists :
      (w : ℕ) (infos : List InterfaceInfo) (o : Option InterfaceInfo)
      → get_wiphy_index l before ≡ ok (w, true)
      → get_interfaces l w ≡ ok (infos, true)
      → Choice name infos o
      → Offers l before name o

chosen-Offers :
    (l : Link) (before : ℕ) (name : Bytes) (w : ℕ) (infos : List InterfaceInfo) (listed : Bool)
    → get_wiphy_index l before ≡ ok (w, true)
    → get_interfaces l w ≡ ok (infos, listed)
    → Offers l before name (chosen name listed infos)
chosen-Offers l before name w infos true e f =
    lists w infos _ e f (choose_interface-Choice name infos)
chosen-Offers l before name w infos false e f = no_list w infos e f

-- Nothing that the registry or the callbacks show has changed.
abbrev pub Same : Server → Server → Type 0
Same s t = (registry t ≡ registry s) × (t.interface_event_callbacks ≡ s.interface_event_callbacks)

abbrev Refreshed : Link → Server → Server × Bool → Type 0
Refreshed l s r = Same s r.0 × (get_wiphy_index l s.wiphy_index ≡ ok (r.0.wiphy_index, r.1))

refresh-Refreshed : (l : Link) (s : Server) → Ends (Refreshed l s) (refresh_wiphy_index l s)
unfolding refresh_wiphy_index registry
refresh-Refreshed l s =
    Ends-bind (λ r. get_wiphy_index l s.wiphy_index ≡ ok r) (Refreshed l s)
      (get_wiphy_index l s.wiphy_index) _ (Ends-self (get_wiphy_index l s.wiphy_index))
      (λ r h. ((refl, refl), h))

subscribe-Same : (s : Server) → Same s (subscribe_reg_domain_change s)
unfolding registry
subscribe-Same s = elim (Bool-cases (has_handler s.wiphy_index s.reg_domain_handlers)) [
  | inl e ↦ rw e (refl, refl)
  | inr e ↦ rw e (refl, refl)
]

subscribe-index : (s : Server) → (subscribe_reg_domain_change s).wiphy_index ≡ s.wiphy_index
subscribe-index s = elim (Bool-cases (has_handler s.wiphy_index s.reg_domain_handlers)) [
  | inl e ↦ rw e
  | inr e ↦ rw e
]

not-true : (b : Bool) → not b ≡ true → b ≡ false
not-true b e = ground arith

not-false : (b : Bool) → not b ≡ false → b ≡ true
not-false b e = ground arith

abbrev pub SetUp : Link → Bytes → Server → Server × Option InterfaceInfo → Type 0
SetUp l name s r = Same s r.0 × Offers l s.wiphy_index name r.1

pub setup-SetUp :
    (l : Link) (name : Bytes) (s : Server) → Ends (SetUp l name s) (setup_interface l name s)
unfolding setup_interface registry
setup-SetUp l name s =
    Ends-bind (Refreshed l s) (SetUp l name s) (refresh_wiphy_index l s) _ (refresh-Refreshed l s)
      (λ r h.
        let w = r.0.wiphy_index in
        let s2 = subscribe_reg_domain_change r.0 in
        Ends-cases (SetUp l name s) (not r.1) _ _
          (λ e. (h.0, no_wiphy w (h.1 ∙ ap (λ (b : Bool). ok (w, b)) (not-true r.1 e))))
          (λ e.
            Ends-bind (λ q. get_interfaces l s2.wiphy_index ≡ ok q) (SetUp l name s)
              (get_interfaces l s2.wiphy_index) _ (Ends-self (get_interfaces l s2.wiphy_index))
              (λ q k.
                let u = subscribe-Same r.0 in
                (
                  (u.0 ∙ h.0.0, u.1 ∙ h.0.1),
                  chosen-Offers l s.wiphy_index name w q.0 q.1
                      (h.1 ∙ ap (λ (b : Bool). ok (w, b)) (not-false r.1 e))
                      (subst (λ x. get_interfaces l x ≡ ok q) (subscribe-index r.0) k),
                ))))
