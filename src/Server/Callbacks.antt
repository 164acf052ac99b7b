-- ===== src/Server/Callbacks.antt =====
-- server.cpp: the operations on the maps leave the callbacks as they are.
use platform_system_connecti.Base.{
  ◌≡◌, refl, Option, none, some, find, Option-cases, inl, inr, text_key,
}
use platform_system_connecti.Wire.{Bytes}
use platform_system_connecti.NetlinkUtils.{InterfaceInfo}
use platform_system_connecti.Server.{
  add_ap, add_client, tear_down_ap_interface, tear_down_client_interface, Server,
}

pub add_client-callbacks :
    (name : Bytes) (o : Option InterfaceInfo) (s : Server)
    → (add_client name o s).0.interface_event_callbacks ≡ s.interface_event_callbacks
unfolding add_client
add_client-callbacks name none s = refl
add_client-callbacks name (some i) s = refl

pub add_ap-callbacks :
    (name : Bytes) (o : Option InterfaceInfo) (s : Server)
    → (add_ap name o s).0.interface_event_callbacks ≡ s.interface_event_callbacks
unfolding add_ap
add_ap-callbacks name none s = refl
add_ap-callbacks name (some i) s = refl

pub tear_down_client-callbacks :
    (name : Bytes) (s : Server)
    → (tear_down_client_interface name s).0.interface_event_callbacks ≡ s.interface_event_callbacks
unfolding tear_down_client_interface
tear_down_client-callbacks name s = elim (Option-cases (find name s.client_interfaces)) [
  | inl e ↦ rw (e, tear_down_client_interface)
  | inr (i, e) ↦ rw (e, tear_down_client_interface)
]

pub tear_down_ap-callbacks :
    (name : Bytes) (s : Server)
    → (tear_down_ap_interface name s).0.interface_event_callbacks ≡ s.interface_event_callbacks
unfolding tear_down_ap_interface
tear_down_ap-callbacks name s = elim (Option-cases (find name s.ap_interfaces)) [
  | inl e ↦ rw (e, tear_down_ap_interface)
  | inr (i, e) ↦ rw (e, tear_down_ap_interface)
]
