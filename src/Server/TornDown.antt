-- ===== src/Server/TornDown.antt =====
-- What the callbacks are told when all interfaces are torn down.
use platform_system_connecti.Base.{
  ℕ, ◌≡◌, ◌∙◌, ap, List, [], ◌∷◌, ◌++◌, map, append_assoc, append-nil,
}
use platform_system_connecti.Wire.{Bytes}
use platform_system_connecti.Server.{
  Event, ap_torn_down, client_torn_down, Interface, Server, broadcast, tell_clients_torn_down,
  tell_aps_torn_down, forget_all, Clearing, downs,
}

-- Each interface in the order of the map, and each callback for it in the order of registration.
unfoldable pub farewells : (ℕ → ℕ → Event) → List ℕ → List (Bytes × Interface) → List Event
farewells event callbacks [] = []
farewells event callbacks ((name, i) ∷ rest) =
    map (λ c. event c i.binder) callbacks ++ farewells event callbacks rest

pub tell_clients-farewells :
    (m : List (Bytes × Interface)) (s : Server)
    → tell_clients_torn_down m s
      ≡ record s { events = s.events ++ farewells client_torn_down s.interface_event_callbacks m }
unfolding tell_clients_torn_down farewells
tell_clients-farewells [] s = rw (append-nil s.events)
tell_clients-farewells ((name, i) ∷ m) s =
    tell_clients-farewells m (broadcast (λ c. client_torn_down c i.binder) s)
    ∙ ap (λ t. record s { events = t })
        (append_assoc s.events (map (λ c. client_torn_down c i.binder) s.interface_event_callbacks)
          (farewells client_torn_down s.interface_event_callbacks m))

pub tell_aps-farewells :
    (m : List (Bytes × Interface)) (s : Server)
    → tell_aps_torn_down m s
      ≡ record s { events = s.events ++ farewells ap_torn_down s.interface_event_callbacks m }
unfolding tell_aps_torn_down farewells
tell_aps-farewells [] s = rw (append-nil s.events)
tell_aps-farewells ((name, i) ∷ m) s =
    tell_aps-farewells m (broadcast (λ c. ap_torn_down c i.binder) s)
    ∙ ap (λ t. record s { events = t })
        (append_assoc s.events (map (λ c. ap_torn_down c i.binder) s.interface_event_callbacks)
          (farewells ap_torn_down s.interface_event_callbacks m))

in_order : (a b c d e : List Event) → ((((a ++ b) ++ c) ++ d) ++ e) ≡ a ++ (b ++ (c ++ (d ++ e)))
in_order a b c d e =
    append_assoc ((a ++ b) ++ c) d e
    ∙ append_assoc (a ++ b) c (d ++ e)
    ∙ append_assoc a b (c ++ (d ++ e))

pub forget_all-farewells :
    (cleared : Clearing) (s : Server)
    → forget_all cleared s ≡ (
        let callbacks = s.interface_event_callbacks in
        record s {
          client_interfaces = [];
          ap_interfaces = [];
          events =
              s.events
              ++ (farewells client_torn_down callbacks s.client_interfaces
                  ++ (downs (cleared s.client_interfaces)
                      ++ (farewells ap_torn_down callbacks s.ap_interfaces
                          ++ downs (cleared s.ap_interfaces))));
        })
unfolding forget_all
forget_all-farewells cleared s =
    let callbacks = s.interface_event_callbacks in
    let clients = farewells client_torn_down callbacks s.client_interfaces in
    let aps = farewells ap_torn_down callbacks s.ap_interfaces in
    let first = downs (cleared s.client_interfaces) in
    let second = downs (cleared s.ap_interfaces) in
    rw (tell_clients-farewells s.client_interfaces s) (
      rw
        (tell_aps-farewells s.ap_interfaces
          (record s { client_interfaces = []; events = (s.events ++ clients) ++ first }))
        (ap
          (λ (t : List Event). record s { client_interfaces = []; ap_interfaces = []; events = t })
          (in_order s.events clients first aps second)))
