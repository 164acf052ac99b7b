-- ===== src/Tests/Interfaces.antt =====
-- The theorems on client and access point interfaces, at short histories.
use platform_system_connecti.Base.{◌+◌, ◌≡◌, true, false, none, some, List, [], ◌∷◌, arith}
use platform_system_connecti.Mlme.{CommonFields, ConnectEvent}
use platform_system_connecti.Client.{AssociationResult, new_client}
use platform_system_connecti.Client.Association.{
  Event, connected, disconnected, roamed, run, Tracks, run-new_client,
}
use platform_system_connecti.Ap.{StationEvent, new_station, del_station, new_ap}
use platform_system_connecti.Ap.Stations
use platform_system_connecti.Tests.Attributes.{mac}

abbrev here : CommonFields
here = record { interface_index = 7; bssid = mac }

abbrev joining : ConnectEvent
joining = record { common = here; status_code = 0; is_timeout = false }

abbrev seen : List AssociationResult
seen = record { associated = true; frequency = 5180 } ∷ []

abbrev history : List Event
history = connected (some seen) joining ∷ disconnected here ∷ roamed none here ∷ []

run-new_client_example : Tracks (some mac) (run history (new_client 0))
run-new_client_example = run-new_client 0 history

abbrev two_join : List StationEvent
two_join = new_station ∷ new_station ∷ del_station ∷ del_station ∷ del_station ∷ []

run-new_ap_count_example : Stations.count_of two_join new_ap + 3 ≡ 2 + 1
run-new_ap_count_example = Stations.run-new_ap_count two_join (omega arith)
