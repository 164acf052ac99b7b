-- ===== src/Tests/Scans.antt =====
-- The theorems on scans and the offload manager, at a HAL that takes every request, or none.
use platform_system_connecti.Scanner.Invalidating.{invalidate}
use platform_system_connecti.Broadcast.{Subscriptions}
use platform_system_connecti.Scanner.History.{
  Reaches, at_once, then_step, subscribed, invalidated, scanned, Reaches-valid,
}
use platform_system_connecti.Base.{
  ℕ, ◌≡◌, refl, Bool, true, false, Option, none, some, List, [], ◌∷◌, ok, fault, arith,
}
use platform_system_connecti.HalData.{
  HalCode, hal_ok, hal_error, hal_timeout, ScanParam, ScanFilter, ScanStats,
}
use platform_system_connecti.Offload.{
  Hal, HalAnswer, Manager, new_manager, operation_failed, no_error, time_out, start_scan,
  remote_failure, report_error, on_object_death, init_service_if_needed, status_of,
}
use platform_system_connecti.Offload.Requests.{IsConnected, start_scan-first_failure}
use platform_system_connecti.Offload.Connection.{
  requests-new_manager, Event, starts, stops, dies, run, Answered, AllRefused,
}
use platform_system_connecti.ScanRequest.{
  PnoNetwork, PnoSettings, low_power, Device, scan_request, parse_pno_settings, scan_type_of,
  is_scan_type_supported, SingleScanSettings,
}
use platform_system_connecti.Scanner.{
  Scanner, World, on_offload_error, tell, pno_over_offload_failed, scan, new_scanner,
  subscribe_scan_events,
}
use platform_system_connecti.Scanner.Requests.{scan_request-ssids, IsWithin, parse-IsWithin}
use platform_system_connecti.Scanner.Offloading.{
  RunsOver, death_while_running, report_error-falls_back,
}

abbrev answer : Bool → HalCode → HalAnswer
answer t c = record { transport_status = t; code = c }

abbrev stats : ScanStats
stats = record {
  num_scans_requested_by_wifi = 1;
  num_scans_serviced_by_wifi = 1;
  subscription_duration_ms = 5000;
  scan_records = [];
  histogram_channels_scanned = [];
}

abbrev hal : Option ℕ → Hal
hal service = record {
  service = service;
  link_to_death = true;
  callback_made = true;
  set_event_callback = true;
  configure_scans = λ p f. answer true hal_ok;
  subscribe_scan_results = λ n. answer true hal_error;
  unsubscribe_scan_results = false;
  get_scan_stats = (answer true hal_ok, stats);
}

abbrev param : ScanParam
param = record { ssid_list = []; frequency_list = []; disconnected_mode_scan_interval_ms = 20000 }

abbrev filter : ScanFilter
filter = record { preferred_network_info_list = []; rssi_threshold = 200 }

abbrev manager : Manager
manager = record {
  wifi_offload_hal = some 4096;
  wifi_offload_callback = true;
  death_recipient = true;
  offload_status = no_error;
  service_available = true;
  cached_scan_results = [];
}

connected : IsConnected manager
unfolding IsConnected
connected = λ up. (4096, refl)

start_scan-first_failure_example :
    start_scan (hal (some 4096)) manager param filter
    ≡ ok (record { manager = manager; reason = operation_failed; success = false })
unfolding init_service_if_needed
start_scan-first_failure_example =
    start_scan-first_failure (hal (some 4096)) manager param filter connected

-- A scan, the death of the service with a callback that stops the scan, and a late stop.
abbrev hardships : List Event
hardships =
    starts (hal (some 4096)) param filter
    ∷ dies 4096 (some (hal none))
    ∷ stops (hal (some 4096))
    ∷ []

requests-new_manager_example :
    (s : Answered) × (run hardships (new_manager (hal none), []) ≡ ok s) × AllRefused s.1
requests-new_manager_example = requests-new_manager (hal none) hardships refl

abbrev device : Device
device = record {
  max_num_scan_ssids = 3;
  max_num_sched_scan_ssids = 2;
  max_match_sets = 1;
  max_num_scan_plans = 2;
  max_scan_plan_interval = 600;
  max_scan_plan_iterations = 10;
  supports_random_mac_oneshot_scan = true;
  supports_random_mac_sched_scan = true;
  supports_low_span_oneshot_scan = false;
  supports_low_power_oneshot_scan = true;
  supports_high_accuracy_oneshot_scan = false;
}

abbrev networks : List PnoNetwork
networks =
    record { is_hidden = true; pno_ssid = 97 ∷ [] }
    ∷ record { is_hidden = true; pno_ssid = 98 ∷ [] }
    ∷ record { is_hidden = false; pno_ssid = 99 ∷ [] }
    ∷ []

abbrev pno : PnoSettings
pno = record { interval_ms = 20000; min_2g_rssi = 100; min_5g_rssi = 110; pno_networks = networks }

scan_request-ssids_example :
    (scan_request device false low_power (record {
      scan_type = low_power;
      channel_frequencies = 2412 ∷ [];
      hidden_networks = (97 ∷ []) ∷ (98 ∷ []) ∷ (99 ∷ []) ∷ [];
    })).ssids
    ≡ [] ∷ (97 ∷ []) ∷ (98 ∷ []) ∷ []
scan_request-ssids_example = scan_request-ssids device false low_power (record {
  scan_type = low_power;
  channel_frequencies = 2412 ∷ [];
  hidden_networks = (97 ∷ []) ∷ (98 ∷ []) ∷ (99 ∷ []) ∷ [];
})

start-IsWithin : IsWithin device ([] ∷ [], [], [])
start-IsWithin = record { scans_fit = omega arith; matches_fit = omega arith; flags_match = refl }

parse-IsWithin_example : IsWithin device (parse_pno_settings device networks ([] ∷ [], [], []))
parse-IsWithin_example = parse-IsWithin device networks ([] ∷ [], [], []) start-IsWithin

abbrev world : World
world = record {
  hal = hal (some 4096);
  device = device;
  is_associated = false;
  scan_answer = λ r. none;
  sched_answer = λ r. none;
  stop_scheduled = true;
}

abbrev scanning : Scanner
scanning = record {
  valid = true;
  scan_started = false;
  pno_scan_started = false;
  offload_scan_supported = true;
  pno_scan_running_over_offload = true;
  pno_scan_results_from_offload = false;
  pno_settings = pno;
  scan_event_handler = false;
  pno_scan_event_handler = true;
  told = [];
}

runs : RunsOver manager scanning
runs = record { supported = refl; running = refl; up = refl; healthy = refl }

death_while_running_example :
    on_object_death (λ reason. some (on_offload_error world reason)) 4096 (manager, scanning)
    ≡ fault
death_while_running_example = death_while_running world manager scanning 4096 runs refl

report_error-falls_back_example :
    report_error (λ reason. some (on_offload_error world reason)) hal_timeout (manager, scanning)
    ≡ ok (
      record manager { offload_status = time_out },
      record (tell true (pno_over_offload_failed remote_failure) scanning) {
        pno_scan_running_over_offload = false;
        pno_scan_started = true;
      },
    )
unfolding status_of
report_error-falls_back_example =
    report_error-falls_back world manager scanning hal_timeout time_out runs connected refl refl
      refl refl

abbrev fresh : Scanner
fresh = record {
  valid = true;
  scan_started = false;
  pno_scan_started = false;
  offload_scan_supported = true;
  pno_scan_running_over_offload = false;
  pno_scan_results_from_offload = false;
  pno_settings = pno;
  scan_event_handler = true;
  pno_scan_event_handler = false;
  told = [];
}

abbrev one_shot : SingleScanSettings
one_shot = record { scan_type = low_power; channel_frequencies = []; hidden_networks = [] }

fresh-scan : scan world one_shot fresh ≡ ok (record fresh { scan_started = true }, true)
unfolding scan scan_type_of is_scan_type_supported
fresh-scan = refl

abbrev scan_subscriptions : Subscriptions
scan_subscriptions = record {
  on_scan_result_ready = 7 ∷ [];
  on_sched_scan_result_ready = 7 ∷ [];
  on_mlme_event = [];
  on_reg_domain_changed = [];
  on_station_event = [];
  on_channel_switch_event = [];
}

-- A subscription, `Invalidate`, and a scan that is still taken.
history : Reaches (manager, new_scanner true pno) (manager, record fresh { scan_started = true })
unfolding new_scanner subscribe_scan_events invalidate
history =
    then_step (then_step (then_step at_once (subscribed true)) (invalidated 7 scan_subscriptions))
      (scanned world one_shot true fresh-scan)

Reaches-valid_example : (record fresh { scan_started = true }).valid ≡ true
Reaches-valid_example =
    Reaches-valid manager true pno (manager, record fresh { scan_started = true }) history
