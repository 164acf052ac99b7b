-- ===== src/Scanner/Results.antt =====
-- scanning/scanner_impl.cpp: where the results that a caller asks for are read. What the two sources
-- return is an argument; where one fails the caller's list stays empty.
use platform_system_connecti.Base.{
  ◌≡◌, refl, Bool, true, false, not, List, [], if◌then◌else◌, Outcome, ok, or_else, arith, refl,
}
use platform_system_connecti.Scanner.{
  Scanner, tell, Told, pno_network_found, on_offload_scan_result, on_sched_scan_results_ready,
}

unfoldable pub get_scan_results {ℓ} : {A : Type ℓ} → Outcome (List A) → Scanner → Outcome (List A)
get_scan_results netlink s = if not s.valid then ok [] else or_else netlink (ok [])

unfoldable pub get_pno_scan_results {ℓ} :
    {A : Type ℓ} → Outcome (List A) → Outcome (List A) → Scanner → Outcome (List A)
get_pno_scan_results hal netlink s =
    if not s.valid
    then ok []
    else if s.pno_scan_results_from_offload
    then or_else hal (ok [])
    else or_else netlink (ok [])

told :
    (h : Bool) (t : Told) (s : Scanner)
    → ((tell h t s).pno_scan_results_from_offload ≡ s.pno_scan_results_from_offload)
      × ((tell h t s).valid ≡ s.valid)
unfolding tell
told true t s = (refl, refl)
told false t s = (refl, refl)

-- The results of scheduled scans that a valid scanner hands out come from the source that reported
-- last: from the HAL when it reports while a scan runs over it, and from netlink when the kernel
-- reports results to a scanner that has a handler.
pub pno_results-latest {ℓ} :
    {A : Type ℓ} (hal netlink : Outcome (List A)) (s : Scanner)
    → s.valid ≡ true
    → (s.pno_scan_running_over_offload ≡ true
        → get_pno_scan_results hal netlink (on_offload_scan_result s) ≡ or_else hal (ok []))
      × (s.pno_scan_event_handler ≡ true
          → get_pno_scan_results hal netlink (on_sched_scan_results_ready false s)
            ≡ or_else netlink (ok []))
unfolding get_pno_scan_results on_offload_scan_result on_sched_scan_results_ready tell
pno_results-latest hal netlink s v = (
  λ h. ground (
    arith,
    v,
    h,
    told s.pno_scan_event_handler pno_network_found
        (record s { pno_scan_results_from_offload = true }),
  ),
  λ h. ground (arith, v, h),
)
