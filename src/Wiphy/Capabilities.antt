-- ===== src/Wiphy/Capabilities.antt =====
-- `ParseScanCapabilities` and `ParseWiphyInfoFromPacket` on a packet that was filled.
use platform_system_connecti.Base.{
  ℕ, ◌≡◌, refl, Option, none, some, length, Outcome, ok, fail, or_else, ◌>>=◌,
}
use platform_system_connecti.Wire.{Bytes}
use platform_system_connecti.Nl80211.{
  attr_max_num_scan_ssids, attr_max_num_sched_scan_ssids, attr_max_match_sets,
  attr_max_num_sched_scan_plans, attr_max_scan_plan_interval, attr_max_scan_plan_iterations,
}
use platform_system_connecti.Attribute.Search.{Attrs, lookup, AllFit}
use platform_system_connecti.Packet.{headers}
use platform_system_connecti.Packet.Contents.{
  packet_build, stored, InRange, number_as, packet_get_int-build,
}
use platform_system_connecti.Wiphy.{ScanCapabilities, parse_scan_capabilities}

abbrev pub or_zero : Option ℕ → ℕ
or_zero none = 0
or_zero (some n) = n

-- The capabilities as they were stored: three have to be there, the others count as 0.
abbrev pub capabilities_of :
    Option ℕ → Option ℕ → Option ℕ → Option ℕ → Option ℕ → Option ℕ → Outcome ScanCapabilities
capabilities_of (some ssids) (some sched) (some sets) plans interval iterations = ok (record {
  max_num_scan_ssids = ssids;
  max_num_sched_scan_ssids = sched;
  max_match_sets = sets;
  max_num_scan_plans = or_zero plans;
  max_scan_plan_interval = or_zero interval;
  max_scan_plan_iterations = or_zero iterations;
})
capabilities_of (some ssids) (some sched) none plans interval iterations = fail
capabilities_of (some ssids) none sets plans interval iterations = fail
capabilities_of none sched sets plans interval iterations = fail

defaulted : (o : Option ℕ) → or_else (number_as o) (ok 0) ≡ ok (or_zero o)
defaulted none = refl
defaulted (some n) = refl

-- The order in which the required numbers are read.
in_order :
    (ssids sched sets plans interval iterations : Option ℕ)
    → (number_as ssids >>= λ a. number_as sched >>= λ b. number_as sets >>= λ c. ok (record {
      max_num_scan_ssids = a;
      max_num_sched_scan_ssids = b;
      max_match_sets = c;
      max_num_scan_plans = or_zero plans;
      max_scan_plan_interval = or_zero interval;
      max_scan_plan_iterations = or_zero iterations;
    }))
      ≡ capabilities_of ssids sched sets plans interval iterations
in_order none sched sets plans interval iterations = refl
in_order (some a) none sets plans interval iterations = refl
in_order (some a) (some b) none plans interval iterations = refl
in_order (some a) (some b) (some c) plans interval iterations = refl

-- A packet of two headers, filled with attributes that fit, in which each of the six numbers is
-- stored in its width or missing: the capabilities are the stored numbers, the three of scan plans
-- 0 where they are missing; without one of the other three there are none.
pub parse_scan_capabilities-build :
    (d : Bytes) (attrs : Attrs) (ssids sched sets plans interval iterations : Option ℕ)
    → length d ≡ headers
    → AllFit attrs
    → lookup attr_max_num_scan_ssids attrs ≡ stored 1 ssids
    → lookup attr_max_num_sched_scan_ssids attrs ≡ stored 1 sched
    → lookup attr_max_match_sets attrs ≡ stored 1 sets
    → lookup attr_max_num_sched_scan_plans attrs ≡ stored 4 plans
    → lookup attr_max_scan_plan_interval attrs ≡ stored 4 interval
    → lookup attr_max_scan_plan_iterations attrs ≡ stored 4 iterations
    → InRange 1 ssids × InRange 1 sched × InRange 1 sets
    → InRange 4 plans × InRange 4 interval × InRange 4 iterations
    → parse_scan_capabilities (packet_build d attrs)
      ≡ capabilities_of ssids sched sets plans interval iterations
unfolding parse_scan_capabilities
parse_scan_capabilities-build d attrs ssids sched sets plans interval iterations bare fit a b c e f
      g (h, i, j) (k, l, m) =
    rw
      (
        packet_get_int-build d bare attrs fit 1 attr_max_num_scan_ssids ssids a h,
        packet_get_int-build d bare attrs fit 1 attr_max_num_sched_scan_ssids sched b i,
        packet_get_int-build d bare attrs fit 1 attr_max_match_sets sets c j,
        packet_get_int-build d bare attrs fit 4 attr_max_num_sched_scan_plans plans e k,
        packet_get_int-build d bare attrs fit 4 attr_max_scan_plan_interval interval f l,
        packet_get_int-build d bare attrs fit 4 attr_max_scan_plan_iterations iterations g m,
        defaulted plans,
        defaulted interval,
        defaulted iterations,
      )
      (in_order ssids sched sets plans interval iterations)
