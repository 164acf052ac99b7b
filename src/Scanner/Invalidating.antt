-- ===== src/Scanner/Invalidating.antt =====
-- scanning/scanner_impl.cpp: `Invalidate`, on the members of the scanner and on the subscriptions of the
-- netlink manager.
use platform_system_connecti.Base.{ℕ}
use platform_system_connecti.Broadcast.{Subscriptions}
use platform_system_connecti.Broadcast.Subscribing.{
  unsubscribe_scan_result_notification, unsubscribe_sched_scan_result_notification,
}
use platform_system_connecti.Scanner.{Scanner}

-- The two calls that `Invalidate` makes.
unfoldable pub unsubscribe_scanner : ℕ → Subscriptions → Subscriptions
unfolding unsubscribe_scan_result_notification unsubscribe_sched_scan_result_notification
unsubscribe_scanner index subscriptions =
    unsubscribe_sched_scan_result_notification index
      (unsubscribe_scan_result_notification index subscriptions)

-- It writes no member: `valid_` keeps its value.
unfoldable pub invalidate : ℕ → Scanner × Subscriptions → Scanner × Subscriptions
unfolding unsubscribe_scanner
invalidate index (s, subscriptions) = (s, unsubscribe_scanner index subscriptions)
