-- ===== src/Netlink/Sequence.antt =====
-- Sequence numbers.
use platform_system_connecti.Base.{ℕ, ◌^◌, ◌<◌, ◌≢◌, arith}
use platform_system_connecti.Netlink.{get_sequence_number, broadcast_sequence_number}

-- The number behind a 32-bit number is not that of the broadcasts, nor the number before it, and
-- fits its 32-bit field.
pub get_sequence_number_lem :
    (n : ℕ)
    → n < 2 ^ 32
    → (get_sequence_number n ≢ broadcast_sequence_number)
      × (get_sequence_number n ≢ n)
      × (get_sequence_number n < 2 ^ 32)
unfolding get_sequence_number
get_sequence_number_lem n h = (ground arith, ground arith, ground arith)
