-- ===== src/Wiphy/Features.antt =====
-- The feature flags of a wiphy as binary digits.
use platform_system_connecti.Base.{
  ℕ, zero, suc, ◌+◌, ◌*◌, ◌/◌, ◌%◌, ◌<◌, ◌≡◌, Bool, false, [], ◌∷◌, leb, ◌==◌, if◌then◌else◌,
  length, arith, digit, digit-zero, digit-low, digit-high, subst, masked,
}
use platform_system_connecti.Wire.{Bytes, le_value, read_le}
use platform_system_connecti.Wiphy.{is_ext_feature_flag_set, wiphy_features}

abbrev pub AllBytes : Bytes → Type 0
AllBytes [] = Unit {0}
AllBytes (x ∷ xs) = (x < 256) × AllBytes xs

-- The test by byte and place in it.
flag_at : ℕ → ℕ → Bytes → Bool
flag_at q r bytes = if leb (length bytes) q then false else digit r (read_le 1 q bytes) == 1

digit-shift : (q r x y : ℕ) → x < 256 → digit (8 * suc q + r) (x + 256 * y) ≡ digit (8 * q + r) y
digit-shift q r x y h =
    let e : 8 * suc q + r ≡ 8 + (8 * q + r) = omega arith in rw e (digit-high 8 (8 * q + r) x y h)

leb-suc : (m n : ℕ) → leb (suc m) (suc n) ≡ leb m n
leb-suc m n = ground arith

flag_at_lem :
    (q r : ℕ) (bytes : Bytes)
    → r < 8
    → AllBytes bytes
    → flag_at q r bytes ≡ (digit (8 * q + r) (le_value bytes) == 1)
unfolding flag_at read_le
flag_at_lem q r [] h all = rw (digit-zero (8 * q + r)) (ground arith)
flag_at_lem zero r (x ∷ xs) h (small, all) =
    let e : 8 * 0 + r ≡ r = omega arith in
    let one : x + 256 * 0 ≡ x = omega arith in
    rw (e, digit-low r 8 x (le_value xs) h, one) (ground arith)
flag_at_lem (suc q) r (x ∷ xs) h (small, all) =
    rw (digit-shift q r x (le_value xs) small, leb-suc (length xs) q) (flag_at_lem q r xs h all)

-- An extended feature is set exactly where its index is a 1 among the binary digits of the feature
-- bytes, read as one little-endian number; a list that is too short counts as followed by zeros.
pub is_ext_feature_flag_set-digit :
    (bytes : Bytes) (flag : ℕ)
    → AllBytes bytes
    → is_ext_feature_flag_set bytes flag ≡ (digit flag (le_value bytes) == 1)
unfolding is_ext_feature_flag_set flag_at
is_ext_feature_flag_set-digit bytes flag all =
    let whole : 8 * (flag / 8) + flag % 8 ≡ flag = omega arith in
    rw (masked (read_le 1 (flag / 8) bytes) (flag % 8)) (
      subst (λ f. flag_at (flag / 8) (flag % 8) bytes ≡ (digit f (le_value bytes) == 1)) whole
        (flag_at_lem (flag / 8) (flag % 8) bytes (omega arith) all))

-- The five features of a wiphy are binary digits: 29 and 30 of its feature flags, and 22, 23 and 24
-- of its extended feature bytes, read as one little-endian number.
pub wiphy_features-digits :
    (flags : ℕ) (bytes : Bytes)
    → AllBytes bytes
    → wiphy_features flags bytes ≡ record {
      supports_random_mac_oneshot_scan = digit 29 flags == 1;
      supports_random_mac_sched_scan = digit 30 flags == 1;
      supports_low_span_oneshot_scan = digit 22 (le_value bytes) == 1;
      supports_low_power_oneshot_scan = digit 23 (le_value bytes) == 1;
      supports_high_accuracy_oneshot_scan = digit 24 (le_value bytes) == 1;
    }
unfolding wiphy_features
wiphy_features-digits flags bytes all = λ i. record {
  supports_random_mac_oneshot_scan = masked flags 29 i;
  supports_random_mac_sched_scan = masked flags 30 i;
  supports_low_span_oneshot_scan = is_ext_feature_flag_set-digit bytes 22 all i;
  supports_low_power_oneshot_scan = is_ext_feature_flag_set-digit bytes 23 all i;
  supports_high_accuracy_oneshot_scan = is_ext_feature_flag_set-digit bytes 24 all i;
}
