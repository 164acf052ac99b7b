-- ===== src/Wire/Laws.antt =====
-- Reading back what was written.
use platform_system_connecti.Base.{
  ℕ, zero, suc, ◌+◌, ◌-◌, ◌*◌, ◌/◌, ◌%◌, ◌^◌, ◌≤◌, ◌<◌, ◌≡◌, refl, ap, ◌∙◌, List, [], ◌∷◌, ◌++◌,
  take, drop, length, take-append, drop-append, arith, take-drop-write_at, drop-write_at,
  write_at_self, take-drop-append, write_at,
}
use platform_system_connecti.Wire.Codec.{Bytes, le_bytes, le_value, read_le, nla_align}
use native.Mathlib.Nat.{pow-suc}

pub length-le_bytes : (w n : ℕ) → length (le_bytes w n) ≡ w
length-le_bytes zero n = refl
length-le_bytes (suc w) n = ap suc (length-le_bytes w (n / 256))

-- A number that fits its width is read back as it was written.
pub le_value-le_bytes : (w n : ℕ) → n < 256 ^ w → le_value (le_bytes w n) ≡ n
le_value-le_bytes zero n h = omega arith
le_value-le_bytes (suc w) n h =
    let small : n / 256 < 256 ^ w = omega (arith, pow-suc 256 w) in
    omega (arith, le_value-le_bytes w (n / 256) small)

pub le_value_two : (n : ℕ) → le_value (le_bytes 2 n) ≡ n % 65536
le_value_two n = omega arith

-- A field read at the place where its bytes stand.
pub read_le-append :
    (w offset : ℕ) (pre v post : Bytes)
    → length pre ≡ offset
    → length v ≡ w
    → read_le w offset (pre ++ (v ++ post)) ≡ le_value v
unfolding read_le
read_le-append w offset pre v post h k =
    ap (λ t. le_value (take w t)) (drop-append offset pre (v ++ post) h)
    ∙ ap le_value (take-append w v post k)

-- A field is not changed by a write beside it, or by bytes appended behind it.
pub read_le_before :
    (w off o : ℕ) (vs d : Bytes) → off + w ≤ o → read_le w off (write_at o vs d) ≡ read_le w off d
unfolding read_le
read_le_before w off o vs d h = ap le_value (take-drop-write_at w off o vs d h)

pub read_le_behind :
    (w off o : ℕ) (vs d : Bytes)
    → o + length vs ≤ off
    → read_le w off (write_at o vs d) ≡ read_le w off d
unfolding read_le
read_le_behind w off o vs d h = ap (λ t. le_value (take w t)) (drop-write_at off o vs d h)

pub read_le_appended :
    (w off : ℕ) (d a : Bytes) → off + w ≤ length d → read_le w off (d ++ a) ≡ read_le w off d
unfolding read_le
read_le_appended w off d a h = ap le_value (take-drop-append w off d a h)

-- A field that is written is read back, cut to its width.
pub read_le_written :
    (w off n : ℕ) (d : Bytes)
    → off + w ≤ length d
    → read_le w off (write_at off (le_bytes w n) d) ≡ le_value (le_bytes w n)
unfolding read_le
read_le_written w off n d h =
    let width = length-le_bytes w n in
    let own = write_at_self off (le_bytes w n) d (omega (arith, width)) in
    ap le_value (rw width at own)

pub nla_align-le : (n : ℕ) → n ≤ nla_align n
unfolding nla_align
nla_align-le n = omega arith

pub nla_align-lt : (n : ℕ) → nla_align n < n + 4
unfolding nla_align
nla_align-lt n = omega arith

pub nla_align-pos : (n : ℕ) → 0 < n → 4 ≤ nla_align n
unfolding nla_align
nla_align-pos n h = omega arith

pub nla_align_add : (n : ℕ) → nla_align (4 + n) ≡ 4 + nla_align n
unfolding nla_align
nla_align_add n = omega arith

pub nla_align_idem : (n : ℕ) → nla_align (nla_align n) ≡ nla_align n
unfolding nla_align
nla_align_idem n = omega arith

pub ruleset alignment = (arith, nla_align-le, nla_align-lt, nla_align-pos, nla_align_add)
