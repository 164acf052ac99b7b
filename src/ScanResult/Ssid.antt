-- ===== src/ScanResult/Ssid.antt =====
-- The search for the SSID in information elements: it ends on all bytes, and on elements that are
-- laid out as the standard says it returns the first SSID element.
use platform_system_connecti.Base.{
  ℕ, zero, suc, ◌+◌, ◌<◌, ◌≡◌, ◌≢◌, refl, false, not, List, [], ◌∷◌, ◌++◌, ltb, leb, ◌==◌,
  if◌then◌else◌, length, drop, length-drop, length-append, take-append, drop-append, Outcome, ok,
  fail, hang, arith, Bool-cases, inl, inr, lt→ltb,
}
use platform_system_connecti.Wire.{Bytes, read_le}
use platform_system_connecti.ScanResult.{ssid_loop, get_ssid_from_info_element, elem_id_ssid}

ssid_loop-ends : (f : ℕ) (ie : Bytes) → length ie < f → ssid_loop f ie ≢ hang
unfolding ssid_loop
ssid_loop-ends zero ie h = λ e. absurd (omega arith)
ssid_loop-ends (suc f) ie h =
    let len = read_le 1 1 ie in
    let rest = ssid_loop-ends f (drop (2 + len) ie) in
    let shorter = length-drop (2 + len) ie in
    λ e. elim (Bool-cases (not (ltb 1 (length ie)))) [
      | inl short ↦ cc (rw short at e)
      | inr long ↦ ground (arith, shorter, rest)
    ]

-- The search returns or gives up on all bytes.
pub get_ssid-ends : (ie : Bytes) → get_ssid_from_info_element ie ≢ hang
unfolding get_ssid_from_info_element
get_ssid-ends ie = ssid_loop-ends (suc (length ie)) ie (omega arith)

-- Information elements as they stand in a frame: id, length, value.
unfoldable pub elements : List (ℕ × Bytes) → Bytes
elements [] = []
elements ((id, value) ∷ es) = id ∷ length value ∷ (value ++ elements es)

abbrev pub first_ssid : List (ℕ × Bytes) → Outcome Bytes
first_ssid [] = fail
first_ssid ((id, value) ∷ es) =
    let rest = first_ssid es in if id == elem_id_ssid then ok value else rest

read_id : (a : ℕ) (r : Bytes) → read_le 1 0 (a ∷ r) ≡ a
unfolding read_le
read_id a r = omega arith

read_length : (a b : ℕ) (r : Bytes) → read_le 1 1 (a ∷ b ∷ r) ≡ b
unfolding read_le
read_length a b r = omega arith

more-leb : (a b : ℕ) → b < a → leb a b ≡ false
more-leb a b h = ground arith

ssid_loop-elements :
    (f : ℕ) (es : List (ℕ × Bytes))
    → length (elements es) < f
    → ssid_loop f (elements es) ≡ first_ssid es
unfolding ssid_loop elements
ssid_loop-elements zero es h = absurd (omega arith)
ssid_loop-elements (suc f) [] h = refl
ssid_loop-elements (suc f) ((id, value) ∷ es) h =
    let all = value ++ elements es in
    let n = length value in
    let size = length-append value (elements es) in
    let next = ssid_loop-elements f es (omega (arith, size)) in
    let skip : 2 + n ≡ suc (suc n) = omega arith in
    rw
      (
        read_id id (n ∷ all),
        read_length id n all,
        lt→ltb 1 (suc (suc (length all))) (omega arith),
        more-leb (suc (suc (length all))) (1 + n) (omega (arith, size)),
        take-append n value (elements es) refl,
        skip,
        drop-append n value (elements es) refl,
        next,
      )
      refl

-- On elements that are laid out in full, the result is the value of the first SSID element.
pub get_ssid-elements :
    (es : List (ℕ × Bytes)) → get_ssid_from_info_element (elements es) ≡ first_ssid es
unfolding get_ssid_from_info_element
get_ssid-elements es = ssid_loop-elements (suc (length (elements es))) es (omega arith)
