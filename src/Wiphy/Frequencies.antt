-- ===== src/Wiphy/Frequencies.antt =====
-- A frequency entry of a band as the record of what is read of it, and the list it goes to.
use platform_system_connecti.Base.{
  ℕ, ◌≡◌, refl, Bool, not, ◌&&◌, ◌||◌, Option, none, some, List, [], ◌∷◌, ◌++◌, append-nil, ltb,
  if◌then◌else◌, arith, ok, attempt, append_assoc, map, ap, ◌∙◌,
}
use platform_system_connecti.Wire.{Bytes}
use platform_system_connecti.Nl80211.{
  frequency_attr_freq, frequency_attr_disabled, frequency_attr_no_ir, frequency_attr_dfs_state,
}
use platform_system_connecti.Attribute.{base_attr, is_found}
use platform_system_connecti.Attribute.Search.{Attrs, encode, lookup, AllFit}
use platform_system_connecti.Attribute.Fields.{number_in, get_int-stored, has_attribute-stored}
use platform_system_connecti.Wiphy.{
  BandInfo, lower_bound_2g, upper_bound_2g, lower_bound_5g, upper_bound_5g, is_dfs_state,
  add_non_dfs, add_5g, add_value, add_frequency, add_frequencies,
}

pub record Frequency : Type 0 where
  pub megahertz : Option ℕ
  pub disabled : Bool
  pub dfs_state : Option ℕ
  pub no_ir : Bool

-- The number of a field, if it is there and has its four bytes.
unfoldable pub word_in : Option Bytes → Option ℕ
word_in o = elim (number_in 4 o) [ ok n ↦ some n | _ ↦ none ]

unfoldable pub view : Attrs → Frequency
view a = record {
  megahertz = word_in (lookup frequency_attr_freq a);
  disabled = is_found (lookup frequency_attr_disabled a);
  dfs_state = word_in (lookup frequency_attr_dfs_state a);
  no_ir = is_found (lookup frequency_attr_no_ir a);
}

-- The three kinds: enabled, and within a band's open interval; a 5 GHz frequency is for DFS where
-- its state is usable or available or the device must not start to send on it.
unfoldable pub is_restricted : Frequency → Bool
is_restricted f = is_dfs_state f.dfs_state || f.no_ir

unfoldable pub is_2g : Frequency → ℕ → Bool
is_2g f n = not f.disabled && ltb lower_bound_2g n && ltb n upper_bound_2g

unfoldable pub is_5g : Frequency → ℕ → Bool
unfolding is_restricted
is_5g f n = not f.disabled && not (is_restricted f) && ltb lower_bound_5g n && ltb n upper_bound_5g

unfoldable pub is_dfs : Frequency → ℕ → Bool
unfolding is_restricted
is_dfs f n = not f.disabled && is_restricted f && ltb lower_bound_5g n && ltb n upper_bound_5g

abbrev pub pick : (Frequency → ℕ → Bool) → Frequency → Option ℕ → List ℕ
pick p f none = []
pick p f (some n) = if p f n then n ∷ [] else []

-- The frequencies of a kind, in order.
unfoldable pub select : (Frequency → ℕ → Bool) → List Frequency → List ℕ
select p [] = []
select p (f ∷ fs) = pick p f f.megahertz ++ select p fs

unfoldable pub extend : List Frequency → BandInfo → BandInfo
unfolding select is_2g is_5g is_dfs
extend fs b = record {
  band_2g = b.band_2g ++ select is_2g fs;
  band_5g = b.band_5g ++ select is_5g fs;
  band_dfs = b.band_dfs ++ select is_dfs fs;
}

attempt-number : (o : Option Bytes) → attempt (number_in 4 o) ≡ ok (word_in o)
unfolding word_in
attempt-number none = refl
attempt-number (some p) = ground arith

-- What one frequency adds.
unfoldable one_more : Frequency → Option ℕ → BandInfo → BandInfo
unfolding is_2g is_5g is_dfs
one_more f o b = record {
  band_2g = b.band_2g ++ pick is_2g f o;
  band_5g = b.band_5g ++ pick is_5g f o;
  band_dfs = b.band_dfs ++ pick is_dfs f o;
}

module _ (i : ℕ) (a : Attrs) (fit : AllFit a) where
  add_value-view :
      (o : Option ℕ) (b : BandInfo)
      → add_value (base_attr i (encode a)) o b ≡ ok (one_more (view a) o b)
  unfolding add_value add_5g add_non_dfs one_more is_2g is_5g is_dfs is_restricted view
  add_value-view none b = rw (append-nil b.band_2g, append-nil b.band_5g, append-nil b.band_dfs)
  add_value-view (some n) b =
      rw
        (
          has_attribute-stored i a fit frequency_attr_disabled,
          has_attribute-stored i a fit frequency_attr_no_ir,
          get_int-stored i a fit 4 frequency_attr_dfs_state,
          attempt-number (lookup frequency_attr_dfs_state a),
        )
        (ground (arith, append-nil b.band_2g, append-nil b.band_5g, append-nil b.band_dfs))

  add_frequency-view :
      (b : BandInfo)
      → add_frequency (base_attr i (encode a)) b ≡ ok (one_more (view a) (view a).megahertz b)
  unfolding add_frequency view
  add_frequency-view b =
      rw
        (
          get_int-stored i a fit 4 frequency_attr_freq,
          attempt-number (lookup frequency_attr_freq a),
        )
        (add_value-view (word_in (lookup frequency_attr_freq a)) b)

abbrev pub AllNestedFit : List (ℕ × Attrs) → Type 0
AllNestedFit [] = Unit {0}
AllNestedFit ((i, a) ∷ rest) = AllFit a × AllNestedFit rest

extend-cons :
    (f : Frequency) (fs : List Frequency) (b : BandInfo)
    → extend fs (one_more f f.megahertz b) ≡ extend (f ∷ fs) b
unfolding extend one_more select
extend-cons f fs b = rw (append_assoc b.band_2g, append_assoc b.band_5g, append_assoc b.band_dfs)

-- The loop over the entries of a band adds each to the list of its kind.
pub add_frequencies-views :
    (freqs : List (ℕ × Attrs)) (b : BandInfo)
    → AllNestedFit freqs
    → add_frequencies (map (λ f. base_attr f.0 (encode f.1)) freqs) b
      ≡ ok (extend (map (λ f. view f.1) freqs) b)
unfolding add_frequencies
add_frequencies-views [] b fit =
    unfold extend select in rw (append-nil b.band_2g, append-nil b.band_5g, append-nil b.band_dfs)
add_frequencies-views ((i, a) ∷ freqs) b (fit, all) = rw (add_frequency-view i a fit b) (
    add_frequencies-views freqs (one_more (view a) (view a).megahertz b) all
    ∙ ap ok (extend-cons (view a) (map (λ f. view f.1) freqs) b))
