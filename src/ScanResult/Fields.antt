-- ===== src/ScanResult/Fields.antt =====
-- A BSS attribute that holds its fields as the kernel stores them.
use platform_system_connecti.Attribute.Fields.{
  valid_width, value_read, get_attribute_id-base_attr, get_attribute-stored,
}
use platform_system_connecti.Base.{
  ℕ, ◌/◌, ◌<◌, ◌≡◌, refl, ◌^◌, Option, none, some, List, [], Outcome, ok, fail, attempt, ◌∷◌, ◌+◌,
  ◌-◌, ◌%◌, map, or_else, arith, sym, sign_extend, leb, if◌then◌else◌, Bool, false,
}
use platform_system_connecti.Wire.{Bytes, le_bytes, le_value-le_bytes}
use platform_system_connecti.Nl80211.{
  bss_bssid, bss_frequency, bss_tsf, bss_capability, bss_information_elements, bss_signal_mbm,
  bss_status, bss_beacon_tsf, bss_last_seen_boottime, bss_chain_signal,
}
use platform_system_connecti.Attribute.{
  get_int, find_valid, nested_attr, base_attr, int_is_valid, get_list_of_int_attributes,
}
use platform_system_connecti.Attribute.Search.{Attrs, lookup, AllFit, encode}
use platform_system_connecti.Attribute.Nested.{build, build-nested, ReadsAll}
use platform_system_connecti.Attribute.Reading.{
  get_int-build, get_raw-build, search-nested, list_of_nested,
}
use platform_system_connecti.Packet.Contents.{stored, InRange, number_as}
use platform_system_connecti.ScanResult.{
  get_bss_timestamp, max, parse_radio_chain_infos, parse_bss, is_associated_status, chain_infos,
  RadioChainInfo,
}
use platform_system_connecti.ScanResult.Ssid.{elements, first_ssid, get_ssid-elements}

abbrev pub later : ℕ → ℕ → ℕ
later a b = if leb a b then b else a

max_lem : (a b : ℕ) → max a b ≡ later a b
max_lem a b = ground arith

-- Status 0 is that of authentication, 1 that of association.
abbrev pub counts_as_associated : Option ℕ → Bool
counts_as_associated none = false
counts_as_associated (some s) = leb s 1

is_associated_lem : (o : Option ℕ) → is_associated_status o ≡ counts_as_associated o
is_associated_lem none = refl
is_associated_lem (some s) = ground arith

-- What the timestamp is to be: the boot time in microseconds, or else the later of the two TSF
-- values, of which the first has to be there.
abbrev pub timestamp_of : Option ℕ → Option ℕ → Option ℕ → Outcome ℕ
timestamp_of (some boot) tsf beacon = ok (boot / 1000)
timestamp_of none none beacon = fail
timestamp_of none (some tsf) none = ok tsf
timestamp_of none (some tsf) (some beacon) = ok (later tsf beacon)

-- A chain's number, and the byte of its signed level.
abbrev pub Chains : Type 0
Chains = List (ℕ × ℕ)

abbrev pub AllChains : Chains → Type 0
AllChains [] = Unit {0}
AllChains (c ∷ cs) = (c.0 < 65536) × (c.1 < 256) × AllChains cs

abbrev pub entries : Chains → Attrs
entries [] = []
entries (c ∷ cs) = (c.0, le_bytes 1 c.1) ∷ entries cs

-- A signed byte as a signed 32-bit word: moved up by 128, cut to a byte, and moved down again.
abbrev pub signed_word : ℕ → ℕ
signed_word b = ((b + 128) % 256 + (2 ^ 32 - 128)) % 2 ^ 32

-- The chains that may be missing: how they are laid out, their ranges, and what is read of them.
abbrev pub chain_payload : Option Chains → Option Bytes
chain_payload none = none
chain_payload (some cs) = some (encode (entries cs))

abbrev pub SoundChains : Option Chains → Type 0
SoundChains none = Unit {0}
SoundChains (some cs) = AllChains cs

abbrev pub chains_as_infos : Chains → List RadioChainInfo
chains_as_infos [] = []
chains_as_infos (c ∷ cs) = record { chain_id = c.0; level = signed_word c.1 } ∷ chains_as_infos cs

abbrev pub infos_of : Option Chains → List RadioChainInfo
infos_of none = []
infos_of (some cs) = chains_as_infos cs

entries-AllFit : (cs : Chains) → AllChains cs → AllFit (entries cs)
entries-AllFit [] h = tt
entries-AllFit (c ∷ cs) (small, byte, all) = (small, omega arith, entries-AllFit cs all)

entries-ReadsAll :
    (cs : Chains)
    → AllChains cs
    → ReadsAll (int_is_valid 1) ok (λ a. base_attr a.0 a.1) (entries cs)
entries-ReadsAll [] h = tt
entries-ReadsAll (c ∷ cs) (small, byte, all) =
    (valid_width 1 c.0 (le_bytes 1 c.1) (omega arith), refl, entries-ReadsAll cs all)

sign_extend_lem : (b : ℕ) → b < 256 → sign_extend b ≡ signed_word b
sign_extend_lem b h = ground (arith, h)

chain_infos-entries :
    (cs : Chains)
    → AllChains cs
    → chain_infos (map (λ a. base_attr a.0 a.1) (entries cs)) ≡ infos_of (some cs)
unfolding chain_infos
chain_infos-entries [] h = refl
chain_infos-entries (c ∷ cs) (small, byte, all) = rw (
  get_attribute_id-base_attr c.0 (le_bytes 1 c.1) small (omega arith),
  value_read 1 c.0 (le_bytes 1 c.1) refl,
  le_value-le_bytes 1 c.1 byte,
  sign_extend_lem c.1 byte,
  chain_infos-entries cs all,
)

module _ (id : ℕ) (attrs : Attrs) (fit : AllFit attrs) where
  abbrev pub bss : Bytes
  bss = build (nested_attr id) attrs

  get_int-bss :
      (w i : ℕ) (v : Option ℕ)
      → lookup i attrs ≡ stored w v
      → InRange w v
      → get_int w bss i ≡ number_as v
  get_int-bss w i none e small =
      unfold get_int find_valid in rw (build-nested id attrs, search-nested id i attrs fit, e)
  get_int-bss w i (some v) e small = get_int-build w id i v attrs fit small e

  -- The timestamp of a BSS attribute filled with attributes that fit comes from its boot time, in
  -- microseconds, and where there is none from the later of its TSF, which has to be there, and the
  -- beacon's TSF.
  pub get_bss_timestamp-build :
      (boot tsf beacon : Option ℕ)
      → lookup bss_last_seen_boottime attrs ≡ stored 8 boot
      → lookup bss_tsf attrs ≡ stored 8 tsf
      → lookup bss_beacon_tsf attrs ≡ stored 8 beacon
      → InRange 8 boot
      → InRange 8 tsf
      → InRange 8 beacon
      → get_bss_timestamp bss ≡ timestamp_of boot tsf beacon
  unfolding get_bss_timestamp
  get_bss_timestamp-build (some boot) tsf beacon a b c x y z =
      rw (get_int-bss 8 bss_last_seen_boottime (some boot) a x)
  get_bss_timestamp-build none none beacon a b c x y z =
      rw (get_int-bss 8 bss_last_seen_boottime none a x, get_int-bss 8 bss_tsf none b y)
  get_bss_timestamp-build none (some tsf) none a b c x y z = rw (
    get_int-bss 8 bss_last_seen_boottime none a x,
    get_int-bss 8 bss_tsf (some tsf) b y,
    get_int-bss 8 bss_beacon_tsf none c z,
  )
  get_bss_timestamp-build none (some tsf) (some beacon) a b c x y z = rw (
    get_int-bss 8 bss_last_seen_boottime none a x,
    get_int-bss 8 bss_tsf (some tsf) b y,
    get_int-bss 8 bss_beacon_tsf (some beacon) c z,
    max_lem tsf beacon,
  )

  chains-read :
      (chains : Option Chains)
      → lookup bss_chain_signal attrs ≡ chain_payload chains
      → SoundChains chains
      → or_else (parse_radio_chain_infos bss) (ok []) ≡ ok (infos_of chains)
  unfolding parse_radio_chain_infos get_list_of_int_attributes
  chains-read none e h =
      rw (build-nested id attrs, get_attribute-stored id attrs fit bss_chain_signal, e)
  chains-read (some cs) e h =
      rw
        (
          build-nested id attrs,
          get_attribute-stored id attrs fit bss_chain_signal,
          e,
          sym (build-nested bss_chain_signal (entries cs)),
          list_of_nested (int_is_valid 1) ok (λ a. base_attr a.0 a.1) bss_chain_signal (entries cs)
              (entries-AllFit cs h) (entries-ReadsAll cs h),
          chain_infos-entries cs h,
        )
        refl

  attempted : (o : Option ℕ) → attempt (number_as o) ≡ ok o
  attempted none = refl
  attempted (some n) = refl

  -- A BSS attribute filled with attributes that fit, each of the parser's fields in its width, the
  -- information elements laid out in full, and the signal levels of single chains, if there are
  -- any, as signed bytes: where a timestamp and an SSID are to be found, the result holds these
  -- fields, whether the status is one of the two that count as associated, and for each chain in
  -- order its number and its level as a signed 32-bit word. The timestamp is the boot time in
  -- microseconds, or else the later of the TSF, which has to be there, and the beacon's TSF.
  pub parse_bss-build :
      (bssid : Bytes) (frequency signal capability last_seen : ℕ)
      (status boot tsf beacon : Option ℕ) (chains : Option Chains) (es : List (ℕ × Bytes))
      (ssid : Bytes)
      → lookup bss_bssid attrs ≡ some bssid
      → lookup bss_frequency attrs ≡ stored 4 (some frequency)
      → lookup bss_information_elements attrs ≡ some (elements es)
      → lookup bss_signal_mbm attrs ≡ stored 4 (some signal)
      → lookup bss_capability attrs ≡ stored 2 (some capability)
      → lookup bss_status attrs ≡ stored 4 status
      → lookup bss_last_seen_boottime attrs ≡ stored 8 boot
      → lookup bss_tsf attrs ≡ stored 8 tsf
      → lookup bss_beacon_tsf attrs ≡ stored 8 beacon
      → lookup bss_chain_signal attrs ≡ chain_payload chains
      → (frequency < 2 ^ 32) × (signal < 2 ^ 32) × (capability < 2 ^ 16) × InRange 4 status
      → InRange 8 boot × InRange 8 tsf × InRange 8 beacon × SoundChains chains
      → timestamp_of boot tsf beacon ≡ ok last_seen
      → first_ssid es ≡ ok ssid
      → parse_bss bss
        ≡ ok (record {
          ssid = ssid;
          bssid = bssid;
          info_element = elements es;
          frequency = frequency;
          signal_mbm = signal;
          tsf = last_seen;
          capability = capability;
          associated = counts_as_associated status;
          radio_chain_infos = infos_of chains;
        })
  unfolding parse_bss
  parse_bss-build bssid frequency signal capability last_seen status boot tsf beacon chains es ssid
        a b c d e f o p q g (i, j, k, l) (x, y, z, s) time found =
      simp (
        get_raw-build id bss_bssid attrs fit,
        a,
        get_int-bss 4 bss_frequency (some frequency) b i,
        get_raw-build id bss_information_elements attrs fit,
        c,
        get_ssid-elements es,
        found,
        get_bss_timestamp-build boot tsf beacon o p q x y z,
        time,
        get_int-bss 4 bss_signal_mbm (some signal) d j,
        get_int-bss 2 bss_capability (some capability) e k,
        get_int-bss 4 bss_status status f l,
        attempted status,
        is_associated_lem status,
        chains-read chains g s,
      )
