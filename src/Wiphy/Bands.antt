-- ===== src/Wiphy/Bands.antt =====
-- `ParseBandInfo` on a packet whose bands hold lists of frequency entries.
use platform_system_connecti.Base.{
  ℕ, ◌≡◌, refl, ◌∙◌, ap, Option, none, some, List, [], ◌∷◌, ◌++◌, map, append_assoc, append-nil,
  Bool, length, ok, attempt, ◌>>=◌,
}
use platform_system_connecti.Wire.{Bytes}
use platform_system_connecti.Nl80211.{attr_wiphy_bands, band_attr_freqs}
use platform_system_connecti.Attribute.{base_attr, get_list_of_nested_attributes}
use platform_system_connecti.Attribute.Search.{Attrs, encode, lookup, AllFit, found_as}
use platform_system_connecti.Attribute.Fields.{get_attribute-stored, get_list-stored}
use platform_system_connecti.Packet.{headers}
use platform_system_connecti.Packet.Contents.{packet_build}
use platform_system_connecti.Packet.Fields.{packet_get_attribute-stored}
use platform_system_connecti.Wiphy.{BandInfo, add_listed, add_band, add_bands, parse_band_info}
use platform_system_connecti.Wiphy.Frequencies.{
  Frequency, view, pick, select, is_2g, is_5g, is_dfs, extend, AllNestedFit, add_frequencies-views,
}

-- Attributes that hold attributes each, as their bytes.
unfoldable pub nested : List (ℕ × Attrs) → Attrs
nested entries = map (λ e. (e.0, encode e.1)) entries

-- A band: its attributes, and the frequency entries that stand among them, if any do.
pub record Band : Type 0 where
  pub number : ℕ
  pub attributes : Attrs
  pub frequencies : Option (List (ℕ × Attrs))

abbrev pub FrequenciesFit : Option (List (ℕ × Attrs)) → Type 0
FrequenciesFit none = Unit {0}
FrequenciesFit (some freqs) = AllFit (nested freqs) × AllNestedFit freqs

abbrev pub bytes_of : Option (List (ℕ × Attrs)) → Option Bytes
bytes_of none = none
bytes_of (some freqs) = some (encode (nested freqs))

pub record IsBand (b : Band) : Type 0 where
  pub fit : AllFit b.attributes
  pub listed : lookup band_attr_freqs b.attributes ≡ bytes_of b.frequencies
  pub frequencies_fit : FrequenciesFit b.frequencies

abbrev pub AllBands : List Band → Type 0
AllBands [] = Unit {0}
AllBands (b ∷ bands) = IsBand b × AllBands bands

abbrev pub views : Option (List (ℕ × Attrs)) → List Frequency
views none = []
views (some freqs) = map (λ f. view f.1) freqs

-- All entries of all bands, in order.
unfoldable pub all_frequencies : List Band → List Frequency
all_frequencies [] = []
all_frequencies (b ∷ bands) = views b.frequencies ++ all_frequencies bands

unfoldable pub band_entries : List Band → Attrs
band_entries bands = map (λ (b : Band). (b.number, encode b.attributes)) bands

map-map :
    (fs : List (ℕ × Attrs))
    → map (λ a. base_attr a.0 a.1) (nested fs) ≡ map (λ f. base_attr f.0 (encode f.1)) fs
unfolding nested
map-map [] = refl
map-map ((i, a) ∷ fs) = ap (◌∷◌ (base_attr i (encode a))) (map-map fs)

extend-nil : (info : BandInfo) → extend [] info ≡ info
unfolding extend select
extend-nil info = rw (append-nil info.band_2g, append-nil info.band_5g, append-nil info.band_dfs)

listed_views :
    (o : Option (List (ℕ × Attrs))) (info : BandInfo)
    → FrequenciesFit o
    → (attempt (found_as band_attr_freqs (bytes_of o) >>= get_list_of_nested_attributes) >>= λ l.
        add_listed l info)
      ≡ ok (extend (views o) info)
unfolding add_listed
listed_views none info h = rw (extend-nil info)
listed_views (some freqs) info (fit, all) =
    rw (get_list-stored band_attr_freqs (nested freqs) fit, map-map freqs)
      (add_frequencies-views freqs info all)

add_band-views :
    (b : Band) (info : BandInfo)
    → IsBand b
    → add_band (base_attr b.number (encode b.attributes)) info
      ≡ ok (extend (views b.frequencies) info)
unfolding add_band
add_band-views b info h =
    rw (get_attribute-stored b.number b.attributes h.fit band_attr_freqs, h.listed)
      (listed_views b.frequencies info h.frequencies_fit)

select-append :
    (p : Frequency → ℕ → Bool) (fs gs : List Frequency)
    → select p (fs ++ gs) ≡ select p fs ++ select p gs
unfolding select
select-append p [] gs = refl
select-append p (f ∷ fs) gs = rw (select-append p fs gs, append_assoc (pick p f f.megahertz))

extend-append :
    (fs gs : List Frequency) (b : BandInfo) → extend gs (extend fs b) ≡ extend (fs ++ gs) b
unfolding extend
extend-append fs gs b = rw (
  select-append is_2g fs gs,
  select-append is_5g fs gs,
  select-append is_dfs fs gs,
  append_assoc b.band_2g,
  append_assoc b.band_5g,
  append_assoc b.band_dfs,
)

add_bands-views :
    (bands : List Band) (info : BandInfo)
    → AllBands bands
    → add_bands (map (λ (b : Band). base_attr b.number (encode b.attributes)) bands) info
      ≡ ok (extend (all_frequencies bands) info)
unfolding add_bands all_frequencies
add_bands-views [] info h = rw (extend-nil info)
add_bands-views (b ∷ bands) info (h, all) = rw (add_band-views b info h) (
    add_bands-views bands (extend (views b.frequencies) info) all
    ∙ ap ok (extend-append (views b.frequencies) (all_frequencies bands) info))

entries-map :
    (bands : List Band)
    → map (λ a. base_attr a.0 a.1) (band_entries bands)
      ≡ map (λ (b : Band). base_attr b.number (encode b.attributes)) bands
unfolding band_entries
entries-map [] = refl
entries-map (b ∷ bands) = ap (◌∷◌ (base_attr b.number (encode b.attributes))) (entries-map bands)

-- A packet of two headers, filled with attributes that fit, whose band attribute holds bands with
-- lists of frequency entries (or none), all laid out in full: the three lists of the band info are
-- the entries' frequencies, in order. A frequency that is missing, of another width, disabled or
-- within no band's bounds is in none of them; one of the 5 GHz band goes to the DFS list exactly
-- where its DFS state is usable or available or it is marked NO_IR.
pub parse_band_info-build :
    (d : Bytes) (attrs : Attrs) (bands : List Band)
    → length d ≡ headers
    → AllFit attrs
    → lookup attr_wiphy_bands attrs ≡ some (encode (band_entries bands))
    → AllFit (band_entries bands)
    → AllBands bands
    → parse_band_info (packet_build d attrs)
      ≡ ok (
          let all = all_frequencies bands in
          record {
            band_2g = select is_2g all;
            band_5g = select is_5g all;
            band_dfs = select is_dfs all;
          })
unfolding parse_band_info
parse_band_info-build d attrs bands bare fit e entries all =
    rw
      (
        packet_get_attribute-stored d bare attrs fit attr_wiphy_bands,
        e,
        get_list-stored attr_wiphy_bands (band_entries bands) entries,
        entries-map bands,
      )
      (add_bands-views bands (record { band_2g = []; band_5g = []; band_dfs = [] }) all
        ∙ unfold extend in refl)
