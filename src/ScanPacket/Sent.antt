-- ===== src/ScanPacket/Sent.antt =====
-- What a reader of the scan requests finds in them.
use platform_system_connecti.Broadcast.{list_or_empty}
use platform_system_connecti.Attribute.Fields.{AllOfWidth, get_list_of_int_values-stored}
use platform_system_connecti.Base.{
  ℕ, suc, ◌<◌, ◌^◌, ◌≡◌, refl, ◌∙◌, ap, sym, none, some, List, [], ◌∷◌, ◌++◌, map, bit_or, length,
  arith, ok, ◌>>=◌, ap₂, length-write_at, ok-injective,
}
use platform_system_connecti.Wire.{Bytes, le_bytes, le_value, le_value-le_bytes, length-le_bytes}
use platform_system_connecti.Nl80211.{attr_ifindex, attr_scan_ssids, attr_scan_frequencies}
use platform_system_connecti.Nl80211.Scans.{cmd_trigger_scan}
use platform_system_connecti.Attribute.{base_attr, get_list_of_raw_values, get_list_of_int_values}
use platform_system_connecti.Attribute.Search.{encode, lookup, AllFit, found_as}
use platform_system_connecti.Attribute.Nested.{build-nested}
use platform_system_connecti.Attribute.Reading.{get_list-build}
use platform_system_connecti.Packet.{
  nlm_f_ack, add_flag, packet_get_attribute, packet_get_int, headers, new_packet, get_flags,
}
use platform_system_connecti.Packet.Contents.{packet_build, packet_get_int-build}
use platform_system_connecti.Packet.Fields.{packet_get_attribute-stored}
use platform_system_connecti.NetlinkUtils.{Link, request}
use platform_system_connecti.ScanRequest.{ScanRequest}
use platform_system_connecti.ScanPacket.{type_flag, random_flag, trigger_scan_packet}
use platform_system_connecti.ScanPacket.Built.{
  numbered, words, freqs_part, flags_part, trigger_attrs, trigger_scan_packet-build,
}

numbered-payloads : (i : ℕ) (ps : List Bytes) → map (λ a. a.1) (numbered i ps) ≡ ps
numbered-payloads i [] = refl
numbered-payloads i (p ∷ ps) = ap (◌∷◌ p) (numbered-payloads (suc i) ps)

abbrev pub AllWords : List ℕ → Type 0
AllWords [] = Unit {0}
AllWords (n ∷ ns) = (n < 256 ^ 4) × AllWords ns

numbered-words :
    (i : ℕ) (freqs : List ℕ)
    → AllWords freqs
    → map (λ a. le_value a.1) (numbered i (words freqs)) ≡ freqs
numbered-words i [] h = refl
numbered-words i (f ∷ freqs) (small, all) =
    ap₂ ◌∷◌ (le_value-le_bytes 4 f small) (numbered-words (suc i) freqs all)

words-AllOfWidth : (i : ℕ) (freqs : List ℕ) → AllOfWidth 4 (numbered i (words freqs))
words-AllOfWidth i [] = tt
words-AllOfWidth i (f ∷ freqs) = (length-le_bytes 4 f, words-AllOfWidth (suc i) freqs)

bare-length : (l : Link) → length (add_flag (request l cmd_trigger_scan) nlm_f_ack) ≡ headers
unfolding add_flag new_packet
bare-length l =
    length-write_at 6 (le_bytes 2 (bit_or (get_flags (request l cmd_trigger_scan)) nlm_f_ack))
      (request l cmd_trigger_scan)

no_frequencies : (flags : ℕ) → lookup attr_scan_frequencies (flags_part flags) ≡ none
unfolding flags_part
no_frequencies flags = ground arith

freqs_read :
    (freqs : List ℕ) (flags : ℕ)
    → AllFit (numbered 0 (words freqs))
    → AllWords freqs
    → list_or_empty
        (found_as attr_scan_frequencies
          (lookup attr_scan_frequencies (freqs_part freqs ++ flags_part flags)))
        (get_list_of_int_values 4)
      ≡ ok freqs
unfolding freqs_part
freqs_read [] flags fit all = rw (no_frequencies flags)
freqs_read (f ∷ freqs) flags fit all =
    get_list_of_int_values-stored 4 attr_scan_frequencies (numbered 0 (words (f ∷ freqs))) fit
      (words-AllOfWidth 0 (f ∷ freqs))
    ∙ ap ok (numbered-words 0 (f ∷ freqs) all)

ssids_read :
    (ssids : List Bytes)
    → AllFit (numbered 0 ssids)
    → get_list_of_raw_values (base_attr attr_scan_ssids (encode (numbered 0 ssids))) ≡ ok ssids
ssids_read ssids fit =
    ap get_list_of_raw_values (sym (build-nested attr_scan_ssids (numbered 0 ssids)))
    ∙ (get_list-build attr_scan_ssids (numbered 0 ssids) fit).0
    ∙ ap ok (numbered-payloads 0 ssids)

-- A scan request of a known type whose attributes fit holds the interface it is for, and, as the
-- daemon itself reads them in the kernel's reports, the SSIDs and the frequencies of the request,
-- all of them and in order; no frequencies where the request has none.
pub trigger_scan_packet-read :
    (l : Link) (interface_index flag : ℕ) (r : ScanRequest) (packet : Bytes)
    → interface_index < 2 ^ 32
    → type_flag r.requested_type ≡ ok flag
    → AllFit (trigger_attrs interface_index r (bit_or (random_flag r.request_random_mac) flag))
    → AllFit (numbered 0 r.ssids)
    → AllFit (numbered 0 (words r.freqs))
    → AllWords r.freqs
    → trigger_scan_packet l interface_index r ≡ ok packet
    → (packet_get_int 4 packet attr_ifindex ≡ ok interface_index)
      × ((packet_get_attribute packet attr_scan_ssids >>= get_list_of_raw_values) ≡ ok r.ssids)
      × (list_or_empty
            (packet_get_attribute packet attr_scan_frequencies)
            (get_list_of_int_values 4)
          ≡ ok r.freqs)
unfolding trigger_attrs
trigger_scan_packet-read l interface_index flag r packet small e fit ssids_fit freqs_fit all done =
    let flags = bit_or (random_flag r.request_random_mac) flag in
    let attrs = trigger_attrs interface_index r flags in
    let d = add_flag (request l cmd_trigger_scan) nlm_f_ack in
    let built : packet_build d attrs ≡ packet = ok-injective (
      sym (
        ap
          (λ o. o >>= λ f. ok (
            packet_build d
              (trigger_attrs interface_index r (bit_or (random_flag r.request_random_mac) f))))
          e)
      ∙ sym (trigger_scan_packet-build l interface_index r)
      ∙ done) in
    rw (sym built) (
      packet_get_int-build d (bare-length l) attrs fit 4 attr_ifindex (some interface_index) refl
          small,
      rw (packet_get_attribute-stored d (bare-length l) attrs fit attr_scan_ssids)
          (ssids_read r.ssids ssids_fit),
      rw (packet_get_attribute-stored d (bare-length l) attrs fit attr_scan_frequencies)
          (freqs_read r.freqs flags freqs_fit all),
    )
