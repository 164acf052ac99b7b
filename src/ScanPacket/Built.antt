-- ===== src/ScanPacket/Built.antt =====
-- The scan requests as lists of attributes, the nested ones by what they hold.
use platform_system_connecti.Base.{
  ℕ, suc, ◌≡◌, refl, ◌∙◌, ap, sym, List, [], ◌∷◌, ◌++◌, map, bit_or, fun_ext, ◌==◌, if◌then◌else◌,
  ok, ◌>>=◌, Bool-cases, inl, inr,
}
use platform_system_connecti.Wire.{Bytes, le_bytes}
use platform_system_connecti.Nl80211.{attr_ifindex, attr_scan_ssids, attr_scan_frequencies}
use platform_system_connecti.Nl80211.Scans.{cmd_trigger_scan, attr_scan_flags}
use platform_system_connecti.Attribute.{base_attr, int_attr, nested_attr, add_attribute}
use platform_system_connecti.Attribute.Layout.{base_attr_lem, int_attr_lem}
use platform_system_connecti.Attribute.Search.{Attrs, encode}
use platform_system_connecti.Attribute.Nested.{build, build-nested}
use platform_system_connecti.Packet.{nlm_f_ack, add_flag, packet_add_attribute}
use platform_system_connecti.Packet.Contents.{packet_build}
use platform_system_connecti.NetlinkUtils.{Link, request}
use platform_system_connecti.ScanRequest.{ScanRequest}
use platform_system_connecti.ScanPacket.{
  add_ssids, add_freqs, add_freqs_attr, type_flag, add_flags_attr, random_flag, trigger_scan_packet,
}

-- Payloads under the numbers from `i` on.
abbrev pub numbered : ℕ → List Bytes → Attrs
numbered i [] = []
numbered i (p ∷ ps) = (i, p) ∷ numbered (suc i) ps

abbrev pub words : List ℕ → List Bytes
words = map (le_bytes 4)

pub int_attr-base : (i n : ℕ) → int_attr 4 i n ≡ base_attr i (le_bytes 4 n)
int_attr-base i n = int_attr_lem 4 i n ∙ sym (base_attr_lem i (le_bytes 4 n))

add_ssids-build :
    (attr : Bytes) (i : ℕ) (ssids : List Bytes)
    → add_ssids attr i ssids ≡ build attr (numbered i ssids)
unfolding add_ssids build
add_ssids-build attr i [] = refl
add_ssids-build attr i (s ∷ ssids) =
    add_ssids-build (add_attribute attr (base_attr i s)) (suc i) ssids

add_freqs-build :
    (attr : Bytes) (i : ℕ) (freqs : List ℕ)
    → add_freqs attr i freqs ≡ build attr (numbered i (words freqs))
unfolding add_freqs build
add_freqs-build attr i [] = refl
add_freqs-build attr i (f ∷ freqs) =
    rw (int_attr-base i f)
      (add_freqs-build (add_attribute attr (base_attr i (le_bytes 4 f))) (suc i) freqs)

-- The parts of a request that may be missing.
unfoldable pub freqs_part : List ℕ → Attrs
freqs_part [] = []
freqs_part (f ∷ freqs) = (attr_scan_frequencies, encode (numbered 0 (words (f ∷ freqs)))) ∷ []

unfoldable pub flags_part : ℕ → Attrs
flags_part flags = if flags == 0 then [] else (attr_scan_flags, le_bytes 4 flags) ∷ []

pub ssids-lem :
    (id : ℕ) (ssids : List Bytes)
    → add_ssids (nested_attr id) 0 ssids ≡ base_attr id (encode (numbered 0 ssids))
ssids-lem id ssids = add_ssids-build (nested_attr id) 0 ssids ∙ build-nested id (numbered 0 ssids)

pub add_freqs_attr-build :
    (freqs : List ℕ) (p : Bytes) → add_freqs_attr freqs p ≡ packet_build p (freqs_part freqs)
unfolding add_freqs_attr freqs_part packet_build
add_freqs_attr-build [] p = refl
add_freqs_attr-build (f ∷ freqs) p = ap (packet_add_attribute p) (
    add_freqs-build (nested_attr attr_scan_frequencies) 0 (f ∷ freqs)
    ∙ build-nested attr_scan_frequencies (numbered 0 (words (f ∷ freqs))))

pub add_flags_attr-build :
    (flags : ℕ) (p : Bytes) → add_flags_attr flags p ≡ packet_build p (flags_part flags)
unfolding add_flags_attr flags_part packet_build
add_flags_attr-build flags p = elim (Bool-cases (flags == 0)) [
  | inl e ↦ rw e
  | inr e ↦ rw (e, int_attr-base attr_scan_flags flags)
]

pub packet_build-append :
    (d : Bytes) (xs ys : Attrs) → packet_build d (xs ++ ys) ≡ packet_build (packet_build d xs) ys
unfolding packet_build
packet_build-append d [] ys = refl
packet_build-append d ((i, p) ∷ xs) ys =
    packet_build-append (packet_add_attribute d (base_attr i p)) xs ys

-- The two parts that may be missing, one after the other.
parts-build :
    (freqs : List ℕ) (flags : ℕ) (p : Bytes)
    → add_flags_attr flags (add_freqs_attr freqs p)
      ≡ packet_build p (freqs_part freqs ++ flags_part flags)
parts-build freqs flags p =
    add_flags_attr-build flags (add_freqs_attr freqs p)
    ∙ ap (λ t. packet_build t (flags_part flags)) (add_freqs_attr-build freqs p)
    ∙ sym (packet_build-append p (freqs_part freqs) (flags_part flags))

-- The attributes of a scan request, with its flags.
unfoldable pub trigger_attrs : ℕ → ScanRequest → ℕ → Attrs
unfolding freqs_part flags_part
trigger_attrs interface_index r flags =
    (attr_ifindex, le_bytes 4 interface_index)
    ∷ (attr_scan_ssids, encode (numbered 0 r.ssids))
    ∷ (freqs_part r.freqs ++ flags_part flags)

-- The packet for a scan consists of a header with command TRIGGER_SCAN that asks for an ACK, the
-- interface, the SSIDs, the frequencies if there are any, and the flags if any is set.
pub trigger_scan_packet-build :
    (l : Link) (interface_index : ℕ) (r : ScanRequest)
    → trigger_scan_packet l interface_index r ≡ (
        type_flag r.requested_type >>= λ flag. ok (
          packet_build
            (add_flag (request l cmd_trigger_scan) nlm_f_ack)
            (trigger_attrs interface_index r (bit_or (random_flag r.request_random_mac) flag))))
unfolding trigger_scan_packet trigger_attrs packet_build
trigger_scan_packet-build l interface_index r =
    rw (int_attr-base attr_ifindex interface_index, ssids-lem attr_scan_ssids r.ssids)
      (ap (λ k. type_flag r.requested_type >>= k)
        (fun_ext
          (λ flag. ap ok (parts-build r.freqs (bit_or (random_flag r.request_random_mac) flag) _))))
