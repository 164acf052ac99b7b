-- ===== src/Parcel/Parts.antt =====
-- The parts of the parcelables: what they write is what they read.
use platform_system_connecti.Base.{ℕ, ◌≡◌, refl, Bool, true, false, not, List, [], ◌∷◌, ◌==◌}
use platform_system_connecti.Wire.{Bytes}
use platform_system_connecti.ScanRequest.{PnoNetwork}
use platform_system_connecti.ScanResult.{RadioChainInfo}
use platform_system_connecti.Parcel.{
  int32, Calls, flag_number, write_channel, read_channel, write_hidden_network, read_hidden_network,
  write_pno_network, read_pno_network, write_radio_chain_info, read_radio_chain_info,
}
use platform_system_connecti.Parcel.Laws.{Item, number, byte_vector, IsParcel, RoundTrip}

-- The items of each object.
abbrev pub channel_items : ℕ → List Item
channel_items frequency = number int32 frequency ∷ []

abbrev pub hidden_network_items : Bytes → List Item
hidden_network_items ssid = byte_vector ssid ∷ []

abbrev pub pno_network_items : PnoNetwork → List Item
pno_network_items n = number int32 (flag_number n.is_hidden) ∷ byte_vector n.pno_ssid ∷ []

abbrev pub radio_chain_info_items : RadioChainInfo → List Item
radio_chain_info_items r = number int32 r.chain_id ∷ number int32 r.level ∷ []

abbrev pub Any : {A : Type 0} → A → Type 0
Any x = Unit {0}

pub flag_back : (b : Bool) → not (flag_number b == 0) ≡ b
flag_back true = refl
flag_back false = refl

module _ {P : Type 0} {c : Calls P} {at : List Item → List Item → P} (p : IsParcel c at) where
  pub channel-RoundTrip : RoundTrip at (write_channel c) (read_channel c) channel_items Any
  unfolding write_channel read_channel
  channel-RoundTrip = record {
    written = λ f done s (h, _). p.writes_number int32 f done h;
    read_back = λ f done rest s (h, _). p.reads_number int32 f done rest h;
  }

  pub hidden_network-RoundTrip :
      RoundTrip at (write_hidden_network c) (read_hidden_network c) hidden_network_items Any
  unfolding write_hidden_network read_hidden_network
  hidden_network-RoundTrip = record {
    written = λ n done s (h, _). p.writes_bytes n done h;
    read_back = λ n done rest s (h, _). p.reads_bytes n done rest h;
  }

  pub pno_network-RoundTrip :
      RoundTrip at (write_pno_network c) (read_pno_network c) pno_network_items Any
  unfolding write_pno_network read_pno_network
  pno_network-RoundTrip = record {
    written = λ n done s (h, (k, _)).
        rw (p.writes_number int32 (flag_number n.is_hidden) done h)
          (p.writes_bytes n.pno_ssid (number int32 (flag_number n.is_hidden) ∷ done) k);
    read_back = λ n done rest s (h, (k, _)).
        let hidden = number int32 (flag_number n.is_hidden) in
        rw
          (
            p.reads_number int32 (flag_number n.is_hidden) done (byte_vector n.pno_ssid ∷ rest) h,
            p.reads_bytes n.pno_ssid (hidden ∷ done) rest k,
            flag_back n.is_hidden,
          )
          refl;
  }

  pub radio_chain_info-RoundTrip :
      RoundTrip at (write_radio_chain_info c) (read_radio_chain_info c) radio_chain_info_items Any
  unfolding write_radio_chain_info read_radio_chain_info
  radio_chain_info-RoundTrip = record {
    written = λ r done s (h, (k, _)).
        rw (p.writes_number int32 r.chain_id done h)
          (p.writes_number int32 r.level (number int32 r.chain_id ∷ done) k);
    read_back = λ r done rest s (h, (k, _)).
        rw
          (
            p.reads_number int32 r.chain_id done (number int32 r.level ∷ rest) h,
            p.reads_number int32 r.level (number int32 r.chain_id ∷ done) rest k,
          )
          refl;
  }
