-- ===== src/Packet/Validity.antt =====
-- When a packet is valid, and that the packets built here are.
use platform_system_connecti.Base.{
  ℕ, ◌+◌, ◌^◌, ◌≤◌, ◌<◌, ◌≡◌, ◌↔◌, refl, ap, ◌∙◌, true, ◌++◌, length, length-write_at,
  length-append, arith,
}
use platform_system_connecti.Wire.{read_le, Bytes, le_bytes, read_le_appended}
use platform_system_connecti.Packet.{
  set_message_length, nlm_f_request, headers, nlmsg_hdrlen, nlmsg_min_type, nlmsg_error,
  get_message_length, get_message_type, new_packet, packet_is_valid, packet_add_attribute,
}
use platform_system_connecti.Packet.Headers.{
  Header, header_of, header_ext, fields, set_message_length_lem,
}

-- What `IsValid` promises to the code that reads the headers.
pub record Readable (d : Bytes) : Type 0 where
  pub netlink : nlmsg_hdrlen ≤ get_message_length d
  pub complete : get_message_length d ≤ length d
  pub generic : nlmsg_min_type ≤ get_message_type d → headers ≤ get_message_length d
  pub error_code : get_message_type d ≡ nlmsg_error → nlmsg_hdrlen + 4 ≤ get_message_length d

-- `IsValid` accepts a packet exactly if the headers and the error code that its type calls for lie
-- within its message length, and the message lies within the buffer.
pub is_valid_iff : (d : Bytes) → (packet_is_valid d ≡ true) ↔ Readable d
unfolding packet_is_valid
is_valid_iff d = (λ h. ground arith, λ r. ground arith)

-- The shape of a packet under construction.
pub record IsWhole (d : Bytes) : Type 0 where
  pub has_headers : headers ≤ length d
  pub counted : get_message_length d ≡ length d

pub IsWhole-valid : (d : Bytes) → IsWhole d → packet_is_valid d ≡ true
IsWhole-valid d w = (is_valid_iff d).1 (omega arith)

-- The header of a new packet holds what the constructor was given, where that fits its fields, the
-- request flag, and the length of the two headers, which is all that the packet has.
pub new_packet_lem :
    (type command sequence pid : ℕ)
    → type < 2 ^ 16
    → command < 2 ^ 8
    → sequence < 2 ^ 32
    → pid < 2 ^ 32
    → (header_of (new_packet type command sequence pid) ≡ record {
      message_length = headers;
      message_type = type;
      flags = nlm_f_request;
      sequence = sequence;
      port_id = pid;
      command = command;
    })
      × IsWhole (new_packet type command sequence pid)
unfolding new_packet fields read_le
new_packet_lem type command sequence pid a b c d = (
  header_ext refl (omega arith) refl (omega arith) (omega arith) (omega arith),
  record { has_headers = omega arith; counted = refl },
)

message_length_appended :
    (d a : Bytes) → headers ≤ length d → get_message_length (d ++ a) ≡ get_message_length d
unfolding get_message_length
message_length_appended d a h = read_le_appended 4 0 d a (omega arith)

set_length-IsWhole :
    (d : Bytes) (n : ℕ)
    → headers ≤ length d
    → n ≡ length d
    → n < 2 ^ 32
    → IsWhole (set_message_length d n)
set_length-IsWhole d n h e small = record {
  has_headers = rw kept h;
  counted =
      rw kept (ap (λ (h : Header). h.message_length) (set_message_length_lem d h n) ∙ omega arith);
}
  where
    kept : length (set_message_length d n) ≡ length d
    kept = unfold set_message_length in length-write_at 0 (le_bytes 4 n) d

-- Appending an attribute keeps the message length equal to the bytes of the packet.
pub add_attribute-IsWhole :
    (d a : Bytes) → IsWhole d → length d + length a < 2 ^ 32 → IsWhole (packet_add_attribute d a)
unfolding packet_add_attribute
add_attribute-IsWhole d a w h =
    let total = length-append d a in
    let counted = message_length_appended d a w.has_headers in
    set_length-IsWhole (d ++ a) (get_message_length (d ++ a) + length a) (omega (arith, total))
      (omega (arith, total, counted)) (omega (arith, counted))
