-- ===== src/Packet.antt =====
-- net/nl80211_packet.h and net/nl80211_packet.cpp. A packet is its `data_`: struct nlmsghdr
-- (32-bit length, 16-bit type, 16-bit flags, 32-bit sequence, 32-bit port id), struct genlmsghdr
-- (8-bit command, 8-bit version, 16-bit reserved) and attributes. The header members are called
-- on packets that hold those headers, which `IsValid` makes sure of.
pub mod Headers
pub mod Validity
pub mod Contents
pub mod AllAttributes
pub mod Fields
use platform_system_connecti.Base.{
  ℕ, zero, suc, ◌+◌, ◌-◌, ◌%◌, ◌^◌, Bool, true, false, not, ◌&&◌, ◌||◌, List, [], ◌∷◌, ◌++◌,
  bit_and, bit_or, ltb, leb, ◌==◌, if◌then◌else◌, length, take, drop, resize, write_at, Outcome, ok,
  fail, hang, fault, ◌>>=◌, attempt,
}
use platform_system_connecti.Wire.{
  Bytes, le_bytes, read_le, nla_hdrlen, nla_align, nla_len, nla_type,
}
use platform_system_connecti.Attribute.{
  base_attr, is_valid, int_is_valid, int_get_value, raw_get_value, string_get_value, search_behind,
  find_valid, is_found,
}

-- linux/netlink.h and linux/genetlink.h.
abbrev pub nlmsg_hdrlen : ℕ
nlmsg_hdrlen = 16

abbrev pub genl_hdrlen : ℕ
genl_hdrlen = 4

abbrev pub headers : ℕ
headers = 20

abbrev pub nlmsg_min_type : ℕ
nlmsg_min_type = 16

abbrev pub nlmsg_noop : ℕ
nlmsg_noop = 1

abbrev pub nlmsg_error : ℕ
nlmsg_error = 2

abbrev pub nlmsg_done : ℕ
nlmsg_done = 3

abbrev pub nlmsg_overrun : ℕ
nlmsg_overrun = 4

abbrev pub nlm_f_request : ℕ
nlm_f_request = 1

abbrev pub nlm_f_multi : ℕ
nlm_f_multi = 2

abbrev pub nlm_f_ack : ℕ
nlm_f_ack = 4

abbrev pub nlm_f_dump : ℕ
nlm_f_dump = 0x300

-- Header fields.
unfoldable pub get_message_length : Bytes → ℕ
get_message_length d = read_le 4 0 d

unfoldable pub get_message_type : Bytes → ℕ
get_message_type d = read_le 2 4 d

unfoldable pub get_flags : Bytes → ℕ
get_flags d = read_le 2 6 d

unfoldable pub get_message_sequence : Bytes → ℕ
get_message_sequence d = read_le 4 8 d

unfoldable pub get_port_id : Bytes → ℕ
get_port_id d = read_le 4 12 d

unfoldable pub get_command : Bytes → ℕ
get_command d = read_le 1 nlmsg_hdrlen d

unfoldable pub set_message_length : Bytes → ℕ → Bytes
set_message_length d n = write_at 0 (le_bytes 4 n) d

unfoldable pub set_message_type : Bytes → ℕ → Bytes
set_message_type d message_type = write_at 4 (le_bytes 2 message_type) d

unfoldable pub set_flags : Bytes → ℕ → Bytes
set_flags d flags = write_at 6 (le_bytes 2 flags) d

unfoldable pub add_flag : Bytes → ℕ → Bytes
unfolding set_flags
add_flag d flag = write_at 6 (le_bytes 2 (bit_or (get_flags d) flag)) d

unfoldable pub set_message_sequence : Bytes → ℕ → Bytes
set_message_sequence d message_sequence = write_at 8 (le_bytes 4 message_sequence) d

unfoldable pub set_port_id : Bytes → ℕ → Bytes
set_port_id d pid = write_at 12 (le_bytes 4 pid) d

unfoldable pub set_command : Bytes → ℕ → Bytes
set_command d command = write_at nlmsg_hdrlen (le_bytes 1 command) d

-- `-*(int*)`, as the bit pattern of an int: two's complement negation.
unfoldable pub get_error_code : Bytes → ℕ
get_error_code d = (2 ^ 32 - read_le 4 nlmsg_hdrlen d) % 2 ^ 32

unfoldable pub is_dump : Bytes → Bool
is_dump d = not (bit_and (get_flags d) nlm_f_dump == 0)

unfoldable pub is_multi : Bytes → Bool
is_multi d = not (bit_and (get_flags d) nlm_f_multi == 0)

-- The constructor that fills the headers.
unfoldable pub new_packet : ℕ → ℕ → ℕ → ℕ → Bytes
unfolding set_message_length set_message_type set_message_sequence set_port_id set_command add_flag
new_packet type command sequence pid =
    let d1 = resize (nlmsg_hdrlen + genl_hdrlen) 0 [] in
    let d2 = set_message_length d1 (length d1) in
    let d3 = add_flag d2 nlm_f_request in
    let d4 = set_message_type d3 type in
    let d5 = set_message_sequence d4 sequence in
    let d6 = set_port_id d5 pid in
    let d7 = write_at (nlmsg_hdrlen + 1) (le_bytes 1 1) d6 in set_command d7 command

-- The three tests of `IsValid`, in the order of the code.
unfoldable pub packet_is_valid : Bytes → Bool
packet_is_valid d =
    if ltb (length d) nlmsg_hdrlen
    then false
    else if leb nlmsg_min_type (get_message_type d)
        && (ltb (length d) headers || ltb (get_message_length d) headers)
    then false
    else if get_message_type d == nlmsg_error
        && (ltb (length d) (nlmsg_hdrlen + 4) || ltb (get_message_length d) (nlmsg_hdrlen + 4))
    then false
    else if ltb (length d) (get_message_length d) || ltb (get_message_length d) nlmsg_hdrlen
    then false
    else true

unfoldable pub packet_add_attribute : Bytes → Bytes → Bytes
packet_add_attribute d attribute =
    let d1 = d ++ attribute in set_message_length d1 (get_message_length d1 + length attribute)

unfoldable pub packet_add_flag_attribute : Bytes → ℕ → Bytes
packet_add_flag_attribute d attribute_id =
    let d1 = resize (length d + nla_hdrlen) 0 d in
    let d2 = write_at (length d1 - nla_hdrlen + 2) (le_bytes 2 attribute_id) d1 in
    let d3 = write_at (length d1 - nla_hdrlen) (le_bytes 2 nla_hdrlen) d2 in
    set_message_length d3 (get_message_length d3 + nla_hdrlen)

unfoldable pub packet_has_attribute : Bytes → ℕ → Outcome Bool
packet_has_attribute d id = do found ← attempt (search_behind headers d id); ok (is_found found)

unfoldable pub packet_get_attribute : Bytes → ℕ → Outcome Bytes
packet_get_attribute d id = find_valid headers is_valid d id

unfoldable pub packet_get_int : ℕ → Bytes → ℕ → Outcome ℕ
packet_get_int w d id = do
  attribute ← find_valid headers (int_is_valid w) d id
  ok (int_get_value w attribute)

unfoldable pub packet_get_raw : Bytes → ℕ → Outcome Bytes
packet_get_raw d id = find_valid headers is_valid d id >>= raw_get_value

unfoldable pub packet_get_string : Bytes → ℕ → Outcome Bytes
packet_get_string d id = find_valid headers is_valid d id >>= string_get_value

-- The loop of `GetAllAttributes`. Its output vector keeps what was read before a failure; the one
-- caller drops it then. A length below the header's makes a range that ends before it starts.
unfoldable pub all_attributes : ℕ → Bytes → Outcome (List Bytes)
all_attributes zero buf = hang
all_attributes (suc fuel) buf =
    let n = nla_align (nla_len buf) in
    let rest = all_attributes fuel (drop n buf) in
    let attribute = base_attr (nla_type buf) (drop nla_hdrlen (take (nla_len buf) buf)) in
    let entries = (do attributes ← rest; ok (attribute ∷ attributes)) in
    if ltb (length buf) nla_hdrlen
    then ok []
    else if ltb (length buf) n || nla_len buf == 0
    then fail
    else if ltb (nla_len buf) nla_hdrlen
    then fault
    else entries

-- On fewer bytes than the headers `ptr` starts behind `end_ptr`, and there are no rounds.
unfoldable pub get_all_attributes : Bytes → Outcome (List Bytes)
get_all_attributes d = all_attributes (suc (length d)) (drop headers d)
