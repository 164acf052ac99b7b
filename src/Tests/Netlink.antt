-- ===== src/Tests/Netlink.antt =====
-- The theorems on received datagrams, at a dump of one answer under the number 9.
use platform_system_connecti.Base.{ℕ, ◌≡◌, ◌≢◌, refl, [], ◌∷◌, ◌++◌, length, ok, hang}
use platform_system_connecti.Wire.{Bytes, read_le}
use platform_system_connecti.Packet.{
  get_message_length, get_message_type, get_message_sequence, get_flags, is_multi, packet_is_valid,
}
use platform_system_connecti.Netlink.{Dispatcher, receive_packets}
use platform_system_connecti.Netlink.Receive.{IsMessage, datagram}
use platform_system_connecti.Netlink.Dump.{IsPart, receive_packets-ends, receive_packets-dump}

-- A header of a length, a type, flags and a sequence number, each in its low byte.
abbrev pub header : ℕ → ℕ → ℕ → ℕ → Bytes
header len type flags sequence =
    len ∷ 0 ∷ 0 ∷ 0 ∷ type ∷ 0 ∷ flags ∷ 0 ∷ sequence ∷ 0 ∷ 0 ∷ 0 ∷ 0 ∷ 0 ∷ 0 ∷ 0 ∷ []

abbrev pub part : Bytes
part = header 20 28 2 9 ++ (34 ∷ 1 ∷ 0 ∷ 0 ∷ [])

abbrev pub done_message : Bytes
done_message = header 16 3 2 9

pub part-IsMessage : IsMessage part
unfolding packet_is_valid get_message_length get_message_type read_le
part-IsMessage = record { valid = refl; counted = refl }

pub done-IsMessage : IsMessage done_message
unfolding packet_is_valid get_message_length get_message_type read_le
done-IsMessage = record { valid = refl; counted = refl }

pub part-IsPart : IsPart 9 part
unfolding is_multi get_flags get_message_type get_message_sequence read_le
part-IsPart = record {
  numbered = refl;
  multi = refl;
  not_done = refl;
  not_noop = refl;
  not_overrun = refl;
}

abbrev waiting : Dispatcher
waiting = record { message_handlers = 9 ∷ 4 ∷ []; delivered = []; broadcasts = [] }

receive_packets-dump_example :
    receive_packets
      (datagram (part ∷ done_message ∷ []) ++ (1 ∷ 2 ∷ []))
      (length (datagram (part ∷ done_message ∷ [])))
      waiting
    ≡ ok (record { message_handlers = 4 ∷ []; delivered = (9, part) ∷ []; broadcasts = [] })
unfolding get_message_sequence get_message_type read_le
receive_packets-dump_example =
    receive_packets-dump 9 (part ∷ []) done_message [] (1 ∷ 2 ∷ []) waiting
      (part-IsMessage, (done-IsMessage, tt)) (part-IsPart, tt) refl refl refl refl

receive_packets-ends_example : receive_packets (0 ∷ 0 ∷ 0 ∷ 0 ∷ []) 4 waiting ≢ hang
receive_packets-ends_example = receive_packets-ends (0 ∷ 0 ∷ 0 ∷ 0 ∷ []) 4 waiting
