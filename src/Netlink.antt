-- ===== src/Netlink.antt =====
-- net/netlink_manager.cpp: sequence numbers, and the loop that takes a datagram apart and hands its
-- messages to the handlers. The handlers themselves are a parameter of the rest of the program: the
-- model records which message each was given, the latest last.
pub mod Sequence
pub mod Receive
pub mod Dump
pub mod Requests
pub mod Family
pub mod Starting
pub mod Waiting
pub mod Answers
use platform_system_connecti.Base.{
  ℕ, zero, suc, ◌+◌, ◌-◌, ◌%◌, ◌^◌, Bool, true, false, not, ◌&&◌, ◌||◌, List, [], ◌∷◌, ◌++◌, ltb,
  leb, ◌==◌, if◌then◌else◌, length, take, drop, Outcome, ok, hang, fault, ◌>>=◌,
}
use platform_system_connecti.Wire.{Bytes}
use platform_system_connecti.Packet.{
  nlmsg_hdrlen, nlmsg_done, nlmsg_noop, nlmsg_overrun, get_message_length, get_message_type,
  get_message_sequence, is_multi, packet_is_valid,
}

abbrev pub broadcast_sequence_number : ℕ
broadcast_sequence_number = 0

-- `++sequence_number_` on an `uint32_t`.
abbrev pub increment : ℕ → ℕ
increment n = (n + 1) % 2 ^ 32

unfoldable pub get_sequence_number : ℕ → ℕ
get_sequence_number n =
    if increment n == broadcast_sequence_number then increment (increment n) else increment n

-- `message_handlers_` by its keys, and what the handlers and `BroadcastHandler` were given.
pub record Dispatcher : Type 0 where
  pub message_handlers : List ℕ
  pub delivered : List (ℕ × Bytes)
  pub broadcasts : List Bytes

abbrev pub has_handler : ℕ → List ℕ → Bool
has_handler n [] = false
has_handler n (k ∷ keys) = (k == n) || has_handler n keys

abbrev pub erase : ℕ → List ℕ → List ℕ
erase n [] = []
erase n (k ∷ keys) = let rest = erase n keys in if k == n then rest else k ∷ rest

-- A valid message: the dispatcher behind it, and whether the loop goes on.
unfoldable pub dispatch : Bytes → Dispatcher → Dispatcher × Bool
dispatch packet d =
    let sequence = get_message_sequence packet in
    let type = get_message_type packet in
    let erased = record d { message_handlers = erase sequence d.message_handlers } in
    let handled = record d { delivered = d.delivered ++ ((sequence, packet) ∷ []) } in
    if sequence == broadcast_sequence_number
    then (record d { broadcasts = d.broadcasts ++ (packet ∷ []) }, true)
    else if not (has_handler sequence d.message_handlers)
    then (d, false)
    else if (type == nlmsg_done) || (type == nlmsg_noop)
    then (erased, false)
    else if type == nlmsg_overrun
    then (erased, false)
    else if is_multi packet
    then (handled, true)
    else (record handled { message_handlers = erase sequence d.message_handlers }, true)

-- The loop from `ptr`: the rest of the receive buffer, and how many bytes of it were read. What the
-- buffer holds behind them is left from earlier datagrams.
unfoldable pub receive_loop : ℕ → Bytes → ℕ → Dispatcher → Outcome Dispatcher
receive_loop zero buffer len d = hang
receive_loop (suc fuel) buffer len d =
    let n = get_message_length buffer in
    let packet = take n buffer in
    let (d1, goes_on) = dispatch packet d in
    let next = receive_loop fuel (drop n buffer) (len - n) d1 in
    if leb len 0
    then ok d
    else if ltb len nlmsg_hdrlen
    then ok d
    else if ltb (length buffer) n
    then fault
    else if not (packet_is_valid packet)
    then ok d
    else if goes_on
    then next
    else ok d1

-- `ReceivePacketAndRunHandler` on a datagram of `len` bytes in front of the buffer.
unfoldable pub receive_packets : Bytes → ℕ → Dispatcher → Outcome Dispatcher
receive_packets buffer len d = receive_loop (suc len) buffer len d
