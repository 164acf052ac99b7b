-- ===== src/Netlink/Requests.antt =====
-- net/netlink_manager.cpp: a request on the synchronous socket and the wait for its answers, and the
-- calls that narrow the answers down to one message or to an ACK. What `send`, `poll` and `read` do
-- is an argument: whether the request was sent, and the rounds of the waiting loop in order.
use platform_system_connecti.Base.{
  ℕ, ◌-◌, Bool, true, false, not, ◌||◌, Option, none, some, List, [], ◌∷◌, leb, ◌==◌, if◌then◌else◌,
  length, drop, Outcome, ok, fail, hang, ◌>>=◌, ◌>>◌, guard,
}
use platform_system_connecti.Wire.{Bytes}
use platform_system_connecti.Packet.{
  nlmsg_error, get_message_sequence, get_message_type, get_error_code, is_dump,
}
use platform_system_connecti.Netlink.{Dispatcher, has_handler, erase, receive_packets}

abbrev pub maximum_wait : ℕ
maximum_wait = 300

-- A round of the loop: `poll` returned 0 or -1; or it returned, and so many milliseconds were used up
-- when `read` had returned nothing, or had put a datagram of a length in front of the buffer.
pub data Poll : Type 0 where
  poll_failed : Poll
  nothing_read : ℕ → Poll
  datagram_read : ℕ → Bytes → ℕ → Poll

-- `message_handlers_[sequence] = handler`.
abbrev pub register : ℕ → Dispatcher → Dispatcher
register s d =
    if has_handler s d.message_handlers
    then d
    else record d { message_handlers = s ∷ d.message_handlers }

abbrev pub unregister : ℕ → Dispatcher → Dispatcher
unregister s d = record d { message_handlers = erase s d.message_handlers }

-- The test of the loop.
abbrev pub still_waiting : ℕ → ℕ → Dispatcher → Bool
still_waiting s time d = not (leb time 0 || not (has_handler s d.message_handlers))

-- What stands behind the loop: whether the wait succeeded.
unfoldable pub finish : ℕ → ℕ → Dispatcher → Dispatcher × Bool
finish s time d = if leb time 0 then (unregister s d, false) else (d, true)

-- The loop, with the time that remains. An `int` below 0 counts as 0: it is compared with 0 only.
-- Where the rounds given are used up, the call waits on.
unfoldable pub wait_loop : ℕ → ℕ → Dispatcher → List Poll → Outcome (Dispatcher × Bool)
unfolding finish
wait_loop s time d [] = if still_waiting s time d then hang else ok (finish s time d)
wait_loop s time d (poll_failed ∷ polls) =
    if still_waiting s time d then ok (unregister s d, false) else ok (finish s time d)
wait_loop s time d (nothing_read used ∷ polls) =
    let next = wait_loop s (time - used) d polls in
    if still_waiting s time d then next else ok (finish s time d)
wait_loop s time d (datagram_read used buffer len ∷ polls) =
    let next = (receive_packets buffer len d >>= λ d1. wait_loop s (time - used) d1 polls) in
    if still_waiting s time d then next else ok (finish s time d)

-- What `AppendPacket` put into the response: the messages that the handler was given.
abbrev pub answers : ℕ → List (ℕ × Bytes) → List Bytes
answers s [] = []
answers s ((n, p) ∷ delivered) = let rest = answers s delivered in if n == s then p ∷ rest else rest

-- `SendMessageAndGetResponses`: the dispatcher behind it, and the response if it succeeded.
unfoldable pub send_message_and_get_responses :
    Bool → List Poll → Bytes → Dispatcher → Outcome (Dispatcher × Option (List Bytes))
unfolding wait_loop
send_message_and_get_responses false polls packet d = ok (d, none)
send_message_and_get_responses true polls packet d = do
  let s = get_message_sequence packet
  (d1, success) ← wait_loop s maximum_wait (register s d) polls
  let response = answers s (drop (length d.delivered) d1.delivered)
  ok (d1, if success then some response else none)

-- The next four, on the response of `SendMessageAndGetResponses`, none where that failed.
unfoldable pub single_response_or_error : Option (List Bytes) → Outcome Bytes
single_response_or_error none = fail
single_response_or_error (some []) = fail
single_response_or_error (some (p ∷ [])) = ok p
single_response_or_error (some (p ∷ q ∷ ps)) = fail

unfoldable pub single_response : Option (List Bytes) → Outcome Bytes
unfolding single_response_or_error
single_response response = do
  p ← single_response_or_error response
  guard (not (get_message_type p == nlmsg_error))
  ok p

unfoldable pub ack_or_error : Option (List Bytes) → Outcome ℕ
unfolding single_response_or_error
ack_or_error response = do
  p ← single_response_or_error response
  guard (get_message_type p == nlmsg_error)
  ok (get_error_code p)

unfoldable pub ack : Option (List Bytes) → Outcome (Unit {0})
unfolding ack_or_error
ack response = do error_code ← ack_or_error response; guard (error_code == 0)

-- `RegisterHandlerAndSendMessage`: the dispatcher behind it, and whether it succeeded.
unfoldable pub register_handler_and_send_message : Bool → Bytes → Dispatcher → Dispatcher × Bool
register_handler_and_send_message sent packet d =
    if is_dump packet
    then (d, false)
    else if not sent
    then (d, false)
    else (register (get_message_sequence packet) d, true)
