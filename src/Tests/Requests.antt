-- ===== src/Tests/Requests.antt =====
-- The theorems on requests, at a request under the number 9 whose answers come in two datagrams.
use platform_system_connecti.Base.{
  ◌≡◌, ◌≢◌, refl, true, false, some, none, [], ◌∷◌, ok, hang, arith, Ends, ◌>>=◌,
}
use platform_system_connecti.Wire.{Bytes, read_le}
use platform_system_connecti.Packet.{get_message_sequence, get_message_type}
use platform_system_connecti.Netlink.{Dispatcher, has_handler}
use platform_system_connecti.Netlink.Requests.{
  poll_failed, nothing_read, send_message_and_get_responses,
}
use platform_system_connecti.Netlink.Waiting.{send_message-unregistered, send_message-ends}
use platform_system_connecti.Netlink.Answers.{Round, poll_of, send_message-dump}
use platform_system_connecti.Netlink.Family.{Manager, start}
use platform_system_connecti.Netlink.Starting.{start-started}
use platform_system_connecti.Tests.Netlink.{
  header, part, done_message, part-IsMessage, done-IsMessage, part-IsPart,
}

abbrev sent_packet : Bytes
sent_packet = header 16 28 1 9

abbrev idle : Dispatcher
idle = record { message_handlers = 4 ∷ []; delivered = (4, []) ∷ []; broadcasts = [] }

abbrev first_round : Round
first_round = record { used = 100; messages = part ∷ []; stale = 7 ∷ [] }

abbrev last_round : Round
last_round = record { used = 50; messages = part ∷ done_message ∷ []; stale = [] }

send_message-dump_example :
    (send_message_and_get_responses true
        (poll_of first_round ∷ poll_of last_round ∷ [])
        sent_packet
        idle
      >>= λ r. ok r.1)
    ≡ ok (some (part ∷ part ∷ []))
unfolding get_message_sequence get_message_type read_le
send_message-dump_example =
    send_message-dump 9 refl 50 [] (part ∷ []) done_message []
      (part-IsMessage, (done-IsMessage, tt)) (part-IsPart, tt) refl refl (first_round ∷ [])
      sent_packet idle [] refl ((part-IsMessage, tt), (part-IsPart, tt), tt) (omega arith)

-- The poll fails: there is no response, and no handler either.
failed : send_message_and_get_responses true (poll_failed ∷ []) sent_packet idle ≡ ok (idle, none)
unfolding send_message_and_get_responses get_message_sequence read_le
failed = refl

send_message-unregistered_example :
    has_handler (get_message_sequence sent_packet) idle.message_handlers ≡ false
send_message-unregistered_example =
    send_message-unregistered (poll_failed ∷ []) sent_packet idle idle none failed

send_message-ends_example :
    send_message_and_get_responses true (nothing_read 200 ∷ nothing_read 100 ∷ []) sent_packet idle
    ≢ hang
send_message-ends_example =
    send_message-ends true (nothing_read 200 ∷ nothing_read 100 ∷ []) sent_packet idle (omega arith)

abbrev idle_manager : Manager
idle_manager = record { started = false; message_types = []; calls = [] }

start-started_example : Ends (λ r. r.0.started ≡ r.1) (start (λ c. true) none idle_manager)
start-started_example = start-started (λ c. true) none idle_manager
