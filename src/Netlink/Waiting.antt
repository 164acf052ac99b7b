-- ===== src/Netlink/Waiting.antt =====
-- What a request on the synchronous socket returns, and what it leaves behind.
use platform_system_connecti.Netlink.Dump.{receive_packets-ends}
use platform_system_connecti.Base.{
  Outcome, Ends, any, Ends-bind, Ends-test, Ends-ok, ℕ, ◌-◌, ◌≡◌, refl, Bool, true, false, Option,
  List, [], ◌∷◌, ok, arith, hang, fail, fault, ◌>>=◌, ◌≢◌, ◌≤◌, ◌+◌, if◌then◌else◌,
}
use platform_system_connecti.Wire.{Bytes}
use platform_system_connecti.Packet.{get_message_sequence}
use platform_system_connecti.Netlink.{Dispatcher, has_handler, erase, receive_packets}
use platform_system_connecti.Netlink.Requests.{
  maximum_wait, Poll, poll_failed, nothing_read, datagram_read, register, still_waiting, finish,
  wait_loop, send_message_and_get_responses,
}

pub erase-gone : (s : ℕ) (ks : List ℕ) → has_handler s (erase s ks) ≡ false
erase-gone s [] = refl
erase-gone s (k ∷ ks) = ground (arith, erase-gone s ks)

-- Behind the loop the number has no handler.
abbrev Unregistered : ℕ → Dispatcher × Bool → Type 0
Unregistered s (d, b) = has_handler s d.message_handlers ≡ false

finish-Unregistered :
    (s time : ℕ) (d : Dispatcher)
    → still_waiting s time d ≡ false
    → Unregistered s (finish s time d)
unfolding finish
finish-Unregistered s time d h = ground (arith, erase-gone s d.message_handlers)

wait_loop-Unregistered :
    (s time : ℕ) (d : Dispatcher) (polls : List Poll)
    → Ends (Unregistered s) (wait_loop s time d polls)
unfolding wait_loop
wait_loop-Unregistered s time d [] =
    Ends-test (Unregistered s) (still_waiting s time d) _ _ tt (finish-Unregistered s time d)
wait_loop-Unregistered s time d (poll_failed ∷ polls) =
    Ends-test (Unregistered s) (still_waiting s time d) _ _ (erase-gone s d.message_handlers)
      (finish-Unregistered s time d)
wait_loop-Unregistered s time d (nothing_read used ∷ polls) =
    Ends-test (Unregistered s) (still_waiting s time d) _ _
      (wait_loop-Unregistered s (time - used) d polls) (finish-Unregistered s time d)
wait_loop-Unregistered s time d (datagram_read used buffer len ∷ polls) =
    Ends-test (Unregistered s) (still_waiting s time d) _ _
      (Ends-bind (λ d1. Unit {0}) (Unregistered s) (receive_packets buffer len d) _ (any _)
        (λ d1 h. wait_loop-Unregistered s (time - used) d1 polls))
      (finish-Unregistered s time d)

-- However the wait for the answers of a request that was sent goes, once the call has returned the
-- number of the request has no handler: none that appends to the caller's response stays behind.
pub send_message-unregistered :
    (polls : List Poll) (packet : Bytes) (d d1 : Dispatcher) (response : Option (List Bytes))
    → send_message_and_get_responses true polls packet d ≡ ok (d1, response)
    → has_handler (get_message_sequence packet) d1.message_handlers ≡ false
unfolding send_message_and_get_responses
send_message-unregistered polls packet d d1 response e =
    let s = get_message_sequence packet in
    Ends-ok (λ r. has_handler s r.0.message_handlers ≡ false) _ (d1, response)
      (Ends-bind (Unregistered s) _ (wait_loop s maximum_wait (register s d) polls) _
        (wait_loop-Unregistered s maximum_wait (register s d) polls) (λ r h. h))
      e

abbrev pub time_of : List Poll → ℕ
time_of [] = 0
time_of (poll_failed ∷ polls) = time_of polls
time_of (nothing_read used ∷ polls) = used + time_of polls
time_of (datagram_read used buffer len ∷ polls) = used + time_of polls

bind-ends :
    {A B : Type 0} (m : Outcome A) (f : A → Outcome B)
    → m ≢ hang
    → ((a : A) → f a ≢ hang)
    → (m >>= f) ≢ hang
bind-ends (ok a) f h k = k a
bind-ends fail f h k = λ e. cc
bind-ends hang f h k = λ e. h refl
bind-ends fault f h k = λ e. cc

if-ends :
    (b : Bool) (x : Outcome (Dispatcher × Bool)) (y : Dispatcher × Bool)
    → x ≢ hang
    → (if b then x else ok y) ≢ hang
if-ends true x y h = h
if-ends false x y h = λ e. cc

wait_loop-ends :
    (s time : ℕ) (d : Dispatcher) (polls : List Poll)
    → time ≤ time_of polls
    → wait_loop s time d polls ≢ hang
unfolding wait_loop
wait_loop-ends s time d [] h = λ e. ground arith
wait_loop-ends s time d (poll_failed ∷ polls) h = if-ends (still_waiting s time d) _ _ (λ e. cc)
wait_loop-ends s time d (nothing_read used ∷ polls) h =
    if-ends (still_waiting s time d) _ _ (wait_loop-ends s (time - used) d polls (omega arith))
wait_loop-ends s time d (datagram_read used buffer len ∷ polls) h =
    if-ends (still_waiting s time d) _ _ (
      bind-ends (receive_packets buffer len d) _ (receive_packets-ends buffer len d)
        (λ d1. wait_loop-ends s (time - used) d1 polls (omega arith)))

-- The wait for answers ends when the rounds of its loop have used up the time limit, whatever the
-- datagrams hold.
pub send_message-ends :
    (sent : Bool) (polls : List Poll) (packet : Bytes) (d : Dispatcher)
    → maximum_wait ≤ time_of polls
    → send_message_and_get_responses sent polls packet d ≢ hang
unfolding send_message_and_get_responses
send_message-ends false polls packet d h = λ e. cc
send_message-ends true polls packet d h =
    let s = get_message_sequence packet in
    bind-ends (wait_loop s maximum_wait (register s d) polls) _
      (wait_loop-ends s maximum_wait (register s d) polls h) (λ r e. cc)
