-- ===== src/Netlink/Dump.antt =====
-- The answers of a dump, and the end of the loop on any bytes.
use platform_system_connecti.Base.{
  ℕ, zero, suc, ◌-◌, ◌<◌, ◌≡◌, ◌≢◌, true, false, List, [], ◌∷◌, ◌++◌, ◌==◌, map, take, drop,
  length-take, append_assoc, append-nil, hang, arith, ap, ◌∙◌, ok, length,
}
use platform_system_connecti.Wire.{Bytes}
use platform_system_connecti.Packet.{
  nlmsg_done, nlmsg_noop, nlmsg_overrun, get_message_length, get_message_type, get_message_sequence,
  is_multi, packet_is_valid,
}
use platform_system_connecti.Packet.Validity.{is_valid_iff}
use platform_system_connecti.Netlink.{
  broadcast_sequence_number, Dispatcher, has_handler, erase, dispatch, receive_loop,
  receive_packets,
}
use platform_system_connecti.Netlink.Receive.{run, AllMessages, datagram, receive_packets-run}

valid_size : (n : ℕ) (buffer : Bytes) → packet_is_valid (take n buffer) ≡ true → 0 < n
valid_size n buffer v =
    let r = (is_valid_iff (take n buffer)).0 v in
    omega (arith, r.netlink, r.complete, length-take n buffer)

loop-ends :
    (f : ℕ) (buffer : Bytes) (len : ℕ) (d : Dispatcher)
    → len < f
    → receive_loop f buffer len d ≢ hang
unfolding receive_loop
loop-ends zero buffer len d h = absurd (omega arith)
loop-ends (suc f) buffer len d h =
    let n = get_message_length buffer in
    let next = loop-ends f (drop n buffer) (len - n) (dispatch (take n buffer) d).0 in
    ground (arith, next, valid_size n buffer)

-- The loop over a datagram ends on all bytes.
pub receive_packets-ends :
    (buffer : Bytes) (len : ℕ) (d : Dispatcher) → receive_packets buffer len d ≢ hang
unfolding receive_packets
receive_packets-ends buffer len d = loop-ends (suc len) buffer len d (omega arith)

-- A message of a dump under the request's number that holds an answer.
pub record IsPart (s : ℕ) (p : Bytes) : Type 0 where
  pub numbered : get_message_sequence p ≡ s
  pub multi : is_multi p ≡ true
  pub not_done : (get_message_type p == nlmsg_done) ≡ false
  pub not_noop : (get_message_type p == nlmsg_noop) ≡ false
  pub not_overrun : (get_message_type p == nlmsg_overrun) ≡ false

abbrev pub AllParts : ℕ → List Bytes → Type 0
AllParts s [] = Unit {0}
AllParts s (p ∷ ps) = IsPart s p × AllParts s ps

pub dispatch-part :
    (s : ℕ) (p : Bytes) (d : Dispatcher)
    → IsPart s p
    → (s == broadcast_sequence_number) ≡ false
    → has_handler s d.message_handlers ≡ true
    → dispatch p d ≡ (record d { delivered = d.delivered ++ ((s, p) ∷ []) }, true)
unfolding dispatch
dispatch-part s p d part own waiting =
    simp (part.numbered, own, waiting, part.not_done, part.not_noop, part.not_overrun, part.multi)

dispatch-done :
    (s : ℕ) (p : Bytes) (d : Dispatcher)
    → get_message_sequence p ≡ s
    → get_message_type p ≡ nlmsg_done
    → (s == broadcast_sequence_number) ≡ false
    → has_handler s d.message_handlers ≡ true
    → dispatch p d ≡ (record d { message_handlers = erase s d.message_handlers }, false)
unfolding dispatch
dispatch-done s p d numbered done own waiting = simp (numbered, own, waiting, done)

-- The messages of a dump under the request's number, with DONE behind them: the handler gets each of
-- them, in order and nothing else, and is removed. What stands behind DONE is not looked at.
pub run-dump :
    (s : ℕ) (parts : List Bytes) (done : Bytes) (behind : List Bytes) (d : Dispatcher)
    → AllParts s parts
    → get_message_sequence done ≡ s
    → get_message_type done ≡ nlmsg_done
    → (s == broadcast_sequence_number) ≡ false
    → has_handler s d.message_handlers ≡ true
    → run (parts ++ (done ∷ behind)) d ≡ record d {
      message_handlers = erase s d.message_handlers;
      delivered = d.delivered ++ map (λ p. (s, p)) parts;
    }
unfolding run
run-dump s [] done behind d parts numbered ends own waiting =
    simp (dispatch-done s done d numbered ends own waiting, append-nil d.delivered)
run-dump s (p ∷ ps) done behind d (part, parts) numbered ends own waiting =
    let d1 : Dispatcher = record d { delivered = d.delivered ++ ((s, p) ∷ []) } in
    let rest = run-dump s ps done behind d1 parts numbered ends own waiting in
    simp (
      dispatch-part s p d part own waiting,
      rest,
      append_assoc d.delivered ((s, p) ∷ []) (map (λ p. (s, p)) ps),
    )

-- A datagram that holds all answers of a dump and the DONE behind them, each a whole message under
-- the number of a request that waits: its handler gets each of the answers, in order and nothing
-- else, and is removed. What stands behind DONE in the datagram is not looked at.
pub receive_packets-dump :
    (s : ℕ) (parts : List Bytes) (done : Bytes) (behind : List Bytes) (stale : Bytes)
    (d : Dispatcher)
    → AllMessages (parts ++ (done ∷ behind))
    → AllParts s parts
    → get_message_sequence done ≡ s
    → get_message_type done ≡ nlmsg_done
    → (s == broadcast_sequence_number) ≡ false
    → has_handler s d.message_handlers ≡ true
    → receive_packets
        (datagram (parts ++ (done ∷ behind)) ++ stale)
        (length (datagram (parts ++ (done ∷ behind))))
        d
      ≡ ok (record d {
        message_handlers = erase s d.message_handlers;
        delivered = d.delivered ++ map (λ p. (s, p)) parts;
      })
receive_packets-dump s parts done behind stale d whole answers numbered ends own waiting =
    receive_packets-run (parts ++ (done ∷ behind)) stale d whole
    ∙ ap ok (run-dump s parts done behind d answers numbered ends own waiting)
