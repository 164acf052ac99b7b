-- ===== src/Netlink/Answers.antt =====
-- A dump whose answers come in several datagrams, as its caller receives it.
use platform_system_connecti.Base.{
  ℕ, ◌+◌, ◌-◌, ◌<◌, ◌≡◌, refl, ap, sym, ◌∙◌, true, false, some, List, [], ◌∷◌, ◌++◌, map,
  append_assoc, append-nil, ◌==◌, length, drop-append, ok, ◌>>=◌, arith, ==_refl, Bool-cases, inl,
  inr,
}
use platform_system_connecti.Wire.{Bytes}
use platform_system_connecti.Packet.{get_message_sequence, get_message_type, nlmsg_done}
use platform_system_connecti.Netlink.{broadcast_sequence_number, Dispatcher, has_handler, erase}
use platform_system_connecti.Netlink.Receive.{run, AllMessages, datagram, receive_packets-run}
use platform_system_connecti.Netlink.Dump.{AllParts, dispatch-part, receive_packets-dump}
use platform_system_connecti.Netlink.Waiting.{erase-gone}
use platform_system_connecti.Netlink.Requests.{
  maximum_wait, Poll, poll_failed, nothing_read, datagram_read, register, still_waiting, finish,
  wait_loop, answers, send_message_and_get_responses,
}

-- Time used, whole messages, and what the buffer holds behind them.
pub record Round : Type 0 where
  pub used : ℕ
  pub messages : List Bytes
  pub stale : Bytes

unfoldable pub poll_of : Round → Poll
poll_of r = datagram_read r.used (datagram r.messages ++ r.stale) (length (datagram r.messages))

-- The rounds that bring answers, and the last one, with DONE behind its answers.
abbrev pub AllRounds : ℕ → List Round → Type 0
AllRounds s [] = Unit {0}
AllRounds s (r ∷ rounds) = AllMessages r.messages × AllParts s r.messages × AllRounds s rounds

abbrev pub total_used : List Round → ℕ
total_used [] = 0
total_used (r ∷ rounds) = r.used + total_used rounds

abbrev pub all_messages : List Round → List Bytes
all_messages [] = []
all_messages (r ∷ rounds) = r.messages ++ all_messages rounds

run-parts :
    (s : ℕ) (parts : List Bytes) (d : Dispatcher)
    → AllParts s parts
    → (s == broadcast_sequence_number) ≡ false
    → has_handler s d.message_handlers ≡ true
    → run parts d ≡ record d { delivered = d.delivered ++ map (λ p. (s, p)) parts }
unfolding run
run-parts s [] d parts own waiting = rw (append-nil d.delivered)
run-parts s (p ∷ ps) d (part, parts) own waiting =
    let d1 : Dispatcher = record d { delivered = d.delivered ++ ((s, p) ∷ []) } in
    simp (
      dispatch-part s p d part own waiting,
      run-parts s ps d1 parts own waiting,
      append_assoc d.delivered ((s, p) ∷ []) (map (λ p. (s, p)) ps),
    )

map-append :
    (s : ℕ) (ps qs : List Bytes)
    → map {B = ℕ × Bytes} (λ p. (s, p)) (ps ++ qs) ≡ map (λ p. (s, p)) ps ++ map (λ p. (s, p)) qs
map-append s [] qs = refl
map-append s (p ∷ ps) qs = ap (◌∷◌ (s, p)) (map-append s ps qs)

answers-map : (s : ℕ) (ps : List Bytes) → answers s (map (λ p. (s, p)) ps) ≡ ps
answers-map s [] = refl
answers-map s (p ∷ ps) = rw (==_refl s) (ap (◌∷◌ p) (answers-map s ps))

waiting-on :
    (s time : ℕ) (d : Dispatcher)
    → 0 < time
    → has_handler s d.message_handlers ≡ true
    → still_waiting s time d ≡ true
waiting-on s time d h e = ground arith

registered : (s : ℕ) (d : Dispatcher) → has_handler s (register s d).message_handlers ≡ true
registered s d = elim (Bool-cases (has_handler s d.message_handlers)) [
  | inl old ↦ rw (old, old)
  | inr new ↦ rw (new, ==_refl s)
]

kept : (s : ℕ) (d : Dispatcher) → (register s d).delivered ≡ d.delivered
kept s d = elim (Bool-cases (has_handler s d.message_handlers)) [
  | inl old ↦ rw old
  | inr new ↦ rw new
]

wait_done :
    (s time : ℕ) (d : Dispatcher) (polls : List Poll)
    → still_waiting s time d ≡ false
    → wait_loop s time d polls ≡ ok (finish s time d)
unfolding wait_loop
wait_done s time d [] e = rw e
wait_done s time d (poll_failed ∷ polls) e = rw e
wait_done s time d (nothing_read used ∷ polls) e = rw e
wait_done s time d (datagram_read used buffer len ∷ polls) e = rw e

answered :
    (s time : ℕ) (d : Dispatcher)
    → 0 < time
    → has_handler s d.message_handlers ≡ false
    → (still_waiting s time d ≡ false) × (finish s time d ≡ (d, true))
unfolding finish
answered s time d h e = (ground arith, ground arith)

-- The dispatcher when the handler was given these messages and is gone.
abbrev after : ℕ → List Bytes → Dispatcher → Dispatcher
after s ps d = record d {
  message_handlers = erase s d.message_handlers;
  delivered = d.delivered ++ map (λ p. (s, p)) ps;
}

after-after :
    (s : ℕ) (ps qs rs : List Bytes) (d : Dispatcher)
    → after s (qs ++ rs) (record d { delivered = d.delivered ++ map (λ p. (s, p)) ps })
      ≡ after s ((ps ++ qs) ++ rs) d
after-after s ps qs rs d =
    let e : (d.delivered ++ map {B = ℕ × Bytes} (λ p. (s, p)) ps) ++ map (λ p. (s, p)) (qs ++ rs)
        ≡ d.delivered ++ map (λ p. (s, p)) ((ps ++ qs) ++ rs) =
      append_assoc d.delivered (map (λ p. (s, p)) ps) (map (λ p. (s, p)) (qs ++ rs))
      ∙ ap (λ t. d.delivered ++ t) (sym (map-append s ps (qs ++ rs)))
      ∙ ap (λ t. d.delivered ++ map (λ p. (s, p)) t) (sym (append_assoc ps qs rs)) in
    λ i. record d { message_handlers = erase s d.message_handlers; delivered = e i }

module _ (s : ℕ) (own : (s == broadcast_sequence_number) ≡ false) (used : ℕ) (stale : Bytes)
    (parts : List Bytes) (done : Bytes) (behind : List Bytes)
    (whole : AllMessages (parts ++ (done ∷ behind))) (all : AllParts s parts)
    (numbered : get_message_sequence done ≡ s) (ends : get_message_type done ≡ nlmsg_done) where
  abbrev pub last : Round
  last = record { used = used; messages = parts ++ (done ∷ behind); stale = stale }

  wait_loop-last :
      (time : ℕ) (d : Dispatcher) (later : List Poll)
      → used < time
      → has_handler s d.message_handlers ≡ true
      → wait_loop s time d (poll_of last ∷ later) ≡ ok (after s parts d, true)
  unfolding wait_loop poll_of
  wait_loop-last time d later h waiting =
      let (stops, result) =
        answered s (time - used) (after s parts d) (omega arith)
          (erase-gone s d.message_handlers) in
      rw
        (
          waiting-on s time d (omega arith) waiting,
          receive_packets-dump s parts done behind stale d whole all numbered ends own waiting,
        )
        (wait_done s (time - used) (after s parts d) later stops ∙ ap ok result)

  wait_loop-rounds :
      (rounds : List Round) (time : ℕ) (d : Dispatcher) (later : List Poll)
      → AllRounds s rounds
      → total_used rounds + used < time
      → has_handler s d.message_handlers ≡ true
      → wait_loop s time d (map poll_of rounds ++ (poll_of last ∷ later))
        ≡ ok (after s (all_messages rounds ++ parts) d, true)
  unfolding wait_loop poll_of
  wait_loop-rounds [] time d later h less waiting =
      wait_loop-last time d later (omega arith) waiting
  wait_loop-rounds (r ∷ rounds) time d later (m, p, h) less waiting =
      rw
        (
          waiting-on s time d (omega arith) waiting,
          receive_packets-run r.messages r.stale d m,
          run-parts s r.messages d p own waiting,
        )
        (wait_loop-rounds rounds (time - r.used)
            (record d { delivered = d.delivered ++ map (λ p. (s, p)) r.messages }) later h
            (omega arith) waiting
          ∙ ap (λ (t : Dispatcher). ok (t, true))
              (after-after s r.messages (all_messages rounds) parts d))

  -- Answers to a request that was sent, in several datagrams, the last with DONE behind its answers,
  -- all of whole messages under the number of the request, which is not that of broadcasts, and all
  -- within the time limit: the response is the messages of all of them, in order and nothing else.
  pub send_message-dump :
      (rounds : List Round) (packet : Bytes) (d : Dispatcher) (later : List Poll)
      → get_message_sequence packet ≡ s
      → AllRounds s rounds
      → total_used rounds + used < maximum_wait
      → (send_message_and_get_responses true (map poll_of rounds ++ (poll_of last ∷ later)) packet d
          >>= λ r. ok r.1)
        ≡ ok (some (all_messages rounds ++ parts))
  unfolding send_message_and_get_responses
  send_message-dump rounds packet d later e h less =
      let ps = all_messages rounds ++ parts in
      rw (
        e,
        wait_loop-rounds rounds maximum_wait (register s d) later h less (registered s d),
        kept s d,
        drop-append (length d.delivered) d.delivered (map (λ p. (s, p)) ps) refl,
        answers-map s ps,
      )
