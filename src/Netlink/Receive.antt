-- ===== src/Netlink/Receive.antt =====
-- A datagram of whole messages, and a dump that the kernel answers in several of them.
use platform_system_connecti.Base.{
  ℕ, zero, suc, ◌+◌, ◌-◌, ◌≤◌, ◌<◌, ◌≡◌, refl, ◌∙◌, true, false, List, [], ◌∷◌, ◌++◌, leb,
  if◌then◌else◌, length, take-append, drop-append, length-append, append_assoc, ok, arith,
  le→ltb-false, Bool-cases, inl, inr,
}
use platform_system_connecti.Wire.{Bytes, read_le_appended}
use platform_system_connecti.Packet.{nlmsg_hdrlen, get_message_length, packet_is_valid}
use platform_system_connecti.Packet.Validity.{is_valid_iff}
use platform_system_connecti.Netlink.{Dispatcher, dispatch, receive_loop, receive_packets}

-- A message as the kernel puts it in a datagram: valid, and as long as it says.
pub record IsMessage (p : Bytes) : Type 0 where
  pub valid : packet_is_valid p ≡ true
  pub counted : get_message_length p ≡ length p

abbrev pub AllMessages : List Bytes → Type 0
AllMessages [] = Unit {0}
AllMessages (p ∷ ps) = IsMessage p × AllMessages ps

unfoldable pub datagram : List Bytes → Bytes
datagram [] = []
datagram (p ∷ ps) = p ++ datagram ps

-- The messages one after the other, up to one that ends the loop.
unfoldable pub run : List Bytes → Dispatcher → Dispatcher
run [] d = d
run (p ∷ ps) d =
    let rest = run ps (dispatch p d).0 in if (dispatch p d).1 then rest else (dispatch p d).0

has_header : (p : Bytes) → IsMessage p → nlmsg_hdrlen ≤ length p
has_header p m = omega (arith, ((is_valid_iff p).0 m.valid).netlink, m.counted)

message_length-append : (p rest : Bytes) → IsMessage p → get_message_length (p ++ rest) ≡ length p
unfolding get_message_length
message_length-append p rest m =
    read_le_appended 4 0 p rest (omega (arith, has_header p m)) ∙ m.counted

more_than : (a b : ℕ) → b < a → leb a b ≡ false
more_than a b h = ground arith

loop-message :
    (f : ℕ) (p rest : Bytes) (k : ℕ) (d : Dispatcher)
    → IsMessage p
    → receive_loop (suc f) (p ++ rest) (length p + k) d
      ≡ (if (dispatch p d).1 then receive_loop f rest k (dispatch p d).0 else ok (dispatch p d).0)
unfolding receive_loop
loop-message f p rest k d m =
    let long = has_header p m in
    let size = length-append p rest in
    let left : length p + k - length p ≡ k = omega arith in
    rw
      (
        message_length-append p rest m,
        take-append (length p) p rest refl,
        drop-append (length p) p rest refl,
        left,
        m.valid,
        more_than (length p + k) 0 (omega (arith, long)),
        le→ltb-false (length p + k) nlmsg_hdrlen (omega (arith, long)),
        le→ltb-false (length (p ++ rest)) (length p) (omega (arith, size)),
      )
      refl

loop-run :
    (f : ℕ) (ps : List Bytes) (stale : Bytes) (d : Dispatcher)
    → AllMessages ps
    → length (datagram ps) < f
    → receive_loop f (datagram ps ++ stale) (length (datagram ps)) d ≡ ok (run ps d)
unfolding datagram run
loop-run zero ps stale d m h = absurd (omega arith)
loop-run (suc f) [] stale d m h = unfold receive_loop in refl
loop-run (suc f) (p ∷ ps) stale d (m, ms) h =
    let size = length-append p (datagram ps) in
    let long = has_header p m in
    let rest = loop-run f ps stale (dispatch p d).0 ms (omega (arith, size, long)) in
    rw
      (
        append_assoc p (datagram ps) stale,
        size,
        loop-message f p (datagram ps ++ stale) (length (datagram ps)) d m,
      )
      (elim (Bool-cases (dispatch p d).1) [ inl on ↦ rw on rest | inr off ↦ rw off refl ])

-- A datagram of whole valid messages is taken apart at their bounds, whatever the buffer holds
-- behind it: the messages are handed on in their order, up to one that ends the loop.
pub receive_packets-run :
    (ps : List Bytes) (stale : Bytes) (d : Dispatcher)
    → AllMessages ps
    → receive_packets (datagram ps ++ stale) (length (datagram ps)) d ≡ ok (run ps d)
unfolding receive_packets
receive_packets-run ps stale d m = loop-run (suc (length (datagram ps))) ps stale d m (omega arith)
