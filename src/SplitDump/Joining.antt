-- ===== src/SplitDump/Joining.antt =====
-- What a split dump says, without its packets: attributes under the index of their wiphy.
use platform_system_connecti.Base.{
  ℕ, ◌≡◌, refl, ◌∙◌, ◌&&◌, Option, none, some, List, [], ◌∷◌, ◌++◌, ◌==◌, if◌then◌else◌, arith,
  find, put, find-put, append_assoc, ==_iff, Bool-cases, inl, inr, number_key, append-nil, ==_refl,
}
use platform_system_connecti.Wire.{Bytes}
use platform_system_connecti.Attribute.Search.{Attrs}
use platform_system_connecti.SplitDump.{or_empty}

-- An attribute of a packet of the dump: wiphy index, id and payload.
pub record Piece : Type 0 where
  pub wiphy : ℕ
  pub id : ℕ
  pub payload : Bytes

-- The payloads by wiphy and id, put together.
abbrev pub Table : Type 0
Table = List (ℕ × Attrs)

unfoldable pub payload_at : ℕ → ℕ → Table → Option Bytes
payload_at w i t = find i (or_empty (find w t))

abbrev pub joined : Option Bytes → Bytes → Bytes
joined none p = p
joined (some q) p = q ++ p

unfoldable pub add_piece : Piece → Table → Table
unfolding payload_at
add_piece x t =
    put x.wiphy
      (put x.id (joined (payload_at x.wiphy x.id t) x.payload) (or_empty (find x.wiphy t))) t

unfoldable pub add_pieces : List Piece → Table → Table
unfolding add_piece
add_pieces [] t = t
add_pieces (x ∷ xs) t = add_pieces xs (add_piece x t)

-- The payloads of one wiphy and id one after the other, in the order of the dump; none if there is
-- no such piece.
unfoldable pub collected : ℕ → ℕ → List Piece → Option Bytes
collected w i [] = none
collected w i (x ∷ xs) =
    let rest = collected w i xs in
    if (x.wiphy == w) && (x.id == i)
    then some (x.payload ++ elim rest [ none ↦ [] | some p ↦ p ])
    else rest

pub ==_swap : (a b : ℕ) → (a == b) ≡ (b == a)
==_swap a b = ground arith

payload_at-add_piece :
    (w i : ℕ) (x : Piece) (t : Table)
    → payload_at w i (add_piece x t) ≡ (
        if (x.wiphy == w) && (x.id == i)
        then some (joined (payload_at w i t) x.payload)
        else payload_at w i t)
unfolding payload_at add_piece
payload_at-add_piece w i x t =
    let new = joined (payload_at x.wiphy x.id t) x.payload in
    let m = or_empty (find x.wiphy t) in
    rw (find-put w x.wiphy (put x.id new m) t) (elim (Bool-cases (w == x.wiphy)) [
      | inl e ↦
          let same : w ≡ x.wiphy = (==_iff w x.wiphy).0 e in
          rw (same, ==_refl x.wiphy)
            (rw (find-put i x.id new m) (elim (Bool-cases (i == x.id)) [
              | inl f ↦ let id : i ≡ x.id = (==_iff i x.id).0 f in rw (id, ==_refl x.id)
              | inr f ↦ rw (f, ==_swap x.id i ∙ f)
            ]))
      | inr e ↦ rw (e, ==_swap x.wiphy w ∙ e)
    ])

-- What the table holds for a wiphy and an id is what it held, with the pieces behind it.
abbrev pub behind : Option Bytes → Option Bytes → Option Bytes
behind old none = old
behind none (some p) = some p
behind (some q) (some p) = some (q ++ p)

pub payload_at-add_pieces :
    (w i : ℕ) (xs : List Piece) (t : Table)
    → payload_at w i (add_pieces xs t) ≡ behind (payload_at w i t) (collected w i xs)
unfolding add_pieces collected
payload_at-add_pieces w i [] t = refl
payload_at-add_pieces w i (x ∷ xs) t =
    payload_at-add_pieces w i xs (add_piece x t)
    ∙ rw (payload_at-add_piece w i x t) (elim (Bool-cases ((x.wiphy == w) && (x.id == i))) [
      | inl e ↦ rw e (step (payload_at w i t) x.payload (collected w i xs))
      | inr e ↦ rw e
    ])
  where
    step :
        (old : Option Bytes) (p : Bytes) (rest : Option Bytes)
        → behind (some (joined old p)) rest
          ≡ behind old (some (p ++ elim rest [ none ↦ [] | some r ↦ r ]))
    step none p none = rw (append-nil p)
    step none p (some r) = refl
    step (some q) p none = rw (append-nil p)
    step (some q) p (some r) = rw (append_assoc q p r)
