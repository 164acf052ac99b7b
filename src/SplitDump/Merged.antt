-- ===== src/SplitDump/Merged.antt =====
-- The merging of a split dump gives one packet for each wiphy, with the pieces put together.
use platform_system_connecti.Attribute.Fields.{get_attribute_id-base_attr}
use platform_system_connecti.Base.{
  ℕ, ◌<◌, ◌≡◌, refl, ap, Bool, true, false, Option, none, some, List, [], ◌∷◌, ◌++◌, map,
  if◌then◌else◌, find, put, number_key, each, find-each, put-each, Bool-cases, Option-cases, inl,
  inr, ok,
}
use platform_system_connecti.Wire.{Bytes}
use platform_system_connecti.Attribute.{base_attr}
use platform_system_connecti.Attribute.Layout.{Fits}
use platform_system_connecti.Attribute.Search.{Attrs, AllFit}
use platform_system_connecti.Attribute.Merging.{merge-base_attr}
use platform_system_connecti.SplitDump.{
  WiphyMap, AttributeMap, is_merged, or_empty, insert_or_merge, add_to_wiphy, add_attributes,
}
use platform_system_connecti.SplitDump.Joining.{
  Piece, Table, joined, payload_at, add_piece, add_pieces,
}

-- The attributes that stand for payloads, and the maps that stand for a table.
unfoldable pub attributes_of : Attrs → AttributeMap
attributes_of = each base_attr

unfoldable pub map_of : Table → WiphyMap
unfolding attributes_of
map_of = each (λ w. attributes_of)

unfoldable pub FitsIn : Option Bytes → Type 0
FitsIn none = Unit {0}
FitsIn (some q) = Fits q

insert_or_merge-attributes_of :
    (id : ℕ) (p : Bytes) (m : Attrs) (old : Option Bytes)
    → id < 65536
    → Fits p
    → FitsIn old
    → insert_or_merge id
        (base_attr id p)
        (elim old [ none ↦ none | some q ↦ some (base_attr id q) ])
        (attributes_of m)
      ≡ ok (attributes_of (put id (joined old p) m))
unfolding insert_or_merge attributes_of FitsIn
insert_or_merge-attributes_of id p m none small fits f = ap ok (put-each base_attr id p m)
insert_or_merge-attributes_of id p m (some q) small fits f =
    rw (merge-base_attr id q p small f fits) (ap ok (put-each base_attr id (q ++ p) m))

or_empty-map_of :
    (w : ℕ) (t : Table) → or_empty (find w (map_of t)) ≡ attributes_of (or_empty (find w t))
unfolding map_of attributes_of
or_empty-map_of w t = elim (Option-cases (find w t)) [
  | inl e ↦ rw (find-each (λ w. attributes_of) w t, e)
  | inr (m, e) ↦ rw (find-each (λ w. attributes_of) w t, e)
]

find-attributes_of :
    (i : ℕ) (m : Attrs)
    → find i (attributes_of m) ≡ elim (find i m) [ none ↦ none | some q ↦ some (base_attr i q) ]
unfolding attributes_of
find-attributes_of i m = find-each base_attr i m

put-map_of :
    (w : ℕ) (m : Attrs) (t : Table) → put w (attributes_of m) (map_of t) ≡ map_of (put w m t)
unfolding map_of
put-map_of w m t = put-each (λ w. attributes_of) w m t

add_to_wiphy-map_of :
    (x : Piece) (t : Table)
    → x.id < 65536
    → Fits x.payload
    → FitsIn (payload_at x.wiphy x.id t)
    → add_to_wiphy x.wiphy x.id (base_attr x.id x.payload) (map_of t) ≡ ok (map_of (add_piece x t))
unfolding add_to_wiphy add_piece payload_at
add_to_wiphy-map_of x t small fits f =
    let m = or_empty (find x.wiphy t) in
    rw
      (
        or_empty-map_of x.wiphy t,
        find-attributes_of x.id m,
        insert_or_merge-attributes_of x.id x.payload m (find x.id m) small fits f,
      )
      (ap ok (put-map_of x.wiphy (put x.id (joined (find x.id m) x.payload) m) t))

-- Each payload that the pieces are put together to, on the way, fits an attribute.
unfoldable pub AllJoinsFit : List Piece → Table → Type 0
unfolding FitsIn
AllJoinsFit [] t = Unit {0}
AllJoinsFit (x ∷ xs) t = FitsIn (payload_at x.wiphy x.id t) × AllJoinsFit xs (add_piece x t)

-- The attributes of a packet that are merged, in front of other pieces.
unfoldable pub pieces_of : ℕ → Attrs → List Piece → List Piece
pieces_of w [] more = more
pieces_of w ((i, p) ∷ attrs) more =
    let rest = pieces_of w attrs more in
    if is_merged i then record { wiphy = w; id = i; payload = p } ∷ rest else rest

first :
    (x : Piece) (xs : List Piece) (b : Bool) (t : Table)
    → b ≡ true
    → AllJoinsFit (if b then x ∷ xs else xs) t
    → FitsIn (payload_at x.wiphy x.id t) × AllJoinsFit xs (add_piece x t)
unfolding AllJoinsFit
first x xs true t e h = h
first x xs false t e h = absurd (cc)

others :
    (x : Piece) (xs : List Piece) (b : Bool) (t : Table)
    → b ≡ false
    → AllJoinsFit (if b then x ∷ xs else xs) t
    → AllJoinsFit xs t
others x xs true t e h = absurd (cc)
others x xs false t e h = h

pub add_attributes-map_of :
    (w : ℕ) (attrs : Attrs) (more : List Piece) (t : Table)
    → AllFit attrs
    → AllJoinsFit (pieces_of w attrs more) t
    → (u : Table) × (add_attributes w (map (λ a. base_attr a.0 a.1) attrs) (map_of t)
        ≡ ok (map_of u))
      × (add_pieces (pieces_of w attrs more) t ≡ add_pieces more u)
      × AllJoinsFit more u
unfolding add_attributes pieces_of AllJoinsFit add_pieces
add_attributes-map_of w [] more t fit joins = (t, refl, refl, joins)
add_attributes-map_of w ((i, p) ∷ attrs) more t (small, fits, all) joins =
    let x : Piece = record { wiphy = w; id = i; payload = p } in
    let rest = pieces_of w attrs more in
    elim (Bool-cases (is_merged i)) [
      | inl e ↦
          let (now, later) = first x rest (is_merged i) t e joins in
          rw (get_attribute_id-base_attr i p small fits, e, add_to_wiphy-map_of x t small fits now)
            (add_attributes-map_of w attrs more (add_piece x t) all later)
      | inr e ↦
          rw (get_attribute_id-base_attr i p small fits, e)
            (add_attributes-map_of w attrs more t all (others x rest (is_merged i) t e joins))
    ]
