-- ===== src/Attribute/Merging.antt =====
-- `BaseNL80211Attr::Merge`.
use platform_system_connecti.Base.{
  ℕ, ◌+◌, ◌-◌, ◌<◌, ◌≡◌, ◌↔◌, ap, ◌∙◌, false, ◌&&◌, ◌++◌, length, replicate, resize, write_at,
  length-append, resize_cut, resize_pad, arith, ◌==◌, ok, fail, ==_refl, le→ltb-false,
}
use platform_system_connecti.Wire.{
  Bytes, le_bytes, nla_hdrlen, nla_align, nla_type, nla_align-le, nla_align_add,
}
use platform_system_connecti.Attribute.{base_attr, is_valid, merge}
use platform_system_connecti.Attribute.Layout.{padding, laid_out, Fits, base_attr_lem}
use platform_system_connecti.Attribute.Values.{is_valid-laid_out, payload-laid_out, nla_len_lem}

nla_type_lem : (id : ℕ) (p : Bytes) → id < 65536 → nla_type (laid_out id p) ≡ id
unfolding laid_out nla_type
nla_type_lem id p h = omega arith

-- The resized and extended buffer, before and after the padding.
joined :
    (id : ℕ) (p q : Bytes)
    → resize (nla_align (nla_hdrlen + length p + (nla_hdrlen + length q) - nla_hdrlen)) 0 (
        resize (nla_hdrlen + length p) 0 (
          write_at 0
            (le_bytes 2 (nla_hdrlen + length p + (nla_hdrlen + length q) - nla_hdrlen))
            (laid_out id p))
        ++ q)
      ≡ laid_out id (p ++ q)
unfolding laid_out
joined id p q =
    let both : nla_hdrlen + length p + (nla_hdrlen + length q) - nla_hdrlen
        ≡ nla_hdrlen + length (p ++ q) =
      omega (arith, length-append p q) in
    let head = le_bytes 2 (nla_hdrlen + length (p ++ q)) ++ le_bytes 2 id in
    let size : nla_align (nla_hdrlen + length (p ++ q)) - length (head ++ (p ++ q))
        ≡ nla_align (length (p ++ q)) - length (p ++ q) =
      omega (arith, nla_align_add (length (p ++ q))) in
    rw (both, resize_cut (nla_hdrlen + length p) 0 (head ++ p) (padding (length p)) (omega arith))
      (resize_pad (nla_align (nla_hdrlen + length (p ++ q))) 0 (head ++ (p ++ q))
          (omega (arith, nla_align-le (nla_hdrlen + length (p ++ q))))
        ∙ ap (λ k. head ++ ((p ++ q) ++ replicate k 0)) size)

-- Merging two attributes of one id, where the id and both payloads fit, gives the attribute that
-- holds the payloads one after the other.
pub merge-base_attr :
    (id : ℕ) (p q : Bytes)
    → id < 65536
    → Fits p
    → Fits q
    → merge (base_attr id p) (base_attr id q) ≡ ok (base_attr id (p ++ q))
unfolding merge
merge-base_attr id p q h fp fq =
    rw (base_attr_lem id p, base_attr_lem id q, base_attr_lem id (p ++ q))
      (rw
        (
          is_valid-laid_out id q fq,
          nla_type_lem id p h,
          nla_type_lem id q h,
          nla_len_lem id p fp,
          nla_len_lem id q fq,
          ==_refl id,
          le→ltb-false (nla_hdrlen + length q) nla_hdrlen (omega arith),
          payload-laid_out id q,
        )
        (ap ok (joined id p q)))

-- Attributes that differ in their id, or an invalid one, are not merged.
pub merge-fail_iff :
    (d other : Bytes)
    → (merge d other ≡ fail) ↔ (((is_valid other && (nla_type d == nla_type other))) ≡ false)
unfolding merge
merge-fail_iff d other = ground arith
