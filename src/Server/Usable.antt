-- ===== src/Server/Usable.antt =====
-- server.cpp: which names the fallback of `SetupInterface` passes over.
use platform_system_connecti.Base.{
  ◌≡◌, refl, ap, ◌⊎◌, inl, inr, true, false, List, [], ◌∷◌, ◌++◌, ◌==◌, same_text, same_text_iff,
  ◌∙◌, Bool-cases, ==_iff, arith,
}
use platform_system_connecti.Wire.{Bytes}
use platform_system_connecti.NetlinkUtils.{InterfaceInfo}
use platform_system_connecti.Server.Interfaces.{p2p0, aware_data, starts_with, is_usable, NoneOf}

-- "p2p0", and every name that is "aware_data" with anything behind it.
abbrev pub Barred : Bytes → Type 0
Barred name = (name ≡ p2p0) ⊎ ((rest : Bytes) × (name ≡ aware_data ++ rest))

-- All interfaces have such names.
abbrev pub AllBarred : List InterfaceInfo → Type 0
AllBarred [] = Unit {0}
AllBarred (i ∷ infos) = Barred i.name × AllBarred infos

starts_with-prefix : (s p : Bytes) → starts_with s p ≡ true → (rest : Bytes) × (s ≡ p ++ rest)
unfolding starts_with
starts_with-prefix s [] h = (s, refl)
starts_with-prefix [] (c ∷ cs) h = absurd (cc)
starts_with-prefix (b ∷ bs) (c ∷ cs) h =
    let here : (b == c) ≡ true = ground (arith, h) in
    let (rest, e) = starts_with-prefix bs cs (ground (arith, h)) in
    let same : b ≡ c = (==_iff b c).0 here in (rest, cc)

aware-is_usable : (rest : Bytes) → is_usable (aware_data ++ rest) ≡ false
unfolding is_usable starts_with same_text
aware-is_usable rest = refl

p2p0-is_usable : is_usable p2p0 ≡ false
unfolding is_usable same_text
p2p0-is_usable = refl

Barred-is_usable : (name : Bytes) → Barred name → is_usable name ≡ false
Barred-is_usable name (inl e) = ap is_usable e ∙ p2p0-is_usable
Barred-is_usable name (inr (rest, e)) = ap is_usable e ∙ aware-is_usable rest

pub not_Barred-is_usable : (name : Bytes) → ¬ Barred name → is_usable name ≡ true
unfolding is_usable
not_Barred-is_usable name h = elim (Bool-cases (same_text name p2p0)) [
  | inl e ↦ absurd (h (inl ((same_text_iff name p2p0).0 e)))
  | inr e ↦ elim (Bool-cases (starts_with name aware_data)) [
    | inl f ↦ absurd (h (inr (starts_with-prefix name aware_data f)))
    | inr f ↦ rw (e, f) refl
  ]
]

pub AllBarred-NoneOf :
    (infos : List InterfaceInfo) → AllBarred infos → NoneOf (λ i. is_usable i.name) infos
AllBarred-NoneOf [] h = tt
AllBarred-NoneOf (i ∷ infos) (e, h) = (Barred-is_usable i.name e, AllBarred-NoneOf infos h)
