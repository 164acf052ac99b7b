-- ===== src/Server/Interfaces.antt =====
-- server.cpp: which of the kernel's interfaces `SetupInterface` takes for a name.
use platform_system_connecti.Base.{
  ◌≡◌, refl, ap, ◌⊎◌, inl, inr, Bool, true, false, not, ◌&&◌, Option, none, some, List, [], ◌∷◌,
  ◌++◌, ◌==◌, if◌then◌else◌, same_text, Bool-cases,
}
use platform_system_connecti.Wire.{Bytes}
use platform_system_connecti.NetlinkUtils.{InterfaceInfo}

-- "p2p0" and "aware_data".
abbrev pub p2p0 : Bytes
p2p0 = 112 ∷ 50 ∷ 112 ∷ 48 ∷ []

abbrev pub aware_data : Bytes
aware_data = 97 ∷ 119 ∷ 97 ∷ 114 ∷ 101 ∷ 95 ∷ 100 ∷ 97 ∷ 116 ∷ 97 ∷ []

unfoldable pub starts_with : Bytes → Bytes → Bool
starts_with s [] = true
starts_with [] (c ∷ cs) = false
starts_with (b ∷ bs) (c ∷ cs) = (b == c) && starts_with bs cs

unfoldable pub is_usable : Bytes → Bool
unfolding starts_with
is_usable name = not (same_text name p2p0) && not (starts_with name aware_data)

unfoldable pub find_named : Bytes → List InterfaceInfo → Option InterfaceInfo
find_named name [] = none
find_named name (i ∷ infos) = if same_text i.name name then some i else find_named name infos

unfoldable pub find_usable : List InterfaceInfo → Option InterfaceInfo
unfolding is_usable
find_usable [] = none
find_usable (i ∷ infos) = if is_usable i.name then some i else find_usable infos

-- The two loops of `SetupInterface`.
unfoldable pub choose_interface : Bytes → List InterfaceInfo → Option InterfaceInfo
unfolding find_named find_usable
choose_interface name infos = elim (find_named name infos) [
  | some i ↦ some i
  | none ↦ find_usable infos
]

-- No interface of the list passes the test.
abbrev pub NoneOf : (InterfaceInfo → Bool) → List InterfaceInfo → Type 0
NoneOf p [] = Unit {0}
NoneOf p (i ∷ infos) = (p i ≡ false) × NoneOf p infos

-- An interface that passes the test, with its place: none in front of it does.
pub record FirstOf (p : InterfaceInfo → Bool) (infos : List InterfaceInfo) (i : InterfaceInfo)
    : Type 0 where
  pub in_front : List InterfaceInfo
  pub after_it : List InterfaceInfo
  pub place : infos ≡ in_front ++ (i ∷ after_it)
  pub passes : p i ≡ true
  pub earliest : NoneOf p in_front

-- What a search for the first interface that passes finds.
abbrev pub Finds : (InterfaceInfo → Bool) → List InterfaceInfo → Option InterfaceInfo → Type 0
Finds p infos none = NoneOf p infos
Finds p infos (some i) = FirstOf p infos i

FirstOf-cons :
    (p : InterfaceInfo → Bool) (j : InterfaceInfo) (infos : List InterfaceInfo)
    (o : Option InterfaceInfo)
    → p j ≡ false
    → Finds p infos o
    → Finds p (j ∷ infos) o
FirstOf-cons p j infos none e h = (e, h)
FirstOf-cons p j infos (some i) e h = record {
  in_front = j ∷ h.in_front;
  after_it = h.after_it;
  place = ap (◌∷◌ j) h.place;
  passes = h.passes;
  earliest = (e, h.earliest);
}

FirstOf-here :
    (p : InterfaceInfo → Bool) (j : InterfaceInfo) (infos : List InterfaceInfo)
    → p j ≡ true
    → FirstOf p (j ∷ infos) j
FirstOf-here p j infos e = record {
  in_front = [];
  after_it = infos;
  place = refl;
  passes = e;
  earliest = tt;
}

abbrev pub is_named : Bytes → InterfaceInfo → Bool
is_named name i = same_text i.name name

find_named-Finds :
    (name : Bytes) (infos : List InterfaceInfo)
    → Finds (is_named name) infos (find_named name infos)
unfolding find_named
find_named-Finds name [] = tt
find_named-Finds name (i ∷ infos) = elim (Bool-cases (same_text i.name name)) [
  | inl e ↦ rw e (FirstOf-here (is_named name) i infos e)
  | inr e ↦ rw e (FirstOf-cons (is_named name) i infos _ e (find_named-Finds name infos))
]

find_usable-Finds :
    (infos : List InterfaceInfo) → Finds (λ i. is_usable i.name) infos (find_usable infos)
unfolding find_usable
find_usable-Finds [] = tt
find_usable-Finds (i ∷ infos) = elim (Bool-cases (is_usable i.name)) [
  | inl e ↦ rw e (FirstOf-here (λ i. is_usable i.name) i infos e)
  | inr e ↦ rw e (FirstOf-cons (λ i. is_usable i.name) i infos _ e (find_usable-Finds infos))
]

-- What `SetupInterface` may take for a name.
abbrev pub Choice : Bytes → List InterfaceInfo → Option InterfaceInfo → Type 0
Choice name infos none = NoneOf (is_named name) infos × NoneOf (λ i. is_usable i.name) infos
Choice name infos (some i) =
    FirstOf (is_named name) infos i
    ⊎ (NoneOf (is_named name) infos × FirstOf (λ i. is_usable i.name) infos i)

-- The interface taken for a name is the first of that name, or where none has the name the first
-- that is neither "p2p0" nor starts with "aware_data"; none is taken only where there is neither.
pub choose_interface-Choice :
    (name : Bytes) (infos : List InterfaceInfo) → Choice name infos (choose_interface name infos)
unfolding choose_interface
choose_interface-Choice name infos =
    by_name (find_named name infos) (find_usable infos) (find_named-Finds name infos)
      (find_usable-Finds infos)
  where
    by_name :
        (o p : Option InterfaceInfo)
        → Finds (is_named name) infos o
        → Finds (λ i. is_usable i.name) infos p
        → Choice name infos (elim o [ some i ↦ some i | none ↦ p ])
    by_name (some i) p h k = inl h
    by_name none none h k = (h, k)
    by_name none (some i) h k = inr (h, k)
