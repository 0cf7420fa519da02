-- ===== src/Types/Str/Split.antt =====
-- `str::split_once` and `str::rsplit_once` at one ASCII character.
use agent_mail_kit.Prelude.{
  ℕ, false, Option, none, some, [], ◌∷◌, ◌++◌, ◌≡◌, refl, ◌==◌, nat_eq, nat_beq_iff, contains,
  arith, if◌then◌else◌, Option-cases, inl, inr,
}
use agent_mail_kit.Types.Str.{Text}

abbrev extend : ℕ → Option (Text × Text) → Option (Text × Text)
extend a none = none
extend a (some (l, r)) = some (a ∷ l, r)

unfoldable pub split_once : ℕ → Text → Option (Text × Text)
split_once c [] = none
split_once c (a ∷ s) = if a == c then some ([], s) else extend a (split_once c s)

unfoldable pub rsplit_once : ℕ → Text → Option (Text × Text)
rsplit_once c [] = none
rsplit_once c (a ∷ s) = elim (rsplit_once c s) [
  | some (l, r) ↦ some (a ∷ l, r)
  | none ↦ if a == c then some ([], s) else none
]

pub split_once-append :
    (c : ℕ) (l r : Text) → contains c l ≡ false → split_once c (l ++ c ∷ r) ≡ some (l, r)
unfolding split_once contains
split_once-append c [] r h = ground (arith, nat_beq_iff c c)
split_once-append c (a ∷ l) r h = ground (arith, split_once-append c l r)

pub split_once_sound : (c : ℕ) (s l r : Text) → split_once c s ≡ some (l, r) → s ≡ l ++ c ∷ r
unfolding split_once
split_once_sound c [] l r h = cc
split_once_sound c (a ∷ s) l r h = elim (Option-cases (split_once c s)) [
  | inl absent ↦ ground (arith, nat_beq_iff a c)
  | inr ((l', r'), e) ↦ ground (arith, nat_beq_iff a c, split_once_sound c s l' r' e)
]

rsplit_once_of_absent : (c : ℕ) (r : Text) → contains c r ≡ false → rsplit_once c r ≡ none
unfolding rsplit_once contains
rsplit_once_of_absent c [] h = refl
rsplit_once_of_absent c (a ∷ r) h = ground (arith, rsplit_once_of_absent c r)

pub rsplit_once-append :
    (c : ℕ) (l r : Text) → contains c r ≡ false → rsplit_once c (l ++ c ∷ r) ≡ some (l, r)
unfolding rsplit_once
rsplit_once-append c [] r h = ground (arith, nat_beq_iff c c, rsplit_once_of_absent c r h)
rsplit_once-append c (a ∷ l) r h = ground (arith, rsplit_once-append c l r h)

pub rsplit_once_sound : (c : ℕ) (s l r : Text) → rsplit_once c s ≡ some (l, r) → s ≡ l ++ c ∷ r
unfolding rsplit_once
rsplit_once_sound c [] l r h = cc
rsplit_once_sound c (a ∷ s) l r h = elim (Option-cases (rsplit_once c s)) [
  | inl absent ↦ ground (arith, nat_beq_iff a c)
  | inr ((l', r'), e) ↦ ground (arith, rsplit_once_sound c s l' r' e)
]

rsplit_once_of_none : (c : ℕ) (s : Text) → rsplit_once c s ≡ none → contains c s ≡ false
unfolding rsplit_once contains
rsplit_once_of_none c [] h = refl
rsplit_once_of_none c (a ∷ s) h = elim (Option-cases (rsplit_once c s)) [
  | inl absent ↦ ground (arith, rsplit_once_of_none c s absent)
  | inr ((l', r'), e) ↦ cc
]

pub rsplit_once_last : (c : ℕ) (s l r : Text) → rsplit_once c s ≡ some (l, r) → contains c r ≡ false
unfolding rsplit_once
rsplit_once_last c [] l r h = cc
rsplit_once_last c (a ∷ s) l r h = elim (Option-cases (rsplit_once c s)) [
  | inl absent ↦ ground (arith, rsplit_once_of_none c s absent)
  | inr ((l', r'), e) ↦ ground (arith, rsplit_once_last c s l' r' e)
]
