-- ===== src/Core/Labels/Violations.antt =====
-- crates/amk-core/src/labels.rs: the violations that a PATCH is refused with.
use mathlib.Core.List.{map-append}
use agent_mail_kit.Prelude.{
  ℕ, suc, ◌+◌, ◌≡◌, refl, ◌∙◌, ap, ap₂, String, Bool, true, some, List, [], ◌∷◌, ◌++◌, map, arith,
  All, retain, get_elem?, Bool-cases, inl, inr,
}
use agent_mail_kit.Core.Labels.Mutation.{
  MutationField, SystemLabelViolation, is_system, enumerate, system_label_violations,
}

-- The list of the field that a violation names.
abbrev pub field_list : MutationField → List String → List String → List String
field_list MutationField.add added removed = added
field_list MutationField.remove added removed = removed

-- A violation points at its label: it is a system label, and stands at its index in the list of its
-- field.
abbrev pub PointsAt : List String → List String → SystemLabelViolation → Type 0
PointsAt added removed v =
    (is_system v.label ≡ true)
    × (get_elem? (field_list v.field added removed) v.index ≡ some v.label)

labels-retain :
    (field : MutationField) (i : ℕ) (ls : List String)
    → map (λ v. v.label) (retain (λ v. is_system v.label) (enumerate field i ls))
      ≡ retain is_system ls
unfolding retain enumerate
labels-retain field i [] = refl
labels-retain field i (l ∷ ls) = elim (Bool-cases (is_system l)) [
  | inl sys ↦ rw sys (ap (◌∷◌ l) (labels-retain field (suc i) ls))
  | inr free ↦ rw free (labels-retain field (suc i) ls)
]

module _ {ℓ} {A : Type ℓ} where
  retain-append : (p : A → Bool) (xs ys : List A) → retain p (xs ++ ys) ≡ retain p xs ++ retain p ys
  unfolding retain
  retain-append p [] ys = refl
  retain-append p (x ∷ xs) ys = ground (arith, retain-append p xs ys)

  All-append {κ} : (P : A → Type κ) (xs ys : List A) → All P xs → All P ys → All P (xs ++ ys)
  All-append P [] ys h k = k
  All-append P (x ∷ xs) ys (h, hs) k = (h, All-append P xs ys hs k)

-- Every violation of a list that stands at an offset of the field's list points at its label.
points :
    (field : MutationField) (added removed : List String) (i : ℕ) (ls : List String)
    → ((j : ℕ) → get_elem? (field_list field added removed) (i + j) ≡ get_elem? ls j)
    → All (PointsAt added removed) (retain (λ v. is_system v.label) (enumerate field i ls))
unfolding retain enumerate
points field added removed i [] h = tt
points field added removed i (l ∷ ls) h = elim (Bool-cases (is_system l)) [
  | inl sys ↦ rw sys ((sys, here), points field added removed (suc i) ls later)
  | inr free ↦ rw free (points field added removed (suc i) ls later)
]
  where
    full : List String
    full = field_list field added removed

    here : get_elem? full i ≡ some l
    here = let e : i ≡ i + 0 = omega arith in ap (get_elem? full) e ∙ h 0

    later : (j : ℕ) → get_elem? full (suc i + j) ≡ get_elem? ls j
    later j = let e : suc i + j ≡ i + suc j = omega arith in ap (get_elem? full) e ∙ h (suc j)

from_start :
    (field : MutationField) (added removed : List String)
    → All
        (PointsAt added removed)
        (retain (λ v. is_system v.label) (enumerate field 0 (field_list field added removed)))
from_start field added removed =
    points field added removed 0 (field_list field added removed)
      (λ j. let e : 0 + j ≡ j = omega arith in ap (get_elem? (field_list field added removed)) e)

-- The violations carry exactly the system labels among those to add and then those to remove, in their
-- order and as often as they occur, so that there is none exactly when there is no such label; and each
-- points at its label by the field's name and the index within that field.
system_label_violations_lem :
    (added removed : List String)
    → (map (λ v. v.label) (system_label_violations added removed)
        ≡ retain is_system added ++ retain is_system removed)
      × All (PointsAt added removed) (system_label_violations added removed)
unfolding system_label_violations
system_label_violations_lem added removed = (
  ap (map (λ v. v.label)) (retain-append _ _ _)
      ∙ map-append _ _ _
      ∙ ap₂ ◌++◌ (labels-retain MutationField.add 0 added)
          (labels-retain MutationField.remove 0 removed),
  rw
      (retain-append (λ v. is_system v.label) (enumerate MutationField.add 0 added)
        (enumerate MutationField.remove 0 removed))
      (All-append (PointsAt added removed) _ _ (from_start MutationField.add added removed)
        (from_start MutationField.remove added removed)),
)
