-- ===== src/Core/Labels/Verdicts.antt =====
-- crates/amk-core/src/labels.rs: what `admit` answers, and which denial it gives.
use agent_mail_kit.Prelude.{
  String, ◌≡◌, refl, sym, ◌∙◌, ap, ap₂, ◌↔◌, Bool, true, false, ◌&&◌, ◌||◌, not, none, some, List,
  [], ◌∷◌, arith, ◌==◌, string_eq, ==→eq, ==_refl, contains-cons, find, any, all, contains,
  Bool-cases, inl, inr, err, is_ok, Result-cases, is_ok->>, if◌then◌else◌,
}
use agent_mail_kit.Types.Labels.{restricted, is_restricted}
use agent_mail_kit.Core.Permissions.{allows_label_read}
use agent_mail_kit.Core.Labels.Admission.{
  LabelAccess, requested, DenialKind, not_permitted, not_requested, LabelDenial, find_restricted,
  gate, admit, admits,
}

find-contains :
    (label : String) (ls : List String)
    → find (λ r. r == label) ls ≡ (if contains label ls then some label else none)
unfolding contains
find-contains label [] = refl
find-contains label (l ∷ ls) = ground (arith, find-contains label ls, ==→eq l label)

find_restricted_lem :
    (label : String) → find_restricted label ≡ (if is_restricted label then some label else none)
unfolding find_restricted
find_restricted_lem label = find-contains label restricted

-- The label does not stand in the way of the test: it is not restricted, or it passes.
abbrev passes : (String → Bool) → String → Bool
passes test label = not (is_restricted label) || test label

gate-is_ok :
    (test : String → Bool) (kind : DenialKind) (labels : List String)
    → is_ok (gate test kind labels) ≡ all (passes test) labels
unfolding gate
gate-is_ok test kind [] = refl
gate-is_ok test kind (l ∷ ls) = ground (arith, find_restricted_lem l, gate-is_ok test kind ls)

gate-err :
    (test : String → Bool) (kind : DenialKind) (labels : List String) (d : LabelDenial)
    → gate test kind labels ≡ err d
    → (d.kind ≡ kind)
      × (is_restricted d.label ≡ true)
      × (contains d.label labels ≡ true)
      × (test d.label ≡ false)
unfolding gate
gate-err test kind [] d h = cc
gate-err test kind (l ∷ ls) d h = elim (Bool-cases (is_restricted l && not (test l))) [
  | inl here ↦ ground (arith, find_restricted_lem l, contains-cons d.label l ls, ==_refl l)
  | inr later ↦
      ground (arith, find_restricted_lem l, contains-cons d.label l ls, gate-err test kind ls d)
]

-- A restricted label is visible with the permission to read it, in a request that asks for it; any
-- other label is visible to all.
unfoldable pub visible : LabelAccess → String → Bool
visible access label =
    not (is_restricted label) || (allows_label_read access.grants label && requested access label)

all_and {ℓ} :
    {A : Type ℓ} (p q r : A → Bool) (xs : List A)
    → ((x : A) → r x ≡ (p x && q x))
    → (all p xs && all q xs) ≡ all r xs
all_and p q r [] h = refl
all_and p q r (x ∷ xs) h = ground (arith, h x, all_and p q r xs h)

-- An item is admitted exactly when each of its labels is visible: not restricted, or permitted to the
-- credential and, on a list path, asked for by the request.
pub admits-eq-all-visible :
    (labels : List String) (access : LabelAccess)
    → admits labels access ≡ all (visible access) labels
unfolding admits admit visible
admits-eq-all-visible labels access =
    is_ok->> (gate (allows_label_read access.grants) not_permitted labels) _
    ∙ ap₂ ◌&&◌ (gate-is_ok _ not_permitted labels) (gate-is_ok _ not_requested labels)
    ∙ all_and (passes (allows_label_read access.grants)) (passes (requested access))
        (visible access) labels (λ l. ground arith)

any_restricted :
    (test : String → Bool) (ls : List String)
    → any (λ l. is_restricted l && not (test l)) ls ≡ not (all (passes test) ls)
any_restricted test [] = refl
any_restricted test (l ∷ ls) = ground (arith, any_restricted test ls)

-- An item is denied for want of permission exactly when one of its labels is restricted and not
-- permitted, in whatever order its labels stand; the denial's label is one of the item's, restricted,
-- and fails the test that the denial is about.
pub admit-err :
    (labels : List String) (access : LabelAccess) (d : LabelDenial)
    → admit labels access ≡ err d
    → ((d.kind ≡ not_permitted)
        ↔ (any (λ l. is_restricted l && not (allows_label_read access.grants l)) labels ≡ true))
      × (contains d.label labels ≡ true)
      × (is_restricted d.label ≡ true)
      × ((d.kind ≡ not_permitted → allows_label_read access.grants d.label ≡ false)
          × (d.kind ≡ not_requested → requested access d.label ≡ false))
unfolding admit
admit-err labels access d h =
    elim (Result-cases (gate (allows_label_read access.grants) not_permitted labels)) [
      | inl (u, passed) ↦
          let (kind, re, mem, test) =
            gate-err (requested access) not_requested labels d (rw passed at h) in
          (
            (λ e. cc (kind, e), λ e. ground (arith, permitted, passed, e)),
            mem,
            re,
            (λ e. cc (kind, e), λ e. test),
          )
      | inr (d', failed) ↦
          let same : d' ≡ d = ground (arith, failed) in
          let (kind, re, mem, test) =
            gate-err (allows_label_read access.grants) not_permitted labels d (rw same at failed) in
          (
            (λ e. ground (arith, permitted, failed), λ e. kind),
            mem,
            re,
            (λ e. test, λ e. cc (kind, e)),
          )
    ]
  where
    permitted :
        any (λ l. is_restricted l && not (allows_label_read access.grants l)) labels
        ≡ not (is_ok (gate (allows_label_read access.grants) not_permitted labels))
    permitted =
        any_restricted (allows_label_read access.grants) labels
        ∙ ap not (sym (gate-is_ok (allows_label_read access.grants) not_permitted labels))
