-- ===== src/Outbound/Delivery/Grouping.antt =====
-- Recipients by domain.
use agent_mail_kit.Prelude.{
  ◌≡◌, refl, sym, ap, ◌∙◌, Bool, true, false, Option, none, some, List, [], ◌∷◌, ◌++◌, ◌==◌, nat_eq,
  list_eq, option_eq, retain, all, ok, is_ok, Option-cases, Bool-cases, ==→eq, ok_injective, ◌≢◌,
  option_beq, inl, inr,
}
use mathlib.Core.List.{append-nil, append_assoc}
use agent_mail_kit.Types.Str.{Text}
use agent_mail_kit.Types.Str.Order.{entry_at, upsert}
use agent_mail_kit.Types.Str.Order.Sorted.{ascends}
use agent_mail_kit.Types.Str.Order.Maps.{keys_of, upsert-ascends, entry_at-upsert}
use agent_mail_kit.Types.Send.{is_some}
use agent_mail_kit.Outbound.Delivery.{Network, Groups, recipient_domain, pushed, group_by_domain}

-- The recipient is of the domain.
unfoldable pub is_of : Text → Text → Bool
is_of domain rcpt = recipient_domain rcpt == some domain

abbrev rcpts_in : Option (List Text) → List Text
rcpts_in none = []
rcpts_in (some rcpts) = rcpts

-- The recipients of a domain, if there are any.
abbrev pub group_for : List Text → Option (List Text)
group_for [] = none
group_for (rcpt ∷ rcpts) = some (rcpt ∷ rcpts)

-- What is in a group comes first, then its recipients of the list.
abbrev joined : Option (List Text) → List Text → Option (List Text)
joined none rcpts = group_for rcpts
joined (some before) rcpts = some (before ++ rcpts)

joined-pushed :
    (old : Option (List Text)) (rcpt : Text) (rcpts : List Text)
    → joined (some (pushed rcpt old)) rcpts ≡ joined old (rcpt ∷ rcpts)
joined-pushed none rcpt rcpts = refl
joined-pushed (some before) rcpt rcpts = ap some (append_assoc before (rcpt ∷ []) rcpts)

joined_nil : (o : Option (List Text)) → joined o [] ≡ o
joined_nil none = refl
joined_nil (some before) = ap some (append-nil before)

is_of_found :
    (domain rcpt own : Text)
    → recipient_domain rcpt ≡ some own
    → is_of domain rcpt ≡ (own == domain)
unfolding is_of option_beq
is_of_found domain rcpt own found = rw found refl

retain_of_true :
    (p : Text → Bool) (x : Text) (xs : List Text) → p x ≡ true → retain p (x ∷ xs) ≡ x ∷ retain p xs
unfolding retain
retain_of_true p x xs h = rw h refl

retain_of_false :
    (p : Text → Bool) (x : Text) (xs : List Text) → p x ≡ false → retain p (x ∷ xs) ≡ retain p xs
unfolding retain
retain_of_false p x xs h = rw h refl

-- One turn of the loop, seen at one domain.
joined-upsert :
    (before : Groups) (rcpt own domain : Text) (rcpts : List Text)
    → ascends (keys_of before) ≡ true
    → recipient_domain rcpt ≡ some own
    → joined (entry_at (upsert own (pushed rcpt) before) domain) (retain (is_of domain) rcpts)
      ≡ joined (entry_at before domain) (retain (is_of domain) (rcpt ∷ rcpts))
joined-upsert before rcpt own domain rcpts h found =
    let e = entry_at-upsert own domain (pushed rcpt) before h in
    elim (Bool-cases (own == domain)) [
      | inl same ↦
          rw
            (
              e,
              same,
              ==→eq own domain same,
              retain_of_true (is_of domain) rcpt rcpts (is_of_found domain rcpt own found ∙ same),
            )
            (joined-pushed (entry_at before domain) rcpt (retain (is_of domain) rcpts))
      | inr other ↦
          rw
            (
              e,
              other,
              retain_of_false (is_of domain) rcpt rcpts (is_of_found domain rcpt own found ∙ other),
            )
            refl
    ]

module _ (n : Network) where
  step_found :
      (before : Groups) (rcpt own : Text) (rcpts : List Text)
      → recipient_domain rcpt ≡ some own
      → group_by_domain n before (rcpt ∷ rcpts)
        ≡ group_by_domain n (upsert own (pushed rcpt) before) rcpts
  unfolding group_by_domain
  step_found before rcpt own rcpts found = rw (group_by_domain, found) refl

  step_absent :
      (before : Groups) (rcpt : Text) (rcpts : List Text) (groups : Groups)
      → recipient_domain rcpt ≡ none
      → group_by_domain n before (rcpt ∷ rcpts) ≢ ok groups
  unfolding group_by_domain
  step_absent before rcpt rcpts groups absent = rw (group_by_domain, absent) (λ h. cc)

  unchanged : (before groups : Groups) → group_by_domain n before [] ≡ ok groups → before ≡ groups
  unfolding group_by_domain
  unchanged before groups e = ok_injective before groups e

  entry_at-group_by_domain :
      (before : Groups) (rcpts : List Text) {groups : Groups}
      → ascends (keys_of before) ≡ true
      → group_by_domain n before rcpts ≡ ok groups
      → (ascends (keys_of groups) ≡ true)
        × ((domain : Text)
            → entry_at groups domain
              ≡ joined (entry_at before domain) (retain (is_of domain) rcpts))
  unfolding retain
  entry_at-group_by_domain before [] {groups} h e =
      let same = unchanged before groups e in
      (rw (sym same) h, λ domain. rw (sym same) (sym (joined_nil (entry_at before domain))))
  entry_at-group_by_domain before (rcpt ∷ rcpts) {groups} h e =
      elim (Option-cases (recipient_domain rcpt)) [
        | inl absent ↦ absurd (step_absent before rcpt rcpts groups absent e)
        | inr (own, found) ↦
            let later =
              entry_at-group_by_domain (upsert own (pushed rcpt) before) rcpts
                (upsert-ascends own (pushed rcpt) before h)
                (sym (step_found before rcpt own rcpts found) ∙ e) in
            (later.0, λ domain. later.1 domain ∙ joined-upsert before rcpt own domain rcpts h found)
      ]

  -- Grouping fails exactly if a recipient has no domain.
  pub is_ok-group_by_domain :
      (before : Groups) (rcpts : List Text)
      → is_ok (group_by_domain n before rcpts) ≡ all (λ r. is_some (recipient_domain r)) rcpts
  unfolding group_by_domain
  is_ok-group_by_domain before [] = refl
  is_ok-group_by_domain before (rcpt ∷ rcpts) = elim (Option-cases (recipient_domain rcpt)) [
    | inl absent ↦ rw (group_by_domain, absent) refl
    | inr (own, found) ↦
        rw (group_by_domain, found) (is_ok-group_by_domain (upsert own (pushed rcpt) before) rcpts)
  ]

  -- The recipients come in the order of their domains, and under each domain are exactly those that
  -- are of it, in the order of the envelope.
  pub group_by_domain_lem :
      (rcpts : List Text) {groups : Groups}
      → group_by_domain n [] rcpts ≡ ok groups
      → (ascends (keys_of groups) ≡ true)
        × ((domain : Text) → entry_at groups domain ≡ group_for (retain (is_of domain) rcpts))
  unfolding ascends entry_at
  group_by_domain_lem rcpts e = entry_at-group_by_domain [] rcpts refl e
