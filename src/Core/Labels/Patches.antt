-- ===== src/Core/Labels/Patches.antt =====
-- crates/amk-core/src/labels.rs: what a label PATCH does, and what it may not touch.
use mathlib.Core.List.{append-nil, append_assoc}
use agent_mail_kit.Prelude.{
  ◌≡◌, refl, sym, ◌∙◌, ap, String, true, false, ◌&&◌, ◌||◌, not, List, [], ◌∷◌, ◌++◌, arith, ◌==◌,
  string_eq, ==→eq, any, all, contains, contains-cons, contains-append, contains-retain, retain,
  retain_of_all, all_of_pointwise, Bool-cases, inl, inr,
}
use agent_mail_kit.Core.Labels.Mutation.{push_new, apply_mutation}

any-contains : (x : String) (ys : List String) → any (λ l. l == x) ys ≡ contains x ys
any-contains x [] = unfold contains in refl
any-contains x (y ∷ ys) = ground (arith, any-contains x ys, contains-cons x y ys)

contains-nil : (x : String) → contains x [] ≡ false
unfolding contains
contains-nil x = refl

contains-push_new :
    (removed out labels : List String) (x : String)
    → contains x (push_new removed out labels)
      ≡ (contains x out || (contains x labels && not (contains x removed)))
unfolding push_new
contains-push_new removed out [] x = ground (arith, contains-nil x)
contains-push_new removed out (l ∷ ls) x =
    elim (Bool-cases (not (contains l removed) && not (any (λ k. k == l) out))) [
      | inl fresh ↦ rw fresh (
          ground (
            arith,
            fresh,
            contains-push_new removed (out ++ l ∷ []) ls x,
            contains-append x out (l ∷ []),
            contains-cons x l [],
            contains-nil x,
            contains-cons x l ls,
            ==→eq l x,
          ))
      | inr old ↦ rw old (
          ground (
            arith,
            old,
            contains-push_new removed out ls x,
            contains-cons x l ls,
            any-contains l out,
            ==→eq l x,
          ))
    ]

-- After a change a label is on the list exactly when it was not to be removed, and was there or was to
-- be added: removing wins over adding.
contains-apply_mutation :
    (current added removed : List String) (x : String)
    → contains x (apply_mutation current added removed)
      ≡ (not (contains x removed) && (contains x current || contains x added))
unfolding apply_mutation
contains-apply_mutation current added removed x = ground (
  arith,
  contains-push_new removed (retain (λ label. not (contains label removed)) current) added x,
  contains-retain (λ (label : String). not (contains label removed)) x current,
)

push_new_of_known :
    (removed out labels : List String)
    → all (λ l. contains l removed || contains l out) labels ≡ true
    → push_new removed out labels ≡ out
unfolding push_new
push_new_of_known removed out [] h = refl
push_new_of_known removed out (l ∷ ls) h =
    ground (arith, any-contains l out, push_new_of_known removed out ls)

mutation_fixed :
    (out added removed : List String)
    → ((x : String) → contains x out ≡ true → not (contains x removed) ≡ true)
    → ((x : String) → contains x added ≡ true → (contains x removed || contains x out) ≡ true)
    → apply_mutation out added removed ≡ out
unfolding apply_mutation
mutation_fixed out added removed h k =
    ap (λ o. push_new removed o added)
      (retain_of_all (λ label. not (contains label removed)) out
        (all_of_pointwise (λ label. not (contains label removed)) out h))
    ∙ push_new_of_known removed out added
        (all_of_pointwise (λ l. contains l removed || contains l out) added k)

-- A change applied a second time changes nothing, duplicates on the record included.
pub apply_mutation_idem :
    (current added removed : List String)
    → apply_mutation (apply_mutation current added removed) added removed
      ≡ apply_mutation current added removed
apply_mutation_idem current added removed =
    mutation_fixed (apply_mutation current added removed) added removed
      (λ x m. ground (arith, m, contains-apply_mutation current added removed x))
      (λ x m. ground (arith, m, contains-apply_mutation current added removed x))

push_new_prefix :
    (removed out labels : List String)
    → (fresh : List String) × (push_new removed out labels ≡ out ++ fresh)
      × ((x : String) → contains x fresh ≡ true → contains x labels ≡ true)
unfolding push_new
push_new_prefix removed out [] = ([], sym (append-nil out), λ x m. m)
push_new_prefix removed out (l ∷ ls) =
    elim (Bool-cases (not (contains l removed) && not (any (λ k. k == l) out))) [
      | inl fresh ↦
          let (more, e, sub) = push_new_prefix removed (out ++ l ∷ []) ls in
          (
            l ∷ more,
            rw fresh (e ∙ append_assoc out (l ∷ []) more),
            λ x m. ground (arith, m, contains-cons x l more, contains-cons x l ls, sub x),
          )
      | inr old ↦
          let (more, e, sub) = push_new_prefix removed out ls in
          (more, rw old e, λ x m. ground (arith, contains-cons x l ls, sub x m))
    ]

-- A change keeps the labels that stay in their order and as often as they were, and appends labels
-- that were to be added.
pub apply_mutation_keeps :
    (current added removed : List String)
    → (fresh : List String) × (apply_mutation current added removed
        ≡ retain (λ label. not (contains label removed)) current ++ fresh)
      × ((x : String) → contains x fresh ≡ true → contains x added ≡ true)
unfolding apply_mutation
apply_mutation_keeps current added removed =
    push_new_prefix removed (retain (λ label. not (contains label removed)) current) added
