-- ===== src/Outbound/Delivery/Preference.antt =====
-- In which order the hosts of a domain are tried.
use agent_mail_kit.Prelude.{
  ℕ, ◌≡◌, refl, ◌∙◌, Bool, true, ◌&&◌, ◌||◌, not, Option, none, some, List, [], ◌∷◌, all, any, leb,
  ltb, arith, Bool-cases, inl, inr,
}
use agent_mail_kit.Types.Str.{Text, is_empty}
use agent_mail_kit.Outbound.Delivery.{
  trim_dots, ranked, insert_ranked, sort_ranked, hosts_of, or_domain, hosts_found,
}

-- No preference is greater than a later one.
unfoldable pub by_preference : List (ℕ × Text) → Bool
by_preference [] = true
by_preference (x ∷ xs) = all (λ y. leb x.0 y.0) xs && by_preference xs

-- The hosts to try: the domain itself if the lookup failed or named none, and otherwise the hosts that
-- it named, without their final dots, by preference.
abbrev pub IsPreferred : Text → Option (List (ℕ × Text)) → List Text → Type 0
IsPreferred domain none hosts = hosts ≡ domain ∷ []
IsPreferred domain (some answers) hosts =
    (order : List (ℕ × Text)) × (by_preference order ≡ true)
    × ((p : ℕ × Text → Bool)
        → any p order ≡ any (λ a. not (is_empty (trim_dots a.1)) && p (a.0, trim_dots a.1)) answers)
    × (hosts ≡ or_domain domain (hosts_of order))

all-insert_ranked :
    (q : ℕ × Text → Bool) (x : ℕ × Text) (ys : List (ℕ × Text))
    → all q (insert_ranked x ys) ≡ (q x && all q ys)
unfolding insert_ranked
all-insert_ranked q x [] = refl
all-insert_ranked q x (y ∷ ys) = ground (arith, all-insert_ranked q x ys)

any-insert_ranked :
    (q : ℕ × Text → Bool) (x : ℕ × Text) (ys : List (ℕ × Text))
    → any q (insert_ranked x ys) ≡ (q x || any q ys)
unfolding insert_ranked
any-insert_ranked q x [] = refl
any-insert_ranked q x (y ∷ ys) = ground (arith, any-insert_ranked q x ys)

any-sort_ranked : (q : ℕ × Text → Bool) (xs : List (ℕ × Text)) → any q (sort_ranked xs) ≡ any q xs
unfolding sort_ranked
any-sort_ranked q [] = refl
any-sort_ranked q (x ∷ xs) = rw (any-insert_ranked q x (sort_ranked xs), any-sort_ranked q xs) refl

any-ranked :
    (p : ℕ × Text → Bool) (answers : List (ℕ × Text))
    → any p (ranked answers)
      ≡ any (λ a. not (is_empty (trim_dots a.1)) && p (a.0, trim_dots a.1)) answers
unfolding ranked
any-ranked p [] = refl
any-ranked p ((preference, exchange) ∷ answers) = ground (arith, any-ranked p answers)

all_later :
    (m n : ℕ) (ys : List (ℕ × Text))
    → leb m n ≡ true
    → all (λ y. leb n y.0) ys ≡ true
    → all (λ y. leb m y.0) ys ≡ true
all_later m n [] h k = refl
all_later m n (y ∷ ys) h k = ground (arith, all_later m n ys)

insert_ranked-by_preference :
    (x : ℕ × Text) (ys : List (ℕ × Text))
    → by_preference ys ≡ true
    → by_preference (insert_ranked x ys) ≡ true
unfolding insert_ranked by_preference
insert_ranked-by_preference x [] h = refl
insert_ranked-by_preference x (y ∷ ys) h = elim (Bool-cases (ltb y.0 x.0)) [
  | inl less ↦ rw less (
      ground
        (arith, less, all-insert_ranked (λ z. leb y.0 z.0) x ys, insert_ranked-by_preference x ys))
  | inr more ↦ rw more (ground (arith, more, all_later x.0 y.0 ys))
]

sort_ranked-by_preference : (xs : List (ℕ × Text)) → by_preference (sort_ranked xs) ≡ true
unfolding sort_ranked by_preference
sort_ranked-by_preference [] = refl
sort_ranked-by_preference (x ∷ xs) =
    insert_ranked-by_preference x (sort_ranked xs) (sort_ranked-by_preference xs)

pub hosts_found-IsPreferred :
    (domain : Text) (answers : Option (List (ℕ × Text)))
    → IsPreferred domain answers (hosts_found domain answers)
unfolding hosts_found
hosts_found-IsPreferred domain none = refl
hosts_found-IsPreferred domain (some answers) = (
  sort_ranked (ranked answers),
  sort_ranked-by_preference (ranked answers),
  (λ p. any-sort_ranked p (ranked answers) ∙ any-ranked p answers),
  refl,
)
