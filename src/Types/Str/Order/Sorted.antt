-- ===== src/Types/Str/Order/Sorted.antt =====
-- The order of texts is a strict total order; what `sort` and `dedup` make of a vector.
use agent_mail_kit.Prelude.{
  ℕ, Bool, true, false, ◌≡◌, refl, not, ◌&&◌, ◌||◌, List, [], ◌∷◌, ◌==◌, nat_eq, list_eq,
  nat_beq_iff, list_beq_iff, all, contains, arith, Bool-cases, inl, inr,
}
use agent_mail_kit.Types.Str.{Text}
use agent_mail_kit.Types.Str.Order.{precedes, insert_sorted, sort, dedup}

pub precedes_irrefl : (s : Text) → precedes s s ≡ false
unfolding precedes
precedes_irrefl [] = refl
precedes_irrefl (a ∷ s) = ground (arith, nat_beq_iff a a, precedes_irrefl s)

pub precedes_trans :
    (s t u : Text) → precedes s t ≡ true → precedes t u ≡ true → precedes s u ≡ true
unfolding precedes
precedes_trans s t [] h k = cc
precedes_trans s [] (c ∷ u) h k = cc
precedes_trans [] (b ∷ t) (c ∷ u) h k = refl
precedes_trans (a ∷ s) (b ∷ t) (c ∷ u) h k =
    ground (arith, nat_beq_iff a b, nat_beq_iff b c, nat_beq_iff a c, precedes_trans s t u)

pub precedes_total : (s t : Text) → precedes s t ≡ false → (s == t) ≡ false → precedes t s ≡ true
unfolding precedes
precedes_total [] [] h k = ground (arith, list_beq_iff {A = ℕ} [] [])
precedes_total [] (b ∷ t) h k = cc
precedes_total (a ∷ s) [] h k = refl
precedes_total (a ∷ s) (b ∷ t) h k = ground (
  arith,
  nat_beq_iff a b,
  nat_beq_iff b a,
  precedes_total s t,
  list_beq_iff s t,
  list_beq_iff (a ∷ s) (b ∷ t),
)

-- What holds of a vector's elements holds of them sorted, and without repetitions.
all-insert_sorted :
    (p : Text → Bool) (x : Text) (ys : List Text) → all p (insert_sorted x ys) ≡ (p x && all p ys)
unfolding insert_sorted
all-insert_sorted p x [] = ground arith
all-insert_sorted p x (y ∷ ys) = ground (arith, all-insert_sorted p x ys)

pub all-sort : (p : Text → Bool) (xs : List Text) → all p (sort xs) ≡ all p xs
unfolding sort
all-sort p [] = refl
all-sort p (x ∷ xs) = ground (arith, all-insert_sorted p x (sort xs), all-sort p xs)

pub all-dedup : (p : Text → Bool) (xs : List Text) → all p (dedup xs) ≡ all p xs
unfolding dedup
all-dedup p [] = refl
all-dedup p (x ∷ []) = refl
all-dedup p (x ∷ y ∷ ys) = ground (arith, all-dedup p (y ∷ ys), list_beq_iff x y)

contains-insert_sorted :
    (a x : Text) (ys : List Text) → contains a (insert_sorted x ys) ≡ (x == a || contains a ys)
unfolding insert_sorted contains
contains-insert_sorted a x [] = ground arith
contains-insert_sorted a x (y ∷ ys) = ground (arith, contains-insert_sorted a x ys)

pub contains-sort : (a : Text) (xs : List Text) → contains a (sort xs) ≡ contains a xs
unfolding sort contains
contains-sort a [] = refl
contains-sort a (x ∷ xs) = ground (arith, contains-insert_sorted a x (sort xs), contains-sort a xs)

pub contains-dedup : (a : Text) (xs : List Text) → contains a (dedup xs) ≡ contains a xs
unfolding dedup contains
contains-dedup a [] = refl
contains-dedup a (x ∷ []) = refl
contains-dedup a (x ∷ y ∷ ys) = ground (arith, contains-dedup a (y ∷ ys), list_beq_iff x y)

-- Every text precedes all that follow it.
unfoldable pub ascends : List Text → Bool
ascends [] = true
ascends (x ∷ xs) = all (precedes x) xs && ascends xs

-- No text is preceded by one that follows it.
sorted : List Text → Bool
sorted [] = true
sorted (x ∷ xs) = all (λ y. not (precedes y x)) xs && sorted xs

above_trans :
    (x y : Text) (zs : List Text)
    → precedes x y ≡ true
    → all (λ z. not (precedes z y)) zs ≡ true
    → all (precedes x) zs ≡ true
above_trans x y [] h k = refl
above_trans x y (z ∷ zs) h k =
    ground
      (arith, above_trans x y zs h, precedes_trans x y z h, precedes_total z y, list_beq_iff z y)

not_below_trans :
    (x y : Text) (zs : List Text)
    → precedes y x ≡ false
    → all (λ z. not (precedes z y)) zs ≡ true
    → all (λ z. not (precedes z x)) zs ≡ true
not_below_trans x y [] h k = refl
not_below_trans x y (z ∷ zs) h k =
    ground
      (arith, not_below_trans x y zs h, precedes_trans y z x, precedes_total z y, list_beq_iff z y)

insert_sorted-sorted :
    (x : Text) (ys : List Text) → sorted ys ≡ true → sorted (insert_sorted x ys) ≡ true
unfolding insert_sorted sorted
insert_sorted-sorted x [] h = refl
insert_sorted-sorted x (y ∷ ys) h = elim (Bool-cases (precedes y x)) [
  | inl below ↦ rw below (
      ground (
        arith,
        insert_sorted-sorted x ys,
        all-insert_sorted (λ z. not (precedes z y)) x ys,
        precedes_trans y x y below,
        precedes_irrefl y,
      ))
  | inr above ↦ rw above (ground (arith, not_below_trans x y ys above))
]

sort-sorted : (xs : List Text) → sorted (sort xs) ≡ true
unfolding sort sorted
sort-sorted [] = refl
sort-sorted (x ∷ xs) = insert_sorted-sorted x (sort xs) (sort-sorted xs)

dedup-ascends : (xs : List Text) → sorted xs ≡ true → ascends (dedup xs) ≡ true
unfolding dedup sorted ascends
dedup-ascends [] h = refl
dedup-ascends (x ∷ []) h = refl
dedup-ascends (x ∷ y ∷ ys) h = ground (
  arith,
  dedup-ascends (y ∷ ys),
  all-dedup (precedes x) (y ∷ ys),
  precedes_total y x,
  above_trans x y ys,
  list_beq_iff x y,
  list_beq_iff y x,
)

pub dedup-sort-ascends : (xs : List Text) → ascends (dedup (sort xs)) ≡ true
dedup-sort-ascends xs = dedup-ascends (sort xs) (sort-sorted xs)

pub above_all :
    (x y : Text) (zs : List Text)
    → precedes x y ≡ true
    → all (precedes y) zs ≡ true
    → all (precedes x) zs ≡ true
above_all x y [] h k = refl
above_all x y (z ∷ zs) h k = ground (arith, above_all x y zs h, precedes_trans x y z h)
