-- ===== src/Types/Str/Order.antt =====
-- Texts in order (`Ord for str`: by code points, which is by bytes), `sort`, `dedup`, and the maps
-- that are kept in that order.
pub mod Sorted
pub mod Maps
use agent_mail_kit.Prelude.{
  ℕ, Bool, true, false, ◌&&◌, ◌||◌, Option, none, some, List, [], ◌∷◌, ltb, ◌==◌, nat_eq, list_eq,
  if◌then◌else◌,
}
use agent_mail_kit.Types.Str.{Text}

-- Strictly before.
unfoldable pub precedes : Text → Text → Bool
precedes s [] = false
precedes [] (b ∷ t) = true
precedes (a ∷ s) (b ∷ t) = ltb a b || a == b && precedes s t

unfoldable pub insert_sorted : Text → List Text → List Text
insert_sorted x [] = x ∷ []
insert_sorted x (y ∷ ys) = if precedes y x then y ∷ insert_sorted x ys else x ∷ y ∷ ys

unfoldable pub sort : List Text → List Text
sort [] = []
sort (x ∷ xs) = insert_sorted x (sort xs)

-- `Vec::dedup`: of equal neighbours the first one stays.
unfoldable pub dedup : List Text → List Text
dedup [] = []
dedup (x ∷ []) = x ∷ []
dedup (x ∷ y ∷ ys) = let rest = dedup (y ∷ ys) in if x == y then rest else x ∷ rest

module _ {ℓ} {V : Type ℓ} where
  -- `BTreeMap::get`
  unfoldable pub entry_at : List (Text × V) → Text → Option V
  entry_at [] key = none
  entry_at ((k, v) ∷ rest) key = if k == key then some v else entry_at rest key

  -- `entry(key)`, with what becomes of the value that is there.
  unfoldable pub upsert : Text → (Option V → V) → List (Text × V) → List (Text × V)
  upsert key f [] = (key, f none) ∷ []
  upsert key f ((k, v) ∷ rest) =
      let later = upsert key f rest in
      if k == key
      then (key, f (some v)) ∷ rest
      else if precedes key k
      then (key, f none) ∷ (k, v) ∷ rest
      else (k, v) ∷ later
