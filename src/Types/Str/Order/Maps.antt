-- ===== src/Types/Str/Order/Maps.antt =====
-- Maps that are kept in the order of their keys: lookup after an update, and the order it leaves.
use agent_mail_kit.Prelude.{
  Bool, true, ◌≡◌, refl, ◌&&◌, Option, none, some, List, [], ◌∷◌, ◌==◌, nat_eq, list_eq,
  list_beq_iff, all, arith, if◌then◌else◌,
}
use agent_mail_kit.Types.Str.{Text}
use agent_mail_kit.Types.Str.Order.{precedes, entry_at, upsert}
use agent_mail_kit.Types.Str.Order.Sorted.{precedes_irrefl, precedes_total, ascends, above_all}

module _ {ℓ} {V : Type ℓ} where
  abbrev pub keys_of : List (Text × V) → List Text
  keys_of [] = []
  keys_of ((k, v) ∷ m) = k ∷ keys_of m

  all-keys_of-upsert :
      (p : Text → Bool) (key : Text) (f : Option V → V) (m : List (Text × V))
      → all p (keys_of (upsert key f m)) ≡ (p key && all p (keys_of m))
  unfolding upsert
  all-keys_of-upsert p key f [] = ground arith
  all-keys_of-upsert p key f ((k, v) ∷ m) =
      ground (arith, all-keys_of-upsert p key f m, list_beq_iff k key)

  pub upsert-ascends :
      (key : Text) (f : Option V → V) (m : List (Text × V))
      → ascends (keys_of m) ≡ true
      → ascends (keys_of (upsert key f m)) ≡ true
  unfolding upsert ascends
  upsert-ascends key f [] h = refl
  upsert-ascends key f ((k, v) ∷ m) h = ground (
    arith,
    upsert-ascends key f m,
    all-keys_of-upsert (precedes k) key f m,
    list_beq_iff k key,
    list_beq_iff key k,
    above_all key k (keys_of m),
    precedes_total key k,
  )

  entry_at_absent :
      (key : Text) (m : List (Text × V))
      → all (precedes key) (keys_of m) ≡ true
      → entry_at m key ≡ none
  unfolding entry_at
  entry_at_absent key [] h = refl
  entry_at_absent key ((k, v) ∷ m) h =
      ground (arith, entry_at_absent key m, list_beq_iff k key, precedes_irrefl key)

  pub entry_at-upsert :
      (key other : Text) (f : Option V → V) (m : List (Text × V))
      → ascends (keys_of m) ≡ true
      → entry_at (upsert key f m) other
        ≡ (if key == other then some (f (entry_at m key)) else entry_at m other)
  unfolding upsert entry_at ascends
  entry_at-upsert key other f [] h = refl
  entry_at-upsert key other f ((k, v) ∷ m) h = ground (
    arith,
    entry_at-upsert key other f m,
    list_beq_iff k key,
    list_beq_iff key other,
    list_beq_iff k other,
    entry_at_absent key m,
    above_all key k (keys_of m),
  )
