-- ===== src/Prelude/Results.antt =====
-- Rust's `Result`, and the names of its methods that the source calls.
use mathlib.Core.Path.{◌≡◌, refl, ap}
use mathlib.Core.Logic.{◌⊎◌, inl, inr}
use mathlib.Core.Bool.{Bool, true, false, ◌&&◌}
use mathlib.Core.Option.{Option, none, some}

pub data Result {ℓ κ} (A : Type ℓ) (E : Type κ) : Type (ℓ ⊔ κ) where
  ok : A → Result A E
  err : E → Result A E

-- `is_ok()`
abbrev pub is_ok {ℓ κ} : {A : Type ℓ} {E : Type κ} → Result A E → Bool
is_ok (ok a) = true
is_ok (err e) = false

-- The operator `?`.
infixl 5 ◌>>=◌ ◌>>◌
abbrev pub ◌>>=◌ {ℓ κ} : {A B : Type ℓ} {E : Type κ} → Result A E → (A → Result B E) → Result B E
ok a >>= f = f a
err e >>= f = err e

abbrev pub ◌>>◌ {ℓ κ} : {A B : Type ℓ} {E : Type κ} → Result A E → Result B E → Result B E
m >> k = m >>= λ _. k

-- `if refused { return Err(e) }`
abbrev pub refuse {ℓ κ} : {E : Type κ} → Bool → E → Result (Unit {ℓ}) E
refuse true e = err e
refuse false e = ok tt

-- `ok_or`
abbrev pub ok_or {ℓ κ} : {A : Type ℓ} {E : Type κ} → Option A → E → Result A E
ok_or none e = err e
ok_or (some a) e = ok a

pub Result-cases {ℓ κ} :
    {A : Type ℓ} {E : Type κ} (r : Result A E) → ((a : A) × (r ≡ ok a)) ⊎ ((e : E) × (r ≡ err e))
Result-cases (ok a) = inl (a, refl)
Result-cases (err e) = inr (e, refl)

pub is_ok->> {ℓ κ} :
    {A B : Type ℓ} {E : Type κ} (m : Result A E) (n : Result B E)
    → is_ok (m >> n) ≡ (is_ok m && is_ok n)
is_ok->> (ok a) n = refl
is_ok->> (err e) n = refl

abbrev value_or {ℓ κ} : {A : Type ℓ} {E : Type κ} → A → Result A E → A
value_or d (ok a) = a
value_or d (err e) = d

pub ok_injective {ℓ κ} :
    {A : Type ℓ} {E : Type κ} (a b : A) → ◌≡◌ {A = Result A E} (ok a) (ok b) → a ≡ b
ok_injective a b h = ap (value_or a) h

-- A bind that succeeds, taken apart.
pub bind_ok {ℓ κ} :
    {A B : Type ℓ} {E : Type κ} (m : Result A E) (f : A → Result B E) {b : B}
    → (m >>= f) ≡ ok b
    → (a : A) × (m ≡ ok a) × (f a ≡ ok b)
bind_ok (ok a) f h = (a, refl, h)
bind_ok (err e) f h = cc

pub refuse_ok {ℓ κ} : {E : Type κ} (b : Bool) (e : E) {u : Unit {ℓ}} → refuse b e ≡ ok u → b ≡ false
refuse_ok true e h = cc
refuse_ok false e h = refl

pub ok_or_ok {ℓ κ} :
    {A : Type ℓ} {E : Type κ} (o : Option A) (e : E) {a : A} → ok_or o e ≡ ok a → o ≡ some a
ok_or_ok none e h = cc
ok_or_ok (some b) e h = ap some (ok_injective _ _ h)
