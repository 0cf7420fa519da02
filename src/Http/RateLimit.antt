-- ===== src/Http/RateLimit.antt =====
-- crates/amk-http/src/ratelimit.rs: token buckets. An `Instant` is its nanoseconds; the arithmetic of
-- `f64` is the record `Amount`.
pub mod Buckets
pub mod Bounds
pub mod Fairness
use agent_mail_kit.Prelude.{
  ℕ, zero, suc, ◌+◌, ◌-◌, ◌*◌, ◌^◌, ◌≡◌, refl, ap, ◌↔◌, Bool, true, false, ◌&&◌, ◌||◌, not, Option,
  none, some, List, [], ◌∷◌, ◌++◌, PartialEq, ◌==◌, nat_eq, list_eq, ltb, leb, length, retain,
  if◌then◌else◌, arith,
}
use agent_mail_kit.Types.Str.{Text}

-- What the limiter uses of `f64`. `duration_secs` is `Duration::as_secs_f64`, and `literal` the value
-- of a whole number.
pub record Amount (F : Type 0) : Type 0 where
  pub literal : ℕ → F
  pub duration_secs : ℕ → F
  pub add : F → F → F
  pub sub : F → F → F
  pub mul : F → F → F
  pub min : F → F → F
  pub max : F → F → F
  pub neg : F → F
  pub ge : F → F → Bool

-- `Duration::from_secs(600)`
abbrev pub idle_eviction : ℕ
idle_eviction = 600 * 10 ^ 9

abbrev pub max_buckets : ℕ
max_buckets = 50000

-- An address as the number that its octets write.
pub data IpAddr : Type 0 where
  v4 v6 : ℕ → IpAddr

pub data Subject : Type 0 where
  key : Text → Subject
  ip probe : IpAddr → Subject

abbrev pub ip_beq : IpAddr → IpAddr → Bool
ip_beq (v4 a) (v4 b) = a == b
ip_beq (v6 a) (v6 b) = a == b
ip_beq _ _ = false

abbrev pub subject_beq : Subject → Subject → Bool
subject_beq (key s) (key t) = s == t
subject_beq (ip a) (ip b) = ip_beq a b
subject_beq (probe a) (probe b) = ip_beq a b
subject_beq _ _ = false

-- `strip_prefix` of a text, and `chars().take(16)`.
unfoldable pub strip : Text → Text → Option Text
strip [] s = some s
strip (c ∷ p) [] = none
strip (c ∷ p) (d ∷ s) = if c == d then strip p s else none

unfoldable pub take : ℕ → Text → Text
take zero s = []
take (suc n) [] = []
take (suc n) (c ∷ s) = c ∷ take n s

abbrev pub bearer : Text
bearer = b'B' ∷ b'e' ∷ b'a' ∷ b'r' ∷ b'e' ∷ b'r' ∷ b' ' ∷ []

abbrev by_token : IpAddr → Option Text → Subject
by_token peer none = ip peer
by_token peer (some []) = ip peer
by_token peer (some (c ∷ s)) = key (take 16 (c ∷ s))

unfoldable pub derive : Option Text → IpAddr → Subject
derive none peer = ip peer
derive (some v) peer = by_token peer (strip bearer v)

pub record Bucket (F : Type 0) : Type 0 where
  pub tokens : F
  pub last : ℕ

-- `poisoned` is whether a thread panicked while it held the lock.
pub record RateLimiter (F : Type 0) : Type 0 where
  pub poisoned : Bool
  pub buckets : List (Subject × Bucket F)
  pub capacity : F
  pub refill : F

module _ {F : Type 0} where
  -- `map.get_mut(subject)`
  unfoldable pub lookup : Subject → List (Subject × Bucket F) → Option (Bucket F)
  lookup s [] = none
  lookup s ((t, b) ∷ rest) = if subject_beq t s then some b else lookup s rest

  -- A bucket changed in place, or inserted.
  unfoldable pub put : Subject → Bucket F → List (Subject × Bucket F) → List (Subject × Bucket F)
  put s b [] = (s, b) ∷ []
  put s b ((t, c) ∷ rest) = if subject_beq t s then (t, b) ∷ rest else (t, c) ∷ put s b rest

  -- `or_insert`
  abbrev pub or_insert : Option (Bucket F) → Bucket F → Bucket F
  or_insert none b = b
  or_insert (some c) b = c

  -- `map.retain`, with `Instant::duration_since`, which stops at zero.
  unfoldable pub evict : ℕ → List (Subject × Bucket F) → List (Subject × Bucket F)
  evict now map = retain (λ e. ltb (now - e.1.last) idle_eviction) map

module _ {F : Type 0} (f : Amount F) where
  -- `RateLimiter::default`
  unfoldable pub default : RateLimiter F
  default = record {
    poisoned = false;
    buckets = [];
    capacity = f.literal 120;
    refill = f.literal 2;
  }

  unfoldable pub cost_for_status : ℕ → F
  cost_for_status status = if status == 401 || status == 403 then f.literal 20 else f.literal 1

  -- The bucket with the tokens restored since it was last touched.
  unfoldable pub refilled : RateLimiter F → Bucket F → ℕ → Bucket F
  refilled r b now = record {
    tokens = f.min (f.add b.tokens (f.mul (f.duration_secs (now - b.last)) r.refill)) r.capacity;
    last = now;
  }

  -- `check_at` once there is room in the map.
  unfoldable pub charge :
      RateLimiter F → List (Subject × Bucket F) → Subject → F → ℕ → Bool × RateLimiter F
  unfolding refilled lookup
  charge r map subject cost now =
      let fresh : Bucket F = record { tokens = r.capacity; last = now } in
      let b : Bucket F = refilled r (or_insert (lookup subject map) fresh) now in
      if f.ge b.tokens cost
      then (
        true,
        record r { buckets = put subject (record b { tokens = f.sub b.tokens cost }) map },
      )
      else (false, record r { buckets = put subject b map })

  unfoldable pub check_at : RateLimiter F → Subject → F → ℕ → Bool × RateLimiter F
  unfolding charge evict
  check_at r subject cost now =
      if r.poisoned
      then (true, r)
      else if leb max_buckets (length r.buckets)
      then (if leb max_buckets (length (evict now r.buckets))
          then (true, record r { buckets = evict now r.buckets })
          else charge r (evict now r.buckets) subject cost now)
      else charge r r.buckets subject cost now

  -- The bucket after a penalty.
  unfoldable pub penalised : RateLimiter F → Bucket F → F → ℕ → Bucket F
  unfolding refilled
  penalised r b cost now =
      let c : Bucket F = refilled r b now in
      record c { tokens = f.max (f.sub c.tokens cost) (f.neg r.capacity) }

  unfoldable pub penalise_at : RateLimiter F → Subject → F → ℕ → RateLimiter F
  unfolding penalised
  penalise_at r subject cost now = if r.poisoned then r else elim (lookup subject r.buckets) [
    | none ↦ r
    | some b ↦ record r { buckets = put subject (penalised r b cost now) r.buckets }
  ]
