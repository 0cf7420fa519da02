-- ===== src/Http/RateLimit/Bounds.antt =====
-- crates/amk-http/src/ratelimit.rs: bounds on what the limiter holds.
use agent_mail_kit.Prelude.{
  ℕ, ◌≡◌, Bool, true, false, List, leb, length, arith, if_both, Bool-cases, Option-cases, inl, inr,
}
use agent_mail_kit.Http.RateLimit.{
  Amount, Subject, Bucket, RateLimiter, max_buckets, lookup, or_insert, evict, refilled, charge,
  check_at, penalised, penalise_at,
}
use agent_mail_kit.Http.RateLimit.Buckets.{
  AllBuckets, all-put, all-retain_buckets, of_lookup, of_insert, length-put, length-put_found,
  length-evict,
}

-- Laws of `f64` at a capacity and a refill rate that are finite and not negative: rounding keeps the
-- order. A cost is an amount that is not negative.
pub record AmountLaws {F : Type 0} (f : Amount F) (capacity refill : F) : Type 0 where
  pub ge_refl : f.ge capacity capacity ≡ true
  pub ge-neg : f.ge capacity (f.neg capacity) ≡ true
  pub ge-min : (a : F) → f.ge capacity (f.min a capacity) ≡ true
  pub ge-restored :
      (a : F) (nanos : ℕ)
      → f.ge a (f.neg capacity) ≡ true
      → f.ge (f.min (f.add a (f.mul (f.duration_secs nanos) refill)) capacity) (f.neg capacity)
        ≡ true
  pub ge-sub :
      (a cost : F)
      → f.ge cost (f.literal 0) ≡ true
      → f.ge capacity a ≡ true
      → f.ge capacity (f.sub a cost) ≡ true
  pub sub-ge :
      (a cost : F)
      → f.ge cost (f.literal 0) ≡ true
      → f.ge capacity a ≡ true
      → f.ge a cost ≡ true
      → f.ge (f.sub a cost) (f.neg capacity) ≡ true
  pub ge-max : (a : F) → f.ge capacity a ≡ true → f.ge capacity (f.max a (f.neg capacity)) ≡ true
  pub max-ge : (a : F) → f.ge (f.max a (f.neg capacity)) (f.neg capacity) ≡ true

-- The limiter's parameters are those given, it holds at most as many buckets as it may, and every
-- balance lies between a full debt and a full bucket.
abbrev pub IsBounded : {F : Type 0} → Amount F → F → F → RateLimiter F → Type 0
IsBounded f capacity refill r =
    (r.capacity ≡ capacity)
    × (r.refill ≡ refill)
    × (leb (length r.buckets) max_buckets ≡ true)
    × AllBuckets (λ b. (f.ge capacity b.tokens ≡ true) × (f.ge b.tokens (f.neg capacity) ≡ true))
        r.buckets

module _ {F : Type 0} (f : Amount F) (capacity refill : F)
    (laws : AmountLaws f capacity refill) where
  abbrev InRange : Bucket F → Type 0
  InRange b = (f.ge capacity b.tokens ≡ true) × (f.ge b.tokens (f.neg capacity) ≡ true)

  InRange-refilled :
      (r : RateLimiter F) (b : Bucket F) (now : ℕ)
      → r.capacity ≡ capacity
      → r.refill ≡ refill
      → InRange b
      → InRange (refilled f r b now)
  unfolding refilled
  InRange-refilled r b now c e (h, l) = rw (c, e) (laws.ge-min _, laws.ge-restored _ _ l)

  charge-IsBounded :
      (r : RateLimiter F) (map : List (Subject × Bucket F)) (subject : Subject) (cost : F) (now : ℕ)
      → r.capacity ≡ capacity
      → r.refill ≡ refill
      → leb max_buckets (length map) ≡ false
      → AllBuckets InRange map
      → f.ge cost (f.literal 0) ≡ true
      → IsBounded f capacity refill (charge f r map subject cost now).1
  unfolding charge
  charge-IsBounded r map subject cost now c e room hs nonneg =
      let fresh : Bucket F = record { tokens = r.capacity; last = now } in
      let start : InRange fresh = rw c (laws.ge_refl, laws.ge-neg) in
      let full =
        InRange-refilled r (or_insert (lookup subject map) fresh) now c e
          (of_insert InRange subject map fresh start hs) in
      let b : Bucket F = refilled f r (or_insert (lookup subject map) fresh) now in
      elim (Bool-cases (f.ge b.tokens cost)) [
        | inl affordable ↦
            let spent : Bucket F = record b { tokens = f.sub b.tokens cost } in
            rw affordable (
              c,
              e,
              ground (arith, room, length-put subject spent map),
              all-put InRange subject spent map
                  (
                    laws.ge-sub _ cost nonneg (full.0),
                    laws.sub-ge _ cost nonneg (full.0) affordable,
                  )
                  hs,
            )
        | inr short ↦ rw short (
          c,
          e,
          ground (arith, room, length-put subject b map),
          all-put InRange subject b map full hs,
        )
      ]

  check_at-IsBounded :
      (r : RateLimiter F) (subject : Subject) (cost : F) (now : ℕ)
      → f.ge cost (f.literal 0) ≡ true
      → IsBounded f capacity refill r
      → IsBounded f capacity refill (check_at f r subject cost now).1
  unfolding check_at evict
  check_at-IsBounded r subject cost now nonneg (c, e, room, hs) =
      let P : Bool × RateLimiter F → Type 0 = λ o. IsBounded f capacity refill o.1 in
      if_both P r.poisoned _ _ (λ poisoned. (c, e, room, hs))
        (λ sound.
          if_both P (leb max_buckets (length r.buckets)) _ _
            (λ pressed.
              if_both P (leb max_buckets (length (evict now r.buckets))) _ _
                (λ full. (
                  c,
                  e,
                  ground (arith, room, length-evict now r.buckets),
                  all-retain_buckets InRange _ r.buckets hs,
                ))
                (λ space.
                  charge-IsBounded r (evict now r.buckets) subject cost now c e space
                    (all-retain_buckets InRange _ r.buckets hs) nonneg))
            (λ space. charge-IsBounded r r.buckets subject cost now c e space hs nonneg))

  InRange-owed :
      (a cost full : F)
      → full ≡ capacity
      → f.ge cost (f.literal 0) ≡ true
      → f.ge capacity a ≡ true
      → (f.ge capacity (f.max (f.sub a cost) (f.neg full)) ≡ true)
        × (f.ge (f.max (f.sub a cost) (f.neg full)) (f.neg capacity) ≡ true)
  InRange-owed a cost full c nonneg high =
      rw c (laws.ge-max _ (laws.ge-sub a cost nonneg high), laws.max-ge _)

  penalise_at-IsBounded :
      (r : RateLimiter F) (subject : Subject) (cost : F) (now : ℕ)
      → f.ge cost (f.literal 0) ≡ true
      → IsBounded f capacity refill r
      → IsBounded f capacity refill (penalise_at f r subject cost now)
  unfolding penalise_at penalised
  penalise_at-IsBounded r subject cost now nonneg (c, e, room, hs) = elim (Bool-cases r.poisoned) [
    | inl poisoned ↦ rw poisoned (c, e, room, hs)
    | inr sound ↦ elim (Option-cases (lookup subject r.buckets)) [
      | inl absent ↦ rw (sound, absent) (c, e, room, hs)
      | inr (b, found) ↦
          let (high, low) =
            InRange-refilled r b now c e (of_lookup InRange subject r.buckets b hs found) in
          rw (sound, found)
            (
              c,
              e,
              ground (arith, length-put_found subject (penalised f r b cost now) b r.buckets found),
              all-put InRange subject (penalised f r b cost now) r.buckets
                  (InRange-owed _ cost r.capacity c nonneg high) hs,
            )
    ]
  ]

-- The limiters that a run of checks and penalties, by whomever and in whatever order, leads to.
pub data Reaches {F : Type 0} (f : Amount F) (r : RateLimiter F) : RateLimiter F → Type 0 where
  started : Reaches f r r
  checked :
      {s : RateLimiter F} (subject : Subject) (cost : F) (now : ℕ)
      → f.ge cost (f.literal 0) ≡ true
      → Reaches f r s
      → Reaches f r (check_at f s subject cost now).1
  punished :
      {s : RateLimiter F} (subject : Subject) (cost : F) (now : ℕ)
      → f.ge cost (f.literal 0) ≡ true
      → Reaches f r s
      → Reaches f r (penalise_at f s subject cost now)

-- A limiter within its bounds stays within them, whatever checks and penalties come whose costs are
-- not negative: it never holds more buckets than its limit, no balance exceeds the capacity, and no
-- debt exceeds it either. The arithmetic is assumed to keep the order, as `AmountLaws` says.
pub reached-IsBounded :
    {F : Type 0} (f : Amount F) (capacity refill : F) (laws : AmountLaws f capacity refill)
    (r : RateLimiter F) {s : RateLimiter F}
    → IsBounded f capacity refill r
    → Reaches f r s
    → IsBounded f capacity refill s
reached-IsBounded f capacity refill laws r h started = h
reached-IsBounded f capacity refill laws r h (checked subject cost now nonneg run) =
    check_at-IsBounded f capacity refill laws _ subject cost now nonneg
      (reached-IsBounded f capacity refill laws r h run)
reached-IsBounded f capacity refill laws r h (punished subject cost now nonneg run) =
    penalise_at-IsBounded f capacity refill laws _ subject cost now nonneg
      (reached-IsBounded f capacity refill laws r h run)
