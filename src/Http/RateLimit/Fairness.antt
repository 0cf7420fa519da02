-- ===== src/Http/RateLimit/Fairness.antt =====
-- crates/amk-http/src/ratelimit.rs: whom a charge touches.
use agent_mail_kit.Prelude.{
  ℕ, ◌≡◌, refl, ap, Bool, true, false, some, List, [], ◌∷◌, nat_eq, list_eq, leb, length, arith,
  if_both, Bool-cases, Option-cases, inl, inr, ==→eq, ==_refl,
}
use agent_mail_kit.Http.RateLimit.{
  Amount, IpAddr, v4, v6, Subject, key, ip, probe, ip_beq, subject_beq, Bucket, RateLimiter,
  max_buckets, lookup, put, or_insert, refilled, charge, check_at, penalised, penalise_at,
}

eq_of_ip_beq : (a b : IpAddr) → ip_beq a b ≡ true → a ≡ b
eq_of_ip_beq (v4 a) (v4 b) h = ap v4 (==→eq a b h)
eq_of_ip_beq (v6 a) (v6 b) h = ap v6 (==→eq a b h)
eq_of_ip_beq (v4 a) (v6 b) h = cc
eq_of_ip_beq (v6 a) (v4 b) h = cc

eq_of_subject_beq : (s t : Subject) → subject_beq s t ≡ true → s ≡ t
eq_of_subject_beq (key a) (key b) h = ap key (==→eq a b h)
eq_of_subject_beq (ip a) (ip b) h = ap ip (eq_of_ip_beq a b h)
eq_of_subject_beq (probe a) (probe b) h = ap probe (eq_of_ip_beq a b h)
eq_of_subject_beq (key a) (ip b) h = cc
eq_of_subject_beq (key a) (probe b) h = cc
eq_of_subject_beq (ip a) (key b) h = cc
eq_of_subject_beq (ip a) (probe b) h = cc
eq_of_subject_beq (probe a) (key b) h = cc
eq_of_subject_beq (probe a) (ip b) h = cc

ip_beq_refl : (a : IpAddr) → ip_beq a a ≡ true
ip_beq_refl (v4 a) = ==_refl a
ip_beq_refl (v6 a) = ==_refl a

subject_beq_refl : (s : Subject) → subject_beq s s ≡ true
subject_beq_refl (key a) = ==_refl a
subject_beq_refl (ip a) = ip_beq_refl a
subject_beq_refl (probe a) = ip_beq_refl a

module _ {F : Type 0} where
  lookup-put_other :
      (s t : Subject) (b : Bucket F) (map : List (Subject × Bucket F))
      → subject_beq s t ≡ false
      → lookup t (put s b map) ≡ lookup t map
  unfolding lookup put
  lookup-put_other s t b [] h = rw h refl
  lookup-put_other s t b ((u, c) ∷ rest) h = elim (Bool-cases (subject_beq u s)) [
    | inl same ↦
        let other : subject_beq u t ≡ false = rw (eq_of_subject_beq u s same) h in
        rw (same, other) refl
    | inr differs ↦ rw (differs, lookup-put_other s t b rest h) refl
  ]

  lookup-put_same :
      (s : Subject) (b : Bucket F) (map : List (Subject × Bucket F))
      → lookup s (put s b map) ≡ some b
  unfolding lookup put
  lookup-put_same s b [] = rw (subject_beq_refl s) refl
  lookup-put_same s b ((u, c) ∷ rest) = elim (Bool-cases (subject_beq u s)) [
    | inl same ↦ rw (same, same) refl
    | inr differs ↦ rw (differs, differs) (lookup-put_same s b rest)
  ]

module _ {F : Type 0} (f : Amount F) where
  charge_isolated :
      (r : RateLimiter F) (map : List (Subject × Bucket F)) (subject other : Subject) (cost : F)
      (now : ℕ)
      → subject_beq subject other ≡ false
      → lookup other (charge f r map subject cost now).1.buckets ≡ lookup other map
  unfolding charge
  charge_isolated r map subject other cost now h =
      let fresh : Bucket F = record { tokens = r.capacity; last = now } in
      let b : Bucket F = refilled f r (or_insert (lookup subject map) fresh) now in
      let spent : Bucket F = record b { tokens = f.sub b.tokens cost } in
      elim (Bool-cases (f.ge b.tokens cost)) [
        | inl affordable ↦ rw affordable (lookup-put_other subject other spent map h)
        | inr short ↦ rw short (lookup-put_other subject other b map h)
      ]

  -- A penalty never touches the bucket of another subject, and while the map is not full neither does
  -- a check: of a probe from the very address whose requests are charged, say.
  pub charges_isolated :
      (r : RateLimiter F) (subject other : Subject) (cost : F) (now : ℕ)
      → subject_beq subject other ≡ false
      → (leb max_buckets (length r.buckets) ≡ false
          → lookup other (check_at f r subject cost now).1.buckets ≡ lookup other r.buckets)
        × (lookup other (penalise_at f r subject cost now).buckets ≡ lookup other r.buckets)
  unfolding check_at penalise_at
  charges_isolated r subject other cost now h = (
    (λ space.
        if_both (λ (o : Bool × RateLimiter F). lookup other o.1.buckets ≡ lookup other r.buckets)
          r.poisoned _ _ (λ poisoned. refl)
          (λ sound.
            if_both
              (λ (o : Bool × RateLimiter F). lookup other o.1.buckets ≡ lookup other r.buckets)
              (leb max_buckets (length r.buckets)) _ _ (λ pressed. ground (arith, space, pressed))
              (λ room. charge_isolated r r.buckets subject other cost now h))),
    if_both (λ (s : RateLimiter F). lookup other s.buckets ≡ lookup other r.buckets) r.poisoned _ _
        (λ poisoned. refl)
        (λ sound. elim (Option-cases (lookup subject r.buckets)) [
          | inl absent ↦ rw absent refl
          | inr (b, found) ↦
              rw found (lookup-put_other subject other (penalised f r b cost now) r.buckets h)
        ]),
  )

  charge_refused :
      (r : RateLimiter F) (map : List (Subject × Bucket F)) (subject : Subject) (b : Bucket F)
      (cost : F) (now : ℕ)
      → lookup subject map ≡ some b
      → (charge f r map subject cost now).0 ≡ false
      → (f.ge (refilled f r b now).tokens cost ≡ false)
        × (lookup subject (charge f r map subject cost now).1.buckets ≡ some (refilled f r b now))
  unfolding charge
  charge_refused r map subject b cost now found =
      let P : Bool × RateLimiter F → Type 0 = λ o.
        o.0 ≡ false
        → (f.ge (refilled f r b now).tokens cost ≡ false)
          × (lookup subject o.1.buckets ≡ some (refilled f r b now)) in
      rw found (
        if_both P (f.ge (refilled f r b now).tokens cost) _ _ (λ affordable refused. cc)
          (λ short refused. (short, lookup-put_same subject (refilled f r b now) map)))

  -- While the map is not full, a refused request costs a subject that has a bucket nothing: it is left
  -- with the balance it had and what time has restored of it, which the cost exceeds.
  pub refusal_is_free :
      (r : RateLimiter F) (subject : Subject) (b : Bucket F) (cost : F) (now : ℕ)
      → leb max_buckets (length r.buckets) ≡ false
      → lookup subject r.buckets ≡ some b
      → (check_at f r subject cost now).0 ≡ false
      → (f.ge (refilled f r b now).tokens cost ≡ false)
        × (lookup subject (check_at f r subject cost now).1.buckets ≡ some (refilled f r b now))
  unfolding check_at
  refusal_is_free r subject b cost now space found refused =
      let P : Bool × RateLimiter F → Type 0 = λ o.
        o.0 ≡ false
        → (f.ge (refilled f r b now).tokens cost ≡ false)
          × (lookup subject o.1.buckets ≡ some (refilled f r b now)) in
      if_both P r.poisoned _ _ (λ poisoned bad. cc)
        (λ sound.
          if_both P (leb max_buckets (length r.buckets)) _ _
            (λ pressed bad. ground (arith, space, pressed))
            (λ room. charge_refused r r.buckets subject b cost now found))
        refused
