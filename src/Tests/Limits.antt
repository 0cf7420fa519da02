-- ===== src/Tests/Limits.antt =====
-- The rate limiter at concrete inputs, with balances that are whole numbers and no debt.
use agent_mail_kit.Prelude.{
  ℕ, ◌+◌, ◌-◌, ◌*◌, ◌/◌, ◌^◌, refl, false, [], ◌∷◌, leb, arith, if◌then◌else◌,
}
use agent_mail_kit.Http.RateLimit.{
  Amount, IpAddr, v4, ip, Bucket, RateLimiter, default, check_at, penalise_at,
}
use agent_mail_kit.Http.RateLimit.Bounds.{
  AmountLaws, IsBounded, started, checked, punished, reached-IsBounded,
}

abbrev whole : Amount ℕ
whole = record {
  literal = λ n. n;
  duration_secs = λ n. n / 10 ^ 9;
  add = λ a b. a + b;
  sub = λ a b. a - b;
  mul = λ a b. a * b;
  min = λ a b. if leb a b then a else b;
  max = λ a b. if leb a b then b else a;
  neg = λ a. 0;
  ge = λ a b. leb b a;
}

whole_laws : AmountLaws whole 120 2
whole_laws = record {
  ge_refl = refl;
  ge-neg = refl;
  ge-min = λ a. ground arith;
  ge-restored = λ a nanos h. ground arith;
  ge-sub = λ a cost h k. ground arith;
  sub-ge = λ a cost h k l. ground arith;
  ge-max = λ a h. ground arith;
  max-ge = λ a. ground arith;
}

abbrev peer : IpAddr
peer = v4 2130706433

abbrev after_check : RateLimiter ℕ
after_check = (check_at whole (default whole) (ip peer) 1 5).1

reached-IsBounded_example : IsBounded whole 120 2 (penalise_at whole after_check (ip peer) 20 6)
unfolding default
reached-IsBounded_example =
    reached-IsBounded whole 120 2 whole_laws (default whole) (refl, refl, refl, tt)
      (punished (ip peer) 20 6 refl (checked (ip peer) 1 5 refl started))

abbrev spent : Bucket ℕ
spent = record { tokens = 3; last = 0 }

abbrev drained : RateLimiter ℕ
drained = record { poisoned = false; buckets = (ip peer, spent) ∷ []; capacity = 120; refill = 2 }
