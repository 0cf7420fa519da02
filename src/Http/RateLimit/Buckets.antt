-- ===== src/Http/RateLimit/Buckets.antt =====
-- crates/amk-http/src/ratelimit.rs: the map of buckets.
use agent_mail_kit.Prelude.{
  ℕ, ◌+◌, ◌≡◌, refl, sym, Bool, true, some, List, [], ◌∷◌, leb, length, retain, All, arith,
  Bool-cases, Option-cases, inl, inr,
}
use agent_mail_kit.Http.RateLimit.{Subject, subject_beq, Bucket, lookup, put, or_insert, evict}

module _ {F : Type 0} (P : Bucket F → Type 0) where
  abbrev pub AllBuckets : List (Subject × Bucket F) → Type 0
  AllBuckets map = All (λ e. P e.1) map

  pub all-put :
      (s : Subject) (b : Bucket F) (map : List (Subject × Bucket F))
      → P b
      → AllBuckets map
      → AllBuckets (put s b map)
  unfolding put
  all-put s b [] h hs = (h, tt)
  all-put s b ((t, c) ∷ rest) h (h', hs) = elim (Bool-cases (subject_beq t s)) [
    | inl same ↦ rw same (h, hs)
    | inr other ↦ rw other (h', all-put s b rest h hs)
  ]

  pub all-retain_buckets :
      (q : Subject × Bucket F → Bool) (map : List (Subject × Bucket F))
      → AllBuckets map
      → AllBuckets (retain q map)
  unfolding retain
  all-retain_buckets q [] hs = tt
  all-retain_buckets q (e ∷ rest) (h, hs) = elim (Bool-cases (q e)) [
    | inl kept ↦ rw kept (h, all-retain_buckets q rest hs)
    | inr gone ↦ rw gone (all-retain_buckets q rest hs)
  ]

  pub of_lookup :
      (s : Subject) (map : List (Subject × Bucket F)) (b : Bucket F)
      → AllBuckets map
      → lookup s map ≡ some b
      → P b
  unfolding lookup
  of_lookup s [] b hs h = cc
  of_lookup s ((t, c) ∷ rest) b (h', hs) h = elim (Bool-cases (subject_beq t s)) [
    | inl same ↦ let here : c ≡ b = ground arith in rw (sym here) h'
    | inr other ↦ of_lookup s rest b hs (ground arith)
  ]

  pub of_insert :
      (s : Subject) (map : List (Subject × Bucket F)) (fresh : Bucket F)
      → P fresh
      → AllBuckets map
      → P (or_insert (lookup s map) fresh)
  of_insert s map fresh h hs = elim (Option-cases (lookup s map)) [
    | inl absent ↦ rw absent h
    | inr (b, found) ↦ rw found (of_lookup s map b hs found)
  ]

module _ {F : Type 0} where
  pub length-put :
      (s : Subject) (b : Bucket F) (map : List (Subject × Bucket F))
      → leb (length (put s b map)) (length map + 1) ≡ true
  unfolding put
  length-put s b [] = refl
  length-put s b ((t, c) ∷ rest) = ground (arith, length-put s b rest)

  pub length-put_found :
      (s : Subject) (b c : Bucket F) (map : List (Subject × Bucket F))
      → lookup s map ≡ some c
      → length (put s b map) ≡ length map
  unfolding put lookup
  length-put_found s b c [] h = cc
  length-put_found s b c ((t, d) ∷ rest) h = ground (arith, length-put_found s b c rest)

  length-retain :
      (q : Subject × Bucket F → Bool) (map : List (Subject × Bucket F))
      → leb (length (retain q map)) (length map) ≡ true
  unfolding retain
  length-retain q [] = refl
  length-retain q (e ∷ rest) = ground (arith, length-retain q rest)

  pub length-evict :
      (now : ℕ) (map : List (Subject × Bucket F)) → leb (length (evict now map)) (length map) ≡ true
  unfolding evict
  length-evict now map = length-retain _ map
