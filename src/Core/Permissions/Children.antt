-- ===== src/Core/Permissions/Children.antt =====
-- A child key never exceeds its parent, at any depth.
use agent_mail_kit.Prelude.{
  String, ◌≡◌, refl, ap, ◌↔◌, ◌⊎◌, ◌≢◌, inl, inr, Bool, true, false, ◌&&◌, not, List, [], ◌∷◌,
  arith, ok, err, contains, contains-retain, retain, string_eq,
}
use agent_mail_kit.Types.ApiKey.{
  KeyGrants, ApiKeyPermissions, unrestricted, restricted, allows, wire_names,
}
use agent_mail_kit.Types.ApiKey.Catalog.{allows-known, unrestricted-allows}
use agent_mail_kit.Core.Permissions.{Denial, derive_child, missing_flags, bounded}

-- Everything that the second may do, the first may do.
abbrev pub IsBounded : KeyGrants → KeyGrants → Type 0
IsBounded parent child = (name : String) → allows child name ≡ true → allows parent name ≡ true

pub contains-missing_flags :
    (p c : KeyGrants) (name : String)
    → contains name (missing_flags p c) ≡ (allows c name && not (allows p name))
unfolding missing_flags
contains-missing_flags p c name = ground (
  arith,
  contains-retain (λ (n : String). allows c n && not (allows p n)) name wire_names,
  allows-known c name,
)

IsBounded-of_empty : (p c : KeyGrants) → missing_flags p c ≡ [] → IsBounded p c
unfolding contains
IsBounded-of_empty p c e name h =
    ground (arith, contains-missing_flags p c name, ap (contains name) e)

empty_of_none {ℓ} :
    {A : Type ℓ} (p : A → Bool) (xs : List A) → ((x : A) → p x ≡ false) → retain p xs ≡ []
unfolding retain
empty_of_none p [] h = refl
empty_of_none p (x ∷ xs) h = ground (arith, h x, empty_of_none p xs h)

empty_of_bounded : (p c : KeyGrants) → IsBounded p c → missing_flags p c ≡ []
unfolding missing_flags
empty_of_bounded p c b =
    empty_of_none (λ (n : String). allows c n && not (allows p n)) wire_names
      (λ name. ground (arith, b name))

bounded_ok :
    (q child : KeyGrants) (l : List String) → (bounded q l ≡ ok child) ↔ ((child ≡ q) × (l ≡ []))
unfolding bounded
bounded_ok q child [] = (λ h. (cc, refl), λ h. cc)
bounded_ok q child (x ∷ l) = (λ h. cc, λ h. cc)

-- A child is derived, as it was requested, exactly when its parent is unrestricted, or the child is
-- restricted and may do nothing that the parent may not.
pub derive_child_iff :
    (parent requested child : KeyGrants)
    → (derive_child parent requested ≡ ok child) ↔ (
        (child ≡ requested)
        × ((parent ≡ unrestricted)
            ⊎ ((q : ApiKeyPermissions) × (requested ≡ restricted q) × IsBounded parent requested)))
unfolding derive_child
derive_child_iff unrestricted requested child = (λ h. (cc, inl refl), λ h. cc (h.0))
derive_child_iff (restricted p) unrestricted child = (λ h. cc, λ (e, s). never s)
  where
    never :
        ((restricted p ≡ unrestricted)
          ⊎ ((q : ApiKeyPermissions) × (unrestricted ≡ restricted q)
              × IsBounded (restricted p) unrestricted))
        → err Denial.unbounded_child ≡ ok child
    never (inl e) = cc
    never (inr (q, e, b)) = cc
derive_child_iff (restricted p) (restricted q) child = (
  λ h. let (e, l) = (bounded_ok _ _ _).0 h in (e, inr (q, refl, IsBounded-of_empty _ _ l)),
  λ (e, s). (bounded_ok _ _ _).1 (e, empty_of_bounded _ _ (kept s)),
)
  where
    kept :
        ((restricted p ≡ unrestricted)
          ⊎ ((r : ApiKeyPermissions) × (restricted q ≡ restricted r)
              × IsBounded (restricted p) (restricted q)))
        → IsBounded (restricted p) (restricted q)
    kept (inl e) = cc
    kept (inr (r, e, b)) = b

-- Keys minted one from another, through any number of derivations.
pub data Descends (root : KeyGrants) : KeyGrants → Type 0 where
  itself : Descends root root
  child_of :
      {parent child : KeyGrants} (requested : KeyGrants)
      → Descends root parent
      → derive_child parent requested ≡ ok child
      → Descends root child

IsBounded-step : (p r c : KeyGrants) → derive_child p r ≡ ok c → IsBounded p c
unfolding derive_child
IsBounded-step unrestricted r c h = λ name k. unrestricted-allows name (allows-known c name k)
IsBounded-step (restricted p) unrestricted c h = cc
IsBounded-step (restricted p) (restricted q) c h =
    let (e, l) = (bounded_ok _ _ _).0 h in
    λ name k. IsBounded-of_empty (restricted p) (restricted q) l name (rw (← e) k)

-- No chain of derivations gives a key a flag that the first key does not hold: what one derivation
-- dropped, no later one brings back.
pub descendant-IsBounded :
    (root : KeyGrants) {key : KeyGrants} → Descends root key → IsBounded root key
descendant-IsBounded root itself = λ name h. h
descendant-IsBounded root (child_of {parent} {child} requested d e) =
    λ name h. descendant-IsBounded root d name (IsBounded-step parent requested child e name h)

-- The refusal of a restricted child names exactly the flags that it would have and the parent lacks,
-- and at least one of them.
pub escalation_names_missing :
    (p q : ApiKeyPermissions) (missing : List String)
    → derive_child (restricted p) (restricted q) ≡ err (Denial.permission_escalation missing)
    → (missing ≢ [])
      × ((name : String)
          → contains name missing
            ≡ (allows (restricted q) name && not (allows (restricted p) name)))
unfolding derive_child
escalation_names_missing p q missing h =
    let (e, n) = named _ missing h in
    (n, λ name. rw e (contains-missing_flags (restricted p) (restricted q) name))
  where
    named :
        (l m : List String)
        → bounded (restricted q) l ≡ err (Denial.permission_escalation m)
        → (m ≡ l) × (m ≢ [])
    named [] m h = cc
    named (x ∷ l) m h = (cc, λ e. cc)
