-- ===== src/Core/Scope/Rows.antt =====
-- crates/amk-core/src/scope.rs: rows, threads and collections behind a window.
use agent_mail_kit.Prelude.{
  ◌≡◌, refl, ap, ◌↔◌, true, List, [], ◌∷◌, map, arith, all, All, retain, Bool-cases, inl, inr,
  Result, ok, err,
}
use agent_mail_kit.Types.Mail.{Thread, Message}
use agent_mail_kit.Core.Scope.Denials.{ResourceKind, ScopeDenial, denial}
use agent_mail_kit.Core.Scope.Window.{
  ScopeFilter, Scoped, thread_item_scoped, message_scoped, admits, check, check_thread,
  retain_visible,
}

-- The values of the results that are no errors, in order.
abbrev pub successes {ℓ κ} : {A : Type ℓ} {E : Type κ} → List (Result A E) → List A
successes [] = []
successes (ok a ∷ rs) = a ∷ successes rs
successes (err e ∷ rs) = successes rs

-- A collection keeps exactly the rows that a lookup of the single row would return, in their order.
pub retain_visible-eq-check :
    {T : Type 0} ⦃s : Scoped T⦄ (f : ScopeFilter) (items : List T)
    → retain_visible f items ≡ successes (map (check f) items)
unfolding retain_visible retain check
retain_visible-eq-check f [] = refl
retain_visible-eq-check ⦃s⦄ f (x ∷ xs) = elim (Bool-cases (admits f (s.resource_scope x))) [
  | inl seen ↦ rw seen (ap (◌∷◌ x) (retain_visible-eq-check f xs))
  | inr hidden ↦ rw hidden (retain_visible-eq-check f xs)
]

all→All :
    (f : ScopeFilter) (ms : List Message)
    → all (λ m. admits f (message_scoped.resource_scope m)) ms ≡ true
    → All (λ m. check f m ≡ ok m) ms
unfolding check
all→All f [] h = tt
all→All f (m ∷ ms) h = (ground arith, all→All f ms (ground arith))

All→all :
    (f : ScopeFilter) (ms : List Message)
    → All (λ m. check f m ≡ ok m) ms
    → all (λ m. admits f (message_scoped.resource_scope m)) ms ≡ true
unfolding check
All→all f [] h = refl
All→all f (m ∷ ms) (h, hs) = ground (arith, All→all f ms hs)

-- A thread is handed out, unchanged, exactly when its own lookup and the lookup of every message in it
-- succeed; otherwise it is denied as a thread.
pub check_thread_iff :
    (f : ScopeFilter) (t u : Thread)
    → ((check_thread f t ≡ ok u)
        ↔ ((u ≡ t) × (check f t.item ≡ ok t.item) × All (λ m. check f m ≡ ok m) t.messages))
      × ((d : ScopeDenial) → check_thread f t ≡ err d → d ≡ denial ResourceKind.thread)
unfolding check_thread check
check_thread_iff f t u = (
  (
    λ h. (ground arith, ground arith, all→All f t.messages (ground arith)),
    λ (e, i, ms). ground (arith, All→all f t.messages ms),
  ),
  λ d h. ground arith,
)
