-- ===== src/Core/Permissions/Subscriptions.antt =====
-- Who may subscribe to which event.
use agent_mail_kit.Prelude.{
  String, ◌≡◌, refl, sym, true, false, List, [], ◌∷◌, arith, err, is_ok, contains, string_eq, all,
  Bool-cases, inl, inr, ==_refl,
}
use agent_mail_kit.Types.ApiKey.{KeyGrants, allows, label_read_flag}
use agent_mail_kit.Types.Event.{
  EventType, message_received_spam, message_received_blocked, message_received_unauthenticated,
  domain_verified,
}
use agent_mail_kit.Core.Permissions.{
  Denial, require, require_all, subscription_flags, require_subscribe, may_subscribe,
  restricted_receive_label,
}

-- The flags by name that the deliveries of an event call for: a domain, or messages, and for a
-- restricted variant the reading of its label.
abbrev pub required : EventType → List String
required domain_verified = "domain_read" ∷ []
required message_received_spam = "message_read" ∷ "label_spam_read" ∷ []
required message_received_blocked = "message_read" ∷ "label_blocked_read" ∷ []
required message_received_unauthenticated = "message_read" ∷ "label_unauthenticated_read" ∷ []
required _ = "message_read" ∷ []

all_of_require :
    (g : KeyGrants) (flags : List String) → is_ok (require_all g flags) ≡ all (allows g) flags
unfolding require_all require
all_of_require g [] = refl
all_of_require g (f ∷ fs) = ground (arith, all_of_require g fs)

subscription_flags-eq-required : (event : EventType) → subscription_flags event ≡ required event
unfolding subscription_flags restricted_receive_label label_read_flag
subscription_flags-eq-required domain_verified = refl
subscription_flags-eq-required message_received_spam = refl
subscription_flags-eq-required message_received_blocked = refl
subscription_flags-eq-required message_received_unauthenticated = refl
subscription_flags-eq-required _ = refl

-- A denial names a flag of the list that is not held, and every flag before it is held.
first_lacking :
    (g : KeyGrants) (flags : List String) (d : Denial)
    → require_all g flags ≡ err d
    → (flag : String) × (d ≡ Denial.missing_permission flag)
      × (contains flag flags ≡ true)
      × (allows g flag ≡ false)
unfolding require_all require contains
first_lacking g [] d h = cc
first_lacking g (f ∷ fs) d h = elim (Bool-cases (allows g f)) [
  | inl held ↦
      let (flag, e, m, l) = first_lacking g fs d (rw held at h) in (flag, e, ground (arith, m), l)
  | inr lacking ↦ (f, ground arith, ground (arith, ==_refl f), lacking)
]

-- A credential may subscribe to an event exactly when it holds every flag that the deliveries call
-- for: `domain_read` for `domain.verified`, `message_read` for all others, and the flag that reads its
-- label too for each restricted variant. A refusal names one of these flags that is not held.
pub subscribe_reads :
    (g : KeyGrants) (event : EventType)
    → (may_subscribe g event ≡ all (allows g) (required event))
      × ((d : Denial)
          → require_subscribe g event ≡ err d
          → (flag : String) × (d ≡ Denial.missing_permission flag)
            × (contains flag (required event) ≡ true)
            × (allows g flag ≡ false))
unfolding may_subscribe require_subscribe
subscribe_reads g event =
    let same = subscription_flags-eq-required event in
    rw (sym same) (
      all_of_require g (subscription_flags event),
      λ d h. first_lacking g (subscription_flags event) d h,
    )
