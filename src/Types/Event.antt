-- ===== src/Types/Event.antt =====
-- crates/amk-types/src/event.rs: the types of events.
use agent_mail_kit.Prelude.{ℕ, Bool, true, false, List, [], ◌∷◌}

pub data EventType : Type 0 where
  message_received message_received_spam message_received_blocked : EventType
  message_received_unauthenticated message_sent message_delivered : EventType
  message_bounced message_complained message_rejected domain_verified : EventType

-- `ALL`
abbrev pub all_types : List EventType
all_types =
    message_received ∷ message_received_spam ∷ message_received_blocked
    ∷ message_received_unauthenticated ∷ message_sent ∷ message_delivered ∷ message_bounced
    ∷ message_complained ∷ message_rejected ∷ domain_verified ∷ []

unfoldable pub ordinal : EventType → ℕ
ordinal message_received = 0
ordinal message_received_spam = 1
ordinal message_received_blocked = 2
ordinal message_received_unauthenticated = 3
ordinal message_sent = 4
ordinal message_delivered = 5
ordinal message_bounced = 6
ordinal message_complained = 7
ordinal message_rejected = 8
ordinal domain_verified = 9

unfoldable pub is_restricted_receive : EventType → Bool
is_restricted_receive message_received_spam = true
is_restricted_receive message_received_blocked = true
is_restricted_receive message_received_unauthenticated = true
is_restricted_receive _ = false
