-- ===== src/Core/Labels/Masks.antt =====
-- crates/amk-core/src/labels.rs: the mask of `include_*` flags keeps each label's bit apart.
use Prim.Native.Nat.{bit_and}
use agent_mail_kit.Prelude.{
  ℕ, ◌≡◌, refl, String, Bool, true, false, not, arith, ◌==◌, nat_eq, string_eq, contains,
  if◌then◌else◌,
}
use agent_mail_kit.Types.Labels.{is_restricted, spam, blocked, unauthenticated, trash}
use agent_mail_kit.Types.ApiKey.{unwrap_or_false}
use agent_mail_kit.Types.Mail.{ListParams}
use agent_mail_kit.Core.Labels.Flags.{
  IncludeFlags, all_flags, with, has, index_of, from_flags, from_params, bit,
}

-- The flag that was given for a label.
abbrev given : Bool → Bool → Bool → Bool → String → Bool
given s b u t label =
    if spam == label
    then s
    else if blocked == label
    then b
    else if unauthenticated == label
    then u
    else if trash == label
    then t
    else false

abbrev tested : IncludeFlags → ℕ → Bool
tested flags i = not (bit_and flags.bits (bit i) == 0)

has_lem :
    (flags : IncludeFlags) (label : String)
    → has flags label
      ≡ given (tested flags 0) (tested flags 1) (tested flags 2) (tested flags 3) label
unfolding has index_of
has_lem flags label = ground arith

tested-from_flags :
    (s b u t : Bool)
    → (tested (from_flags s b u t) 0 ≡ s)
      × (tested (from_flags s b u t) 1 ≡ b)
      × (tested (from_flags s b u t) 2 ≡ u)
      × (tested (from_flags s b u t) 3 ≡ t)
unfolding from_flags with index_of
tested-from_flags true true true true = (refl, refl, refl, refl)
tested-from_flags s b u t = ground arith

-- The mask that is read off a list query has exactly the labels whose `include_*` flag is present and
-- true, and no label that is not restricted; the full mask has every restricted label and no other.
has-from_params :
    (params : ListParams) (label : String)
    → (has (from_params params) label
        ≡ given
            (unwrap_or_false params.include_spam)
            (unwrap_or_false params.include_blocked)
            (unwrap_or_false params.include_unauthenticated)
            (unwrap_or_false params.include_trash)
            label)
      × (has all_flags label ≡ is_restricted label)
unfolding from_params contains
has-from_params params label =
    let s = unwrap_or_false params.include_spam in
    let b = unwrap_or_false params.include_blocked in
    let u = unwrap_or_false params.include_unauthenticated in
    let t = unwrap_or_false params.include_trash in
    (
      ground (arith, has_lem (from_flags s b u t) label, tested-from_flags s b u t),
      ground (arith, has_lem all_flags label),
    )
