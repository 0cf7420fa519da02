-- ===== src/Core/Labels/Flags.antt =====
-- crates/amk-core/src/labels.rs: `IncludeFlags`, a `u8` with a bit for each restricted label.
use Prim.Native.Nat.{bit_and, bit_or}
use agent_mail_kit.Prelude.{
  ℕ, suc, ◌-◌, ◌%◌, ◌^◌, String, Bool, false, not, Option, none, some, List, [], ◌∷◌, ◌==◌, nat_eq,
  string_eq, length, if◌then◌else◌,
}
use agent_mail_kit.Types.Labels.{restricted, spam, blocked, unauthenticated, trash}
use agent_mail_kit.Types.Mail.{ListParams}
use agent_mail_kit.Types.ApiKey.{unwrap_or_false}

-- `iter().position(|l| l == label)`
position : String → List String → Option ℕ
position label [] = none
position label (l ∷ ls) =
    if l == label then some 0 else elim (position label ls) [ none ↦ none | some i ↦ some (suc i) ]

unfoldable pub index_of : String → Option ℕ
unfolding position
index_of label = position label restricted

pub record IncludeFlags : Type 0 where
  pub bits : ℕ

-- `NONE`
abbrev pub no_flags : IncludeFlags
no_flags = record { bits = 0 }

-- `ALL`: `((1u16 << RESTRICTED.len()) - 1) as u8`
abbrev pub all_flags : IncludeFlags
all_flags = record { bits = (2 ^ length restricted - 1) % 2 ^ 8 }

-- `1 << i` on a `u8`
abbrev pub bit : ℕ → ℕ
bit i = 2 ^ i % 2 ^ 8

unfoldable pub with : IncludeFlags → String → IncludeFlags
with flags label = elim (index_of label) [
  | some i ↦ record { bits = bit_or flags.bits (bit i) }
  | none ↦ flags
]

unfoldable pub has : IncludeFlags → String → Bool
has flags label = elim (index_of label) [
  | some i ↦ not (bit_and flags.bits (bit i) == 0)
  | none ↦ false
]

-- The loop of `from_flags`.
add_flags : IncludeFlags → List (Bool × String) → IncludeFlags
add_flags set [] = set
add_flags set ((on, label) ∷ rest) = add_flags (if on then with set label else set) rest

unfoldable pub from_flags : Bool → Bool → Bool → Bool → IncludeFlags
unfolding add_flags
from_flags s b u t =
    add_flags no_flags ((s, spam) ∷ (b, blocked) ∷ (u, unauthenticated) ∷ (t, trash) ∷ [])

unfoldable pub from_params : ListParams → IncludeFlags
from_params params =
    from_flags (unwrap_or_false params.include_spam) (unwrap_or_false params.include_blocked)
      (unwrap_or_false params.include_unauthenticated) (unwrap_or_false params.include_trash)
