-- ===== src/Outbound/Recipients/ReplyAll.antt =====
-- Who receives a reply to all, and the subject of a reply.
use agent_mail_kit.Prelude.{
  ◌≡◌, refl, sym, ap, ap₂, ◌∙◌, Bool, true, ◌&&◌, ◌||◌, not, Option, none, some, List, [], ◌∷◌,
  ◌++◌, map, ◌==◌, nat_eq, list_eq, list_beq_iff, any, contains, contains-append, any-append, arith,
  if_both, Bool-cases, inl, inr,
}
use mathlib.Core.List.{append-nil, append_assoc, map-append}
use agent_mail_kit.Types.Str.{Text, literal, lower, to_ascii_lowercase, eq_ignore_ascii_case}
use agent_mail_kit.Outbound.Recipients.{
  mailbox_addr, folded, Gathered, gather, gather_all, reply_all_recipients, is_reply, reply_subject,
}

-- No text occurs twice.
unfoldable pub distinct : List Text → Bool
distinct [] = true
distinct (x ∷ xs) = not (contains x xs) && distinct xs

-- Another text at the end.
distinct-append :
    (x : Text) (xs : List Text) → distinct (xs ++ x ∷ []) ≡ (not (contains x xs) && distinct xs)
unfolding distinct contains
distinct-append x [] = refl
distinct-append x (y ∷ xs) =
    ground (
      arith,
      distinct-append x xs,
      contains-append y xs (x ∷ []),
      list_beq_iff x y,
      list_beq_iff y x,
    )

gather_adds :
    (me : Text) (state : Gathered) (addr : Text)
    → (one : List Text) × ((gather me state addr).kept ≡ state.kept ++ one)
      × ((gather me state addr).seen ≡ state.seen ++ map to_ascii_lowercase one)
unfolding gather folded
gather_adds me state addr =
    elim (Bool-cases (folded addr == me || contains (folded addr) state.seen)) [
      | inl skipped ↦
          ([], rw skipped (sym (append-nil state.kept)), rw skipped (sym (append-nil state.seen)))
      | inr new ↦ (mailbox_addr addr ∷ [], rw new refl, rw new refl)
    ]

-- The loop adds addresses to both vectors at once.
gather_all_adds :
    (me : Text) (state : Gathered) (addrs : List Text)
    → (more : List Text) × ((gather_all me state addrs).kept ≡ state.kept ++ more)
      × ((gather_all me state addrs).seen ≡ state.seen ++ map to_ascii_lowercase more)
unfolding gather_all
gather_all_adds me state [] = ([], sym (append-nil state.kept), sym (append-nil state.seen))
gather_all_adds me state (addr ∷ addrs) =
    let (one, kept, seen) = gather_adds me state addr in
    let (more, kept', seen') = gather_all_adds me (gather me state addr) addrs in
    (
      one ++ more,
      kept' ∙ ap (λ x. x ++ more) kept ∙ append_assoc state.kept one more,
      seen'
          ∙ ap (λ x. x ++ map to_ascii_lowercase more) seen
          ∙ append_assoc state.seen (map to_ascii_lowercase one) (map to_ascii_lowercase more)
          ∙ ap (λ x. state.seen ++ x) (sym (map-append to_ascii_lowercase one more)),
    )

gather-distinct :
    (me : Text) (state : Gathered) (addr : Text)
    → distinct state.seen ≡ true
    → distinct (gather me state addr).seen ≡ true
unfolding gather
gather-distinct me state addr h = ground (arith, distinct-append (folded addr) state.seen)

gather_all-distinct :
    (me : Text) (state : Gathered) (addrs : List Text)
    → distinct state.seen ≡ true
    → distinct (gather_all me state addrs).seen ≡ true
unfolding gather_all
gather_all-distinct me state [] h = h
gather_all-distinct me state (addr ∷ addrs) h =
    gather_all-distinct me (gather me state addr) addrs (gather-distinct me state addr h)

contains-gather :
    (x me : Text) (state : Gathered) (addr : Text)
    → contains x (gather me state addr).seen
      ≡ (contains x state.seen || folded addr == x && not (x == me))
unfolding gather contains
contains-gather x me state addr = ground (
  arith,
  contains-append x state.seen (folded addr ∷ []),
  list_beq_iff (folded addr) x,
  list_beq_iff (folded addr) me,
  list_beq_iff x me,
)

contains-gather_all :
    (x me : Text) (state : Gathered) (addrs : List Text)
    → contains x (gather_all me state addrs).seen
      ≡ (contains x state.seen || any (λ a. folded a == x) addrs && not (x == me))
unfolding gather_all
contains-gather_all x me state [] = ground arith
contains-gather_all x me state (addr ∷ addrs) =
    ground (
      arith,
      contains-gather_all x me (gather me state addr) addrs,
      contains-gather x me state addr,
    )

abbrev fresh : Gathered
fresh = record { seen = []; kept = [] }

fresh-distinct : (me : Text) (addrs : List Text) → distinct (gather_all me fresh addrs).seen ≡ true
unfolding distinct
fresh-distinct me addrs = gather_all-distinct me fresh addrs refl

contains-fresh :
    (x me : Text) (addrs : List Text)
    → contains x (gather_all me fresh addrs).seen
      ≡ (any (λ a. folded a == x) addrs && not (x == me))
unfolding contains
contains-fresh x me addrs = contains-gather_all x me fresh addrs

-- Two loops are one.
contains_after_both :
    (x me : Text) (state : Gathered) (others addrs : List Text)
    → contains x state.seen ≡ (any (λ a. folded a == x) others && not (x == me))
    → contains x (gather_all me state addrs).seen
      ≡ (any (λ a. folded a == x) (others ++ addrs) && not (x == me))
contains_after_both x me state others addrs h =
    ground
      (arith, contains-gather_all x me state addrs, any-append (λ a. folded a == x) others addrs)

-- A reply to all goes to everybody that the parent names, its sender, its `to` and its `cc`, but not
-- to the inbox that sends it, and to nobody twice; addresses count as the same if their mailboxes are
-- without regard to case. Those of the sender and of `to` are in the new `to`.
pub reply_all_recipients_lem :
    (parent_from : Text) (parent_to parent_cc : List Text) (sending_inbox : Text)
    → let (to, cc) = reply_all_recipients parent_from parent_to parent_cc sending_inbox in
      let me = folded sending_inbox in
      (distinct (map to_ascii_lowercase (to ++ cc)) ≡ true)
      × ((x : Text)
          → contains x (map to_ascii_lowercase (to ++ cc))
            ≡ (any (λ a. folded a == x) (parent_from ∷ parent_to ++ parent_cc) && not (x == me)))
      × ((x : Text)
          → contains x (map to_ascii_lowercase to)
            ≡ (any (λ a. folded a == x) (parent_from ∷ parent_to) && not (x == me)))
unfolding reply_all_recipients
reply_all_recipients_lem parent_from parent_to parent_cc sending_inbox =
    let me = folded sending_inbox in
    let first = gather_all me fresh (parent_from ∷ parent_to) in
    let again : Gathered = record { seen = first.seen; kept = [] } in
    let (to, kept, seen) = gather_all_adds me fresh (parent_from ∷ parent_to) in
    let (cc', kept', seen') = gather_all_adds me again parent_cc in
    let final = gather_all me again parent_cc in
    let all_seen : final.seen ≡ map to_ascii_lowercase (first.kept ++ final.kept) =
      seen'
      ∙ ap (λ x. x ++ map to_ascii_lowercase cc') seen
      ∙ sym (map-append to_ascii_lowercase to cc')
      ∙ ap₂ (λ x y. map to_ascii_lowercase (x ++ y)) (sym kept) (sym kept') in
    let to_seen : first.seen ≡ map to_ascii_lowercase first.kept =
      seen ∙ ap (map to_ascii_lowercase) (sym kept) in
    (
      rw (sym all_seen)
          (gather_all-distinct me again parent_cc (fresh-distinct me (parent_from ∷ parent_to))),
      λ x. rw (sym all_seen) (
          contains_after_both x me again (parent_from ∷ parent_to) parent_cc
            (contains-fresh x me (parent_from ∷ parent_to))),
      λ x. rw (sym to_seen) (contains-fresh x me (parent_from ∷ parent_to)),
    )

is_reply-prefixed : (s : Text) → is_reply (literal "Re: " ++ s) ≡ true
unfolding is_reply eq_ignore_ascii_case lower
is_reply-prefixed s = refl

is_reply-bare : is_reply (literal "Re:") ≡ true
unfolding is_reply eq_ignore_ascii_case lower
is_reply-bare = refl

reply_subject_of_reply : (s : Text) → is_reply s ≡ true → reply_subject (some s) ≡ s
unfolding reply_subject
reply_subject_of_reply s h = rw h refl

is_reply-reply_subject : (parent : Option Text) → is_reply (reply_subject parent) ≡ true
unfolding reply_subject
is_reply-reply_subject none = is_reply-bare
is_reply-reply_subject (some s) =
    if_both (λ t. is_reply t ≡ true) (is_reply s) s (literal "Re: " ++ s) (λ h. h)
      (λ h. is_reply-prefixed s)

-- Whatever the parent's subject is, the subject of the reply begins with `re:` in some case, and a
-- reply to the reply has the same one.
pub reply_subject_lem :
    (parent : Option Text)
    → (is_reply (reply_subject parent) ≡ true)
      × (reply_subject (some (reply_subject parent)) ≡ reply_subject parent)
reply_subject_lem parent = (
  is_reply-reply_subject parent,
  reply_subject_of_reply (reply_subject parent) (is_reply-reply_subject parent),
)
