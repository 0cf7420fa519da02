-- ===== src/Core/Labels/Redaction/Outcomes.antt =====
-- crates/amk-core/src/labels.rs: what `redact_thread` leaves in sight.
use agent_mail_kit.Prelude.{
  ◌≡◌, ◌≢◌, ◌↔◌, ◌⊎◌, refl, sym, ◌∙◌, ap, String, Bool, true, false, not, none, some, List, [], ◌∷◌,
  arith, all, last, retain, all-retain, any-not-eq-all, retain_of_all, Bool-cases, inl, inr,
  Option-cases,
}
use agent_mail_kit.Types.Mail.{Message, ThreadItem, Thread}
use agent_mail_kit.Core.Labels.Admission.{LabelAccess, admits}
use agent_mail_kit.Core.Labels.Verdicts.{visible, admits-eq-all-visible}
use agent_mail_kit.Core.Labels.Pushdown.{admits_single, all_ext}
use agent_mail_kit.Core.Labels.Redaction.{
  ThreadRedaction, unchanged, redacted, withheld, redact_thread, leaks_a_label, hides_a_member,
  strip, finish, recompute,
}

-- An item is admitted exactly when each of its labels is, alone.
pub admits-eq-all_single :
    (labels : List String) (access : LabelAccess)
    → admits labels access ≡ all (λ l. admits (l ∷ []) access) labels
admits-eq-all_single labels access =
    admits-eq-all-visible labels access
    ∙ sym (
        all_ext (λ l. admits (l ∷ []) access) (visible access) labels (λ l. admits_single l access))

strip-admits :
    (item : ThreadItem) (access : LabelAccess) → admits (strip item access).labels access ≡ true
unfolding strip
strip-admits item access =
    admits-eq-all_single (retain (λ l. admits (l ∷ []) access) item.labels) access
    ∙ all-retain (λ l. admits (l ∷ []) access) item.labels

leaks_lem :
    (t : Thread) (access : LabelAccess) → leaks_a_label t access ≡ not (admits t.item.labels access)
unfolding leaks_a_label
leaks_lem t access =
    any-not-eq-all (λ l. admits (l ∷ []) access) t.item.labels
    ∙ ap not (sym (admits-eq-all_single t.item.labels access))

-- Every message of the thread is admitted.
abbrev pub all_admitted : LabelAccess → List Message → Bool
all_admitted access = all (λ m. admits m.item.labels access)

hides_lem :
    (t : Thread) (access : LabelAccess)
    → hides_a_member t access ≡ not (all_admitted access t.messages)
unfolding hides_a_member
hides_lem t access = any-not-eq-all (λ m. admits m.item.labels access) t.messages

unfoldable pub kept : LabelAccess → Thread → List Message
kept access t = retain (λ m. admits m.item.labels access) t.messages

pub redact_hides :
    (t : Thread) (access : LabelAccess)
    → hides_a_member t access ≡ true
    → redact_thread t access ≡ finish (strip t.item access) (kept access t)
unfolding redact_thread kept
redact_hides t access h = rw h (ground arith)

redact_leaks :
    (t : Thread) (access : LabelAccess)
    → hides_a_member t access ≡ false
    → leaks_a_label t access ≡ true
    → redact_thread t access ≡ (record t { item = strip t.item access }, redacted)
unfolding redact_thread
redact_leaks t access h k = rw (h, k)

redact_clean :
    (t : Thread) (access : LabelAccess)
    → hides_a_member t access ≡ false
    → leaks_a_label t access ≡ false
    → redact_thread t access ≡ (t, unchanged)
unfolding redact_thread
redact_clean t access h k = rw (h, k)

-- Every label of the thread and of its messages is visible.
abbrev pub AllVisible : LabelAccess → Thread → Type 0
AllVisible access t =
    (all (visible access) t.item.labels ≡ true)
    × (all (λ m. all (visible access) m.item.labels) t.messages ≡ true)

pub retain_ext {ℓ} :
    {A : Type ℓ} (p q : A → Bool) (xs : List A) → ((x : A) → p x ≡ q x) → retain p xs ≡ retain q xs
unfolding retain
retain_ext p q [] h = refl
retain_ext p q (x ∷ xs) h = rw (h x, retain_ext p q xs h) refl

strip-visible :
    (item : ThreadItem) (access : LabelAccess)
    → (strip item access).labels ≡ retain (visible access) item.labels
unfolding strip
strip-visible item access =
    retain_ext (λ l. admits (l ∷ []) access) (visible access) item.labels
      (λ l. admits_single l access)

all_messages :
    (access : LabelAccess) (ms : List Message)
    → all_admitted access ms ≡ all (λ m. all (visible access) m.item.labels) ms
all_messages access [] = refl
all_messages access (m ∷ ms) =
    rw (admits-eq-all-visible m.item.labels access, all_messages access ms) refl

shows_visible :
    (t : Thread) (access : LabelAccess)
    → hides_a_member t access ≡ not (all (λ m. all (visible access) m.item.labels) t.messages)
shows_visible t access = hides_lem t access ∙ ap not (all_messages access t.messages)

leaks_visible :
    (t : Thread) (access : LabelAccess)
    → leaks_a_label t access ≡ not (all (visible access) t.item.labels)
leaks_visible t access = leaks_lem t access ∙ ap not (admits-eq-all-visible t.item.labels access)

-- What a redaction of a thread leaves.
record Redacts (access : LabelAccess) (t : Thread) (r : Thread × ThreadRedaction) : Type 0 where
  messages : r.0.messages ≡ kept access t
  labels : r.1 ≢ withheld → admits r.0.item.labels access ≡ true
  labels_kept : r.0.item.labels ≡ retain (visible access) t.item.labels
  same : r.1 ≡ unchanged → r.0 ≡ t
  is_unchanged : (r.1 ≡ unchanged) ↔ AllVisible access t
  empty : (r.1 ≡ withheld) ↔ ((t.messages ≢ []) × (kept access t ≡ []))

last-none : (ms : List Message) → last ms ≡ none → ms ≡ []
last-none [] h = refl
last-none (m ∷ []) h = cc
last-none (m ∷ n ∷ ms) h = absurd (never n ms h)
  where
    never : (n : Message) (ms : List Message) → last (n ∷ ms) ≡ none → ⊥
    never n [] h = cc
    never n (k ∷ ms) h = never k ms h

pub finish-none :
    (item : ThreadItem) (ms : List Message)
    → last ms ≡ none
    → finish item ms ≡ (record { item = item; messages = ms }, withheld)
unfolding finish
finish-none item ms h = rw (h, finish)

pub finish-some :
    (item : ThreadItem) (ms : List Message) (m : Message)
    → last ms ≡ some m
    → finish item ms ≡ (record { item = recompute item ms m; messages = ms }, redacted)
unfolding finish
finish-some item ms m h = rw (h, finish)

hides-ne-nil :
    (t : Thread) (access : LabelAccess) → hides_a_member t access ≡ true → t.messages ≢ []
hides-ne-nil t access h e = ground (arith, hides_lem t access, ap (all_admitted access) e)

Redacts-hidden :
    (t : Thread) (access : LabelAccess)
    → hides_a_member t access ≡ true
    → Redacts access t (redact_thread t access)
unfolding recompute
Redacts-hidden t access h = rw (redact_hides t access h) (go (Option-cases (last (kept access t))))
  where
    go :
        (last (kept access t) ≡ none) ⊎ ((m : Message) × (last (kept access t) ≡ some m))
        → Redacts access t (finish (strip t.item access) (kept access t))
    go (inl e) = rw (finish-none (strip t.item access) (kept access t) e) (record {
      messages = refl;
      labels = λ n. absurd (n refl);
      labels_kept = strip-visible t.item access;
      same = λ n. cc;
      is_unchanged = (λ n. cc, λ (a, b). cc (shows_visible t access, h, b));
      empty = (λ n. (hides-ne-nil t access h, last-none (kept access t) e), λ n. refl);
    })
    go (inr (m, e)) = rw (finish-some (strip t.item access) (kept access t) m e) (record {
      messages = refl;
      labels = λ n. strip-admits t.item access;
      labels_kept = strip-visible t.item access;
      same = λ n. cc;
      is_unchanged = (λ n. cc, λ (a, b). cc (shows_visible t access, h, b));
      empty = (λ n. cc, λ (n, k). cc (ap last k, e));
    })

kept-all :
    (t : Thread) (access : LabelAccess)
    → hides_a_member t access ≡ false
    → t.messages ≡ kept access t
unfolding kept
kept-all t access h = sym (
    retain_of_all (λ m. admits m.item.labels access) t.messages
      (ground (arith, hides_lem t access)))

redact_thread-Redacts :
    (t : Thread) (access : LabelAccess) → Redacts access t (redact_thread t access)
redact_thread-Redacts t access = elim (Bool-cases (hides_a_member t access)) [
  | inl hides ↦ Redacts-hidden t access hides
  | inr shows ↦ elim (Bool-cases (leaks_a_label t access)) [
    | inl leaks ↦ rw (redact_leaks t access shows leaks) (record {
      messages = kept-all t access shows;
      labels = λ n. strip-admits t.item access;
      labels_kept = strip-visible t.item access;
      same = λ n. cc;
      is_unchanged = (λ n. cc, λ (a, b). cc (leaks_visible t access, leaks, a));
      empty = (λ n. cc, λ (n, k). absurd (n (kept-all t access shows ∙ k)));
    })
    | inr clean ↦ rw (redact_clean t access shows clean) (record {
      messages = kept-all t access shows;
      labels = λ n. ground (arith, leaks_lem t access);
      labels_kept =
          sym
            (retain_of_all (visible access) t.item.labels (ground (arith, leaks_visible t access)));
      same = λ n. refl;
      is_unchanged = (
        (λ n. (ground (arith, leaks_visible t access), ground (arith, shows_visible t access))),
        (λ n. refl),
      );
      empty = (λ n. cc, λ (n, k). absurd (n (kept-all t access shows ∙ k)));
    })
  ]
]

-- The redacted thread's messages are exactly the admitted ones, in their order. It is withheld exactly
-- when it has messages and none is admitted. Its own labels are exactly the visible ones, in their
-- order. It is reported unchanged exactly when every label of the thread and of its messages is
-- visible, and is then the thread that came in.
pub redact_thread_lem :
    (t : Thread) (access : LabelAccess)
    → ((redact_thread t access).0.messages ≡ retain (λ m. admits m.item.labels access) t.messages)
      × (((redact_thread t access).1 ≡ withheld)
          ↔ ((t.messages ≢ []) × (retain (λ m. admits m.item.labels access) t.messages ≡ [])))
      × ((redact_thread t access).0.item.labels ≡ retain (visible access) t.item.labels)
      × (((redact_thread t access).1 ≡ unchanged) ↔ AllVisible access t)
      × ((redact_thread t access).1 ≡ unchanged → (redact_thread t access).0 ≡ t)
unfolding kept
redact_thread_lem t access =
    let r = redact_thread-Redacts t access in
    (r.messages, r.empty, r.labels_kept, r.is_unchanged, r.same)

-- Once redacted, a thread that is not withheld is left alone by a second redaction.
pub redact_thread-redact_thread :
    (t : Thread) (access : LabelAccess)
    → (redact_thread t access).1 ≢ withheld
    → redact_thread (redact_thread t access).0 access ≡ ((redact_thread t access).0, unchanged)
unfolding kept
redact_thread-redact_thread t access h =
    let r = redact_thread-Redacts t access in
    redact_clean (redact_thread t access).0 access (hides_lem _ access ∙ ap not shown)
      (leaks_lem _ access ∙ ap not (r.labels h))
  where
    shown : all_admitted access (redact_thread t access).0.messages ≡ true
    shown =
        rw (redact_thread-Redacts t access).messages
          (all-retain (λ m. admits m.item.labels access) t.messages)
