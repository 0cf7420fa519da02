-- ===== src/Ingest/Wire/Framing.antt =====
-- The framing of message data: the loop ends within its bound, and keeps within the cap.
use agent_mail_kit.Prelude.{
  ℕ, zero, suc, ◌+◌, ◌≤◌, ◌<◌, ◌≡◌, refl, sym, ap, ◌∙◌, true, false, none, some, List, [], ◌∷◌,
  ◌++◌, length, nat_eq, list_eq, ltb, arith, Result, ok, err, Bool-cases, Result-cases,
  Option-cases, inl, inr,
}
use agent_mail_kit.Ingest.Errors.{Bytes, IngestError, io}
use agent_mail_kit.Types.Str.{literal}
use agent_mail_kit.Ingest.Wire.{
  Read, bytes, failed, Input, first_line, or_wait, line_limit, Line, read_line_from, read_line,
  is_data_end, destuff, Data, add_line, Reading, read_lines, sizes, left, read_data,
}

pub length-append : (xs ys : Bytes) → length (xs ++ ys) ≡ length xs + length ys
length-append [] ys = omega arith
length-append (x ∷ xs) ys = ground (arith, length-append xs ys)

-- A line and what follows it are what was there.
first_line_sound : (bs l rest : Bytes) → first_line bs ≡ some (l, rest) → bs ≡ l ++ rest
unfolding first_line
first_line_sound [] l rest h = cc
first_line_sound (b ∷ bs) l rest h = elim (Option-cases (first_line bs)) [
  | inl absent ↦ ground arith
  | inr ((l', r'), e) ↦ ground (arith, first_line_sound bs l' r' e)
]

-- The rest is shorter.
first_line-left : (bs l rest : Bytes) → first_line bs ≡ some (l, rest) → length rest < length bs
unfolding first_line
first_line-left [] l rest h = cc
first_line-left (b ∷ bs) l rest h = elim (Option-cases (first_line bs)) [
  | inl absent ↦ ground arith
  | inr ((l', r'), e) ↦ ground (arith, first_line-left bs l' r' e)
]

or_wait-left :
    (buf : Bytes) (reads : List Read) (waited : Line × Input) (l : Bytes)
    → (or_wait (first_line buf) reads waited).0 ≡ ok (some l)
    → (waited.0 ≡ ok (some l) → left waited.1 < length buf + sizes reads)
    → left (or_wait (first_line buf) reads waited).1 < length buf + sizes reads
unfolding left
or_wait-left buf reads waited l h k = elim (Option-cases (first_line buf)) [
  | inl absent ↦ rw absent (k (rw absent at h))
  | inr ((l', rest), e) ↦ rw e (ground (arith, first_line-left buf l' rest e))
]

read_line_from-left :
    (buf : Bytes) (reads : List Read) (l : Bytes)
    → (read_line_from buf reads).0 ≡ ok (some l)
    → left (read_line_from buf reads).1 < length buf + sizes reads
unfolding read_line_from left
read_line_from-left buf [] l h = or_wait-left buf [] _ l h (λ k. cc)
read_line_from-left buf (failed e ∷ reads) l h = or_wait-left buf (failed e ∷ reads) _ l h (λ k. cc)
read_line_from-left buf (bytes [] ∷ reads) l h = or_wait-left buf (bytes [] ∷ reads) _ l h (λ k. cc)
read_line_from-left buf (bytes (b ∷ bs) ∷ reads) l h =
    or_wait-left buf (bytes (b ∷ bs) ∷ reads) _ l h
      (elim (Bool-cases (ltb line_limit (length (buf ++ b ∷ bs)))) [
        | inl long ↦ rw long (λ k. cc)
        | inr short ↦ rw short (λ k.
            ground
              (arith, read_line_from-left (buf ++ b ∷ bs) reads l k, length-append buf (b ∷ bs)))
      ])

pub read_line-left :
    (i : Input) (l : Bytes) → (read_line i).0 ≡ ok (some l) → left (read_line i).1 < left i
unfolding read_line left
read_line-left i l h = read_line_from-left i.buf i.reads l h

abbrev closed : IngestError
closed = io (literal "connection closed during DATA")

-- The four turns of the loop.
module _ (fuel cap : ℕ) (d : Data) (i : Input) where
  turn_error :
      (e : IngestError)
      → (read_line i).0 ≡ err e
      → read_lines (suc fuel) cap d i ≡ some (err e, (read_line i).1)
  unfolding read_lines
  turn_error e h = rw (read_lines, h) refl

  turn_closed :
      (read_line i).0 ≡ ok none → read_lines (suc fuel) cap d i ≡ some (err closed, (read_line i).1)
  unfolding read_lines
  turn_closed h = rw (read_lines, h) refl

  pub turn_last :
      (l : Bytes)
      → (read_line i).0 ≡ ok (some l)
      → is_data_end l ≡ true
      → read_lines (suc fuel) cap d i ≡ some (ok d, (read_line i).1)
  unfolding read_lines
  turn_last l h k = rw (read_lines, h, k) refl

  pub turn_more :
      (l : Bytes)
      → (read_line i).0 ≡ ok (some l)
      → is_data_end l ≡ false
      → read_lines (suc fuel) cap d i ≡ read_lines fuel cap (add_line cap d l) (read_line i).1
  unfolding read_lines
  turn_more l h k = rw (read_lines, h, k) refl

-- A bound above the bytes that are left is enough.
read_lines_ends :
    (fuel cap : ℕ) (d : Data) (i : Input)
    → left i < fuel
    → (r : Result Data IngestError × Input) × (read_lines fuel cap d i ≡ some r)
read_lines_ends zero cap d i h = elim h [ ]
read_lines_ends (suc fuel) cap d i h = elim (Result-cases (read_line i).0) [
  | inr (e, failure) ↦ (_, turn_error fuel cap d i e failure)
  | inl (none, end) ↦ (_, turn_closed fuel cap d i end)
  | inl (some l, line) ↦ elim (Bool-cases (is_data_end l)) [
    | inl last ↦ (_, turn_last fuel cap d i l line last)
    | inr more ↦
        let shorter : left (read_line i).1 < fuel = ground (arith, read_line-left i l line) in
        let (r, e) = read_lines_ends fuel cap (add_line cap d l) (read_line i).1 shorter in
        (r, turn_more fuel cap d i l line more ∙ e)
  ]
]

add_line-fits :
    (cap : ℕ) (d : Data) (l : Bytes) → length d.body ≤ cap → length (add_line cap d l).body ≤ cap
unfolding add_line
add_line-fits cap d l h = ground (arith, length-append d.body (destuff l))

abbrev body_of : Data → Reading → Bytes
body_of d (some (ok read, i)) = read.body
body_of d _ = d.body

abbrev left_of : Input → Reading → ℕ
left_of i none = left i
left_of i (some (r, i')) = left i'

read_lines_fit :
    (fuel cap : ℕ) (d : Data) (i : Input)
    → length d.body ≤ cap
    → (read : Data) (i' : Input) → read_lines fuel cap d i ≡ some (ok read, i')
    → length read.body ≤ cap
unfolding read_lines
read_lines_fit zero cap d i h read i' e = cc
read_lines_fit (suc fuel) cap d i h read i' e = elim (Result-cases (read_line i).0) [
  | inr (e', failure) ↦ absurd (cc (turn_error fuel cap d i e' failure, e))
  | inl (none, end) ↦ absurd (cc (turn_closed fuel cap d i end, e))
  | inl (some l, line) ↦ elim (Bool-cases (is_data_end l)) [
    | inl last ↦ rw (sym (ap (body_of d) (sym (turn_last fuel cap d i l line last) ∙ e))) h
    | inr more ↦
        read_lines_fit fuel cap (add_line cap d l) (read_line i).1 (add_line-fits cap d l h) read i'
          (sym (turn_more fuel cap d i l line more) ∙ e)
  ]
]

read_lines-left :
    (fuel cap : ℕ) (d : Data) (i : Input) (read : Data) (i' : Input)
    → read_lines fuel cap d i ≡ some (ok read, i')
    → left i' ≤ left i
unfolding read_lines
read_lines-left zero cap d i read i' e = cc
read_lines-left (suc fuel) cap d i read i' e = elim (Result-cases (read_line i).0) [
  | inr (e', failure) ↦ absurd (cc (turn_error fuel cap d i e' failure, e))
  | inl (none, end) ↦ absurd (cc (turn_closed fuel cap d i end, e))
  | inl (some l, line) ↦ elim (Bool-cases (is_data_end l)) [
    | inl last ↦
        let same : left (read_line i).1 ≡ left i' =
          ap (left_of i) (sym (turn_last fuel cap d i l line last) ∙ e) in
        omega (arith, same, read_line-left i l line)
    | inr more ↦
        let rest =
          read_lines-left fuel cap (add_line cap d l) (read_line i).1 read i'
            (sym (turn_more fuel cap d i l line more) ∙ e) in
        omega (arith, rest, read_line-left i l line)
  ]
]

pub read_data-left :
    (cap : ℕ) (i : Input) (read : Data) (i' : Input)
    → read_data cap i ≡ some (ok read, i')
    → left i' ≤ left i
unfolding read_data
read_data-left cap i read i' e =
    read_lines-left (suc (left i)) cap (record { body = []; oversize = false }) i read i' e

-- Reading a message ends, whatever the connection gives: with the data, which is within the cap, or
-- with an error.
pub read_data_lem :
    (cap : ℕ) (i : Input)
    → ((r : Result Data IngestError × Input) × (read_data cap i ≡ some r))
      × ((read : Data) (i' : Input) → read_data cap i ≡ some (ok read, i') → length read.body ≤ cap)
unfolding read_data
read_data_lem cap i =
    let start : Data = record { body = []; oversize = false } in
    (
      read_lines_ends (suc (left i)) cap start i (omega arith),
      read_lines_fit (suc (left i)) cap start i (omega arith),
    )
