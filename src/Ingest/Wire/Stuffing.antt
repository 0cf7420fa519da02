-- ===== src/Ingest/Wire/Stuffing.antt =====
-- The dot-stuffing of message data (RFC 5321), which `read_data` undoes.
use agent_mail_kit.Prelude.{
  ℕ, zero, suc, ◌+◌, ◌≤◌, ◌<◌, ◌≡◌, refl, sym, ap, ◌∙◌, Bool, true, false, Option-cases, Bool-cases,
  inl, inr, leb, ltb, ◌&&◌, Option, none, some, List, [], ◌∷◌, ◌++◌, length, all, ◌==◌, nat_eq,
  nat_beq_iff, list_eq, list_beq, arith, ok, if◌then◌else◌,
}
use mathlib.Core.List.{append-nil, append_assoc}
use agent_mail_kit.Ingest.Errors.{Bytes}
use agent_mail_kit.Types.Str.{is_empty}
use agent_mail_kit.Ingest.Wire.{
  Read, bytes, failed, Line, line_limit, Input, first_line, read_line_from, read_line, is_data_end,
  destuff, Data, add_line, read_lines, left, read_data,
}
use agent_mail_kit.Ingest.Wire.Framing.{length-append, read_line-left, turn_last, turn_more}

-- What a client sends for a line: a full stop more if it begins with one.
unfoldable pub stuff : Bytes → Bytes
stuff [] = []
stuff (a ∷ line) = if a == b'.' then a ∷ a ∷ line else a ∷ line

abbrev pub stuffed : List Bytes → Bytes
stuffed [] = []
stuffed (l ∷ ls) = stuff l ++ stuffed ls

abbrev pub joined : List Bytes → Bytes
joined [] = []
joined (l ∷ ls) = l ++ joined ls

-- One end of line, at the end.
unfoldable pub is_line : Bytes → Bool
is_line [] = false
is_line (a ∷ l) = let rest = is_line l in if a == b'\n' then is_empty l else rest

destuff-stuff : (l : Bytes) → destuff (stuff l) ≡ l
unfolding destuff stuff
destuff-stuff [] = refl
destuff-stuff (a ∷ []) = ground (arith, nat_beq_iff a b'.')
destuff-stuff (a ∷ b ∷ l) = ground (arith, nat_beq_iff a b'.')

is_line-stuff : (l : Bytes) → is_line (stuff l) ≡ is_line l
unfolding is_line stuff
is_line-stuff [] = refl
is_line-stuff (a ∷ l) = ground arith

is_data_end-stuff : (l : Bytes) → is_line l ≡ true → is_data_end (stuff l) ≡ false
unfolding is_data_end stuff list_beq is_line
is_data_end-stuff [] h = cc
is_data_end-stuff (a ∷ []) h = ground arith
is_data_end-stuff (a ∷ b ∷ []) h = ground arith
is_data_end-stuff (a ∷ b ∷ c ∷ l) h = ground arith

first_line_of_line : (l t : Bytes) → is_line l ≡ true → first_line (l ++ t) ≡ some (l, t)
unfolding first_line is_line
first_line_of_line [] t h = cc
first_line_of_line (a ∷ []) t h = ground arith
first_line_of_line (a ∷ b ∷ l) t h = ground (arith, first_line_of_line (b ∷ l) t)

abbrev head_or : ℕ → Bytes → ℕ
head_or d [] = d
head_or d (b ∷ bs) = b

abbrev rest_of : Bytes → Bytes
rest_of [] = []
rest_of (b ∷ bs) = bs

-- Bytes without an end of line have no first line.
no_line :
    (l t u v : Bytes)
    → l ++ t ≡ u ++ v
    → is_line l ≡ true
    → first_line u ≡ none
    → length u < length l
unfolding first_line is_line
no_line [] t u v e h n = cc
no_line (a ∷ l) t [] v e h n = omega arith
no_line (a ∷ l) t (b ∷ u) v e h n = elim (Option-cases (first_line u)) [
  | inr (p, q) ↦ absurd (ground (arith, q))
  | inl absent ↦ elim (Bool-cases (b == b'\n')) [
    | inl end ↦ absurd (ground (arith, end))
    | inr more ↦
        let heads : a ≡ b = ap (head_or 0) e in
        let tails : l ++ t ≡ u ++ v = ap rest_of e in
        let line : is_line l ≡ true = ground (arith, heads, more, h) in
        omega (arith, no_line l t u v tails line absent)
  ]
]

first_line-append :
    (u v l t : Bytes) → first_line u ≡ some (l, t) → first_line (u ++ v) ≡ some (l, t ++ v)
unfolding first_line
first_line-append [] v l t h = cc
first_line-append (b ∷ u) v l t h = elim (Option-cases (first_line u)) [
  | inl absent ↦ ground (arith, absent)
  | inr ((l', t'), e) ↦ ground (arith, e, first_line-append u v l' t' e)
]

-- What is to come, in the buffer and in reads that give 1 to 1024 bytes each.
abbrev pub bytes_of : List Read → Bytes
bytes_of [] = []
bytes_of (bytes bs ∷ reads) = bs ++ bytes_of reads
bytes_of (failed e ∷ reads) = bytes_of reads

abbrev pub all_bytes : Input → Bytes
all_bytes i = i.buf ++ bytes_of i.reads

abbrev pub is_chunk : Read → Bool
is_chunk (bytes []) = false
is_chunk (bytes (b ∷ bs)) = leb (length (b ∷ bs)) 1024
is_chunk (failed e) = false

-- The line that is read off an input, and what is left of it.
record Reads (l t : Bytes) (r : Line × Input) : Type 0 where
  got : r.0 ≡ ok (some l)
  rest : all_bytes r.1 ≡ t
  chunks : all is_chunk r.1.reads ≡ true

line_there :
    (buf : Bytes) (reads : List Read) (l rest : Bytes)
    → first_line buf ≡ some (l, rest)
    → read_line_from buf reads ≡ (ok (some l), record { buf = rest; reads = reads })
unfolding read_line_from
line_there buf [] l rest h = rw (read_line_from, h) refl
line_there buf (failed e ∷ reads) l rest h = rw (read_line_from, h) refl
line_there buf (bytes [] ∷ reads) l rest h = rw (read_line_from, h) refl
line_there buf (bytes (b ∷ bs) ∷ reads) l rest h = rw (read_line_from, h) refl

line_later :
    (buf : Bytes) (b : ℕ) (bs : Bytes) (reads : List Read)
    → first_line buf ≡ none
    → ltb line_limit (length (buf ++ b ∷ bs)) ≡ false
    → read_line_from buf (bytes (b ∷ bs) ∷ reads) ≡ read_line_from (buf ++ b ∷ bs) reads
unfolding read_line_from
line_later buf b bs reads h k = rw (read_line_from, h, k) refl

abbrev pair_or : Bytes × Bytes → Option (Bytes × Bytes) → Bytes × Bytes
pair_or d none = d
pair_or d (some p) = p

there-Reads :
    (buf : Bytes) (reads : List Read) (l t l' rest : Bytes)
    → is_line l ≡ true
    → all is_chunk reads ≡ true
    → buf ++ bytes_of reads ≡ l ++ t
    → first_line buf ≡ some (l', rest)
    → Reads l t (read_line_from buf reads)
there-Reads buf reads l t l' rest h c e there =
    let same = ap (pair_or (l, t)) (
      sym (first_line-append buf (bytes_of reads) l' rest there)
      ∙ ap first_line e
      ∙ first_line_of_line l t h) in
    rw (line_there buf reads l' rest there)
      (record { got = ap (λ p. ok (some p.0)) same; rest = ap (λ p. p.1) same; chunks = c })

read_line-Reads :
    (buf : Bytes) (reads : List Read) (l t : Bytes)
    → is_line l ≡ true
    → length l ≤ 15360
    → all is_chunk reads ≡ true
    → buf ++ bytes_of reads ≡ l ++ t
    → Reads l t (read_line_from buf reads)
read_line-Reads buf [] l t h k c e = elim (Option-cases (first_line buf)) [
  | inr ((l', rest), there) ↦ there-Reads buf [] l t l' rest h c e there
  | inl absent ↦
      let short = no_line l t buf [] (sym e) h absent in
      absurd (omega (arith, short, sym (length-append buf []) ∙ ap length e ∙ length-append l t))
]
read_line-Reads buf (failed x ∷ reads) l t h k c e = cc
read_line-Reads buf (bytes [] ∷ reads) l t h k c e = cc
read_line-Reads buf (bytes (b ∷ bs) ∷ reads) l t h k c e = elim (Option-cases (first_line buf)) [
  | inr ((l', rest), there) ↦ there-Reads buf (bytes (b ∷ bs) ∷ reads) l t l' rest h c e there
  | inl absent ↦
      let short = no_line l t buf ((b ∷ bs) ++ bytes_of reads) (sym e) h absent in
      let chunk : leb (length (b ∷ bs)) 1024 ≡ true = ground arith in
      let chunks : all is_chunk reads ≡ true = ground arith in
      let fits : ltb line_limit (length (buf ++ b ∷ bs)) ≡ false =
        ground (arith, length-append buf (b ∷ bs), short, chunk, k) in
      rw (line_later buf b bs reads absent fits) (
        read_line-Reads (buf ++ b ∷ bs) reads l t h k chunks
          (append_assoc buf (b ∷ bs) (bytes_of reads) ∙ e))
]

add_line-stuff :
    (cap : ℕ) (body l : Bytes)
    → length body + length l ≤ cap
    → add_line cap (record { body = body; oversize = false }) (stuff l)
      ≡ record { body = body ++ l; oversize = false }
unfolding add_line
add_line-stuff cap body l h = rw (destuff-stuff l) (ground arith)

abbrev pub end_of_data : Bytes
end_of_data = b'.' ∷ b'\r' ∷ b'\n' ∷ []

end_is_line : is_line end_of_data ≡ true
unfolding is_line
end_is_line = refl

end_is_end : is_data_end end_of_data ≡ true
unfolding is_data_end list_beq
end_is_end = refl

abbrev so_far : Bytes → Data
so_far body = record { body = body; oversize = false }

-- A line that is sent: within 15 KiB with its full stop, so that with a read more it is within the limit.
unfoldable pub is_sent : Bytes → Bool
is_sent l = is_line l && leb (length (stuff l)) 15360

line_of :
    (i : Input) (l t : Bytes)
    → is_line l ≡ true
    → length l ≤ 15360
    → all is_chunk i.reads ≡ true
    → all_bytes i ≡ l ++ t
    → Reads l t (read_line i)
unfolding read_line
line_of i l t h k c e = read_line-Reads i.buf i.reads l t h k c e

read_lines-stuffed :
    (fuel cap : ℕ) (body rest : Bytes) (ls : List Bytes) (i : Input)
    → all is_sent ls ≡ true
    → length body + length (joined ls) ≤ cap
    → left i < fuel
    → all is_chunk i.reads ≡ true
    → all_bytes i ≡ stuffed ls ++ (end_of_data ++ rest)
    → (i' : Input) × (read_lines fuel cap (so_far body) i
        ≡ some (ok (so_far (body ++ joined ls)), i'))
      × (all_bytes i' ≡ rest)
unfolding is_sent
read_lines-stuffed zero cap body rest ls i h k f c e = elim f [ ]
read_lines-stuffed (suc fuel) cap body rest [] i h k f c e =
    let r = line_of i end_of_data rest end_is_line (omega arith) c e in
    (
      (read_line i).1,
      turn_last fuel cap (so_far body) i end_of_data r.got end_is_end
          ∙ ap (λ b. some (ok (so_far b), (read_line i).1)) (sym (append-nil body)),
      r.rest,
    )
read_lines-stuffed (suc fuel) cap body rest (l ∷ ls) i h k f c e =
    let tail = stuffed ls ++ (end_of_data ++ rest) in
    let line : is_line l ≡ true = ground arith in
    let short : leb (length (stuff l)) 15360 ≡ true = ground arith in
    let lines : all is_sent ls ≡ true = ground arith in
    let fits : length body + length l + length (joined ls) ≤ cap =
      ground (arith, length-append l (joined ls)) in
    let r =
      line_of i (stuff l) tail (is_line-stuff l ∙ line) (ground (arith, short)) c
        (e ∙ append_assoc (stuff l) (stuffed ls) (end_of_data ++ rest)) in
    let added = add_line-stuff cap body l (omega (arith, fits)) in
    let shorter : left (read_line i).1 < fuel =
      omega (arith, read_line-left i (stuff l) r.got, f) in
    let (i', read, there) =
      read_lines-stuffed fuel cap (body ++ l) rest ls (read_line i).1 lines
        (ground (arith, fits, length-append body l)) shorter r.chunks r.rest in
    (
      i',
      turn_more fuel cap (so_far body) i (stuff l) r.got (is_data_end-stuff l line)
          ∙ ap (λ d. read_lines fuel cap d (read_line i).1) added
          ∙ read
          ∙ ap (λ b. some (ok (so_far b), i')) (append_assoc body l (joined ls)),
      there,
    )

-- Dot-stuffing is undone, however the bytes arrive: where every read gives between 1 and 1024 bytes, and
-- every line is within 15 KiB as it is sent, lines that a client stuffs and ends with the lone full
-- stop are read back as they were, if they are within the cap together, and what follows them is left.
pub read_data-stuffed :
    (cap : ℕ) (ls : List Bytes) (rest : Bytes) (i : Input)
    → all is_sent ls ≡ true
    → length (joined ls) ≤ cap
    → all is_chunk i.reads ≡ true
    → all_bytes i ≡ stuffed ls ++ (end_of_data ++ rest)
    → (i' : Input) × (read_data cap i
        ≡ some (ok (record { body = joined ls; oversize = false }), i'))
      × (all_bytes i' ≡ rest)
unfolding read_data
read_data-stuffed cap ls rest i h k c e =
    read_lines-stuffed (suc (left i)) cap [] rest ls i h (ground arith) (omega arith) c e
