-- ===== src/Ingest/Wire.antt =====
-- crates/amk-ingest/src/smtp.rs: lines and message data from the connection. What is still to come is
-- the list of the reads, each the bytes it gives or a failure; it ends with the end of the stream.
pub mod Framing
pub mod Stuffing
use agent_mail_kit.Prelude.{
  ℕ, zero, suc, ◌+◌, ◌*◌, Bool, true, false, ◌&&◌, ◌||◌, Option, none, some, List, [], ◌∷◌, ◌++◌,
  length, ◌==◌, nat_eq, list_eq, ltb, Result, ok, err, if◌then◌else◌,
}
use agent_mail_kit.Types.Str.{Text, literal}
use agent_mail_kit.Ingest.Errors.{Bytes, IngestError, rejected, io}

pub data Read : Type 0 where
  bytes : Bytes → Read
  failed : Text → Read

-- What was read and not yet used, and what will be read.
pub record Input : Type 0 where
  pub buf : Bytes
  pub reads : List Read

-- `position(b'\n')` and `drain(..=pos)`: the first line with its end, and the rest.
abbrev pub with_byte : ℕ → Option (Bytes × Bytes) → Option (Bytes × Bytes)
with_byte b none = none
with_byte b (some (l, rest)) = some (b ∷ l, rest)

unfoldable pub first_line : Bytes → Option (Bytes × Bytes)
first_line [] = none
first_line (b ∷ bs) =
    let rest = with_byte b (first_line bs) in if b == b'\n' then some (b ∷ [], bs) else rest

abbrev pub line_limit : ℕ
line_limit = 16 * 1024

-- What `read_line` returns; no line at the end of the stream.
abbrev pub Line : Type 0
Line = Result (Option Bytes) IngestError

-- The line that is there, or what comes of waiting for one.
abbrev pub or_wait : Option (Bytes × Bytes) → List Read → Line × Input → Line × Input
or_wait none reads waited = waited
or_wait (some (l, rest)) reads waited = (ok (some l), record { buf = rest; reads = reads })

unfoldable pub read_line_from : Bytes → List Read → Line × Input
read_line_from buf [] = or_wait (first_line buf) [] (ok none, record { buf = buf; reads = [] })
read_line_from buf (failed e ∷ reads) =
    or_wait (first_line buf) (failed e ∷ reads) (err (io e), record { buf = buf; reads = reads })
read_line_from buf (bytes [] ∷ reads) =
    or_wait (first_line buf) (bytes [] ∷ reads) (ok none, record { buf = buf; reads = reads })
read_line_from buf (bytes (b ∷ bs) ∷ reads) =
    let full = buf ++ b ∷ bs in
    let more = read_line_from full reads in
    let too_long : Line × Input =
      (err (rejected 500 (literal "Line too long")), record { buf = full; reads = reads }) in
    or_wait (first_line buf) (bytes (b ∷ bs) ∷ reads)
      (if ltb line_limit (length full) then too_long else more)

unfoldable pub read_line : Input → Line × Input
read_line i = read_line_from i.buf i.reads

unfoldable pub is_data_end : Bytes → Bool
is_data_end line = line == b'.' ∷ b'\r' ∷ b'\n' ∷ [] || line == b'.' ∷ b'\n' ∷ []

unfoldable pub destuff : Bytes → Bytes
destuff [] = []
destuff (a ∷ []) = a ∷ []
destuff (a ∷ b ∷ line) = if a == b'.' && b == b'.' then b ∷ line else a ∷ b ∷ line

-- What the loop of `read_data` carries.
pub record Data : Type 0 where
  pub body : Bytes
  pub oversize : Bool

-- One line that does not end the data. Lengths are far below the bound of `saturating_add`.
unfoldable pub add_line : ℕ → Data → Bytes → Data
add_line cap d line =
    let full : Data = record { body = []; oversize = true } in
    let more : Data = record { body = d.body ++ destuff line; oversize = false } in
    if d.oversize then d else if ltb cap (length d.body + length (destuff line)) then full else more

-- The loop, with a bound on the number of lines; `none` is a bound that was too low.
abbrev Reading : Type 0
Reading = Option (Result Data IngestError × Input)

unfoldable pub read_lines : ℕ → ℕ → Data → Input → Reading
read_lines zero cap d i = none
read_lines (suc fuel) cap d i =
    let (line, i') = read_line i in
    elim line [
      | err e ↦ some (err e, i')
      | ok none ↦ some (err (io (literal "connection closed during DATA")), i')
      | ok (some l) ↦
          let rest = read_lines fuel cap (add_line cap d l) i' in
          if is_data_end l then some (ok d, i') else rest
    ]

abbrev read_size : Read → ℕ
read_size (bytes bs) = length bs
read_size (failed e) = 0

abbrev sizes : List Read → ℕ
sizes [] = 0
sizes (r ∷ reads) = read_size r + sizes reads

-- The bytes that are left.
unfoldable pub left : Input → ℕ
left i = length i.buf + sizes i.reads

-- Every line takes a byte at least, so this bound is enough.
unfoldable pub read_data : ℕ → Input → Reading
read_data cap i = read_lines (suc (left i)) cap (record { body = []; oversize = false }) i
