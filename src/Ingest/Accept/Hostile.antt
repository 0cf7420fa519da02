-- ===== src/Ingest/Accept/Hostile.antt =====
-- crates/amk-ingest/src/accept.rs: the tests that `reject_hostile` and `collect_attachments` make of a
-- message, each by itself.
use agent_mail_kit.Prelude.{
  ℕ, suc, Bool, true, false, ◌&&◌, ◌||◌, not, Option, none, some, List, [], ◌∷◌, ◌++◌, ◌==◌, nat_eq,
  list_eq, string_eq, ltb, contains, if◌then◌else◌,
}
use agent_mail_kit.Types.Str.{Text, literal, is_whitespace, eq_ignore_ascii_case}
use agent_mail_kit.Types.Str.Utf8.{from_utf8}
use agent_mail_kit.Types.Send.{is_some}
use agent_mail_kit.Ingest.Errors.{Bytes}
use agent_mail_kit.Ingest.Accept.Fields.{ParsedHeader, ContentType, take, prepend}

-- `starts_with` of bytes, and the first place where the bytes are: `windows(n).position(..)`.
unfoldable pub begins_with : Bytes → Bytes → Bool
begins_with [] hay = true
begins_with (n ∷ needle) [] = false
begins_with (n ∷ needle) (b ∷ hay) = n == b && begins_with needle hay

abbrev shifted : Option ℕ → Option ℕ
shifted none = none
shifted (some i) = some (suc i)

unfoldable pub position_of : Bytes → Bytes → Option ℕ
position_of needle [] = none
position_of needle (b ∷ hay) =
    let later = shifted (position_of needle hay) in
    if begins_with needle (b ∷ hay) then some 0 else later

unfoldable pub double_nl : Bytes → Option ℕ
double_nl raw = elim (position_of (literal "\r\n\r\n") raw) [
  | some i ↦ some i
  | none ↦ position_of (literal "\n\n") raw
]

abbrev pub header_section : Option ℕ → Bytes → Bytes
header_section none raw = raw
header_section (some n) raw = take n raw

unfoldable pub header_section_is_not_utf8 : Bytes → Bool
header_section_is_not_utf8 raw = not (is_some (from_utf8 (header_section (double_nl raw) raw)))

-- `split_whitespace().count()`, after a space or within a word.
unfoldable pub words : Bool → Text → ℕ
words within [] = 0
words within (c ∷ s) =
    let outside = words false s in
    let more = words true s in
    if is_whitespace c then outside else if within then more else suc more

abbrev pub encodings : List ParsedHeader → List Text
encodings [] = []
encodings (h ∷ headers) = prepend h.transfer_encoding (encodings headers)

abbrev pub conflict : List Text → Bool
conflict [] = false
conflict (v ∷ []) = contains b',' v || ltb 1 (words false v)
conflict (v ∷ w ∷ rest) = true

unfoldable pub conflicting_cte : List ParsedHeader → Bool
conflicting_cte headers = conflict (encodings headers)

abbrev pub unclosed : Bytes → Option Text → Bool
unclosed raw none = true
unclosed raw (some boundary) =
    not (is_some (position_of (literal "--" ++ boundary ++ literal "--") raw))

unfoldable pub unterminated_multipart : Bytes → Option ContentType → Bool
unterminated_multipart raw none = false
unterminated_multipart raw (some ct) =
    eq_ignore_ascii_case ct.ctype (literal "multipart") && unclosed raw ct.boundary

unfoldable pub illegal_filename : Option Text → Bool
illegal_filename none = false
illegal_filename (some name) = contains 0 name || is_some (position_of (literal "..") name)
