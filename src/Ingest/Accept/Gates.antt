-- ===== src/Ingest/Accept/Gates.antt =====
-- What is known of a message that passed the gates, told from the message.
use agent_mail_kit.Prelude.{
  ℕ, ◌≡◌, ◌≢◌, refl, sym, ap, ◌∙◌, Bool, true, false, ◌&&◌, ◌||◌, not, Option, none, some, List, [],
  ◌∷◌, ◌++◌, nat_eq, list_eq, nat_beq_iff, list_beq_iff, arith, All, all, any, contains, length,
  leb, ltb, ok, ok_or, bind_ok, refuse_ok, ok_injective, Bool-cases, Option-cases, inl, inr,
}
use mathlib.Core.Path.{subst}
use agent_mail_kit.Types.Ids.{bracketed}
use agent_mail_kit.Types.Str.{Text, literal, is_empty, trim, eq_ignore_ascii_case}
use agent_mail_kit.Types.Str.Utf8.{from_utf8}
use agent_mail_kit.Types.Send.{is_some}
use agent_mail_kit.Ingest.Errors.{Bytes}
use agent_mail_kit.Ingest.Accept.Fields.{
  reject, format_addresses, address_list, normalize_subject, Parsed, Part, AttachedPart,
  ParsedHeader, ContentType, has_crlf,
}
use agent_mail_kit.Ingest.Accept.Hostile.{
  begins_with, position_of, double_nl, header_section, header_section_is_not_utf8, encodings,
  conflict, conflicting_cte, unclosed, unterminated_multipart, illegal_filename,
}
use agent_mail_kit.Ingest.Accept.Screening.{
  some_has_crlf, Facts, reject_hostile, barrier, check_addressing, is_blank_id, facts_of, screen,
}

begins_with_sound :
    (needle hay : Bytes) → begins_with needle hay ≡ true → (after : Bytes) × (hay ≡ needle ++ after)
unfolding begins_with
begins_with_sound [] hay h = (hay, refl)
begins_with_sound (n ∷ needle) [] h = cc
begins_with_sound (n ∷ needle) (b ∷ hay) h =
    let (after, e) = begins_with_sound needle hay (ground (arith, h)) in
    (after, ground (arith, h, nat_beq_iff n b, e))

begins_with-append : (needle after : Bytes) → begins_with needle (needle ++ after) ≡ true
unfolding begins_with
begins_with-append [] after = refl
begins_with-append (n ∷ needle) after =
    ground (arith, nat_beq_iff n n, begins_with-append needle after)

-- The bytes are in the text.
abbrev pub Within : Bytes → Bytes → Type 0
Within needle hay = (before : Bytes) × (after : Bytes) × (hay ≡ before ++ (needle ++ after))

position_of_sound :
    (needle hay : Bytes) → is_some (position_of needle hay) ≡ true → Within needle hay
unfolding position_of
position_of_sound needle [] h = cc
position_of_sound needle (b ∷ hay) h = elim (Bool-cases (begins_with needle (b ∷ hay))) [
  | inl here ↦ let (after, e) = begins_with_sound needle (b ∷ hay) here in ([], after, e)
  | inr later ↦ elim (Option-cases (position_of needle hay)) [
    | inl absent ↦ absurd (ground (arith, h, later, absent))
    | inr (n, there) ↦
        let (before, after, e) = position_of_sound needle hay (ap is_some there) in
        (b ∷ before, after, ap (λ r. b ∷ r) e)
  ]
]

position_of_complete :
    (n : ℕ) (needle before after : Bytes)
    → is_some (position_of (n ∷ needle) (before ++ ((n ∷ needle) ++ after))) ≡ true
unfolding position_of
position_of_complete n needle [] after = rw (begins_with-append (n ∷ needle) after) refl
position_of_complete n needle (b ∷ before) after =
    let rest = before ++ ((n ∷ needle) ++ after) in
    elim (Bool-cases (begins_with (n ∷ needle) (b ∷ rest))) [
      | inl here ↦ rw here refl
      | inr later ↦ elim (Option-cases (position_of (n ∷ needle) rest)) [
        | inl absent ↦ absurd (cc (position_of_complete n needle before after, ap is_some absent))
        | inr (i, there) ↦ rw (later, there) refl
      ]
    ]

-- No CR and no LF.
abbrev pub one_line : Text → Bool
one_line s = not (contains 13 s || contains 10 s)

has_crlf_lem : (s : Text) → has_crlf s ≡ not (one_line s)
unfolding has_crlf contains
has_crlf_lem [] = refl
has_crlf_lem (c ∷ s) = ground (arith, has_crlf_lem s)

abbrev or_else {ℓ} : {A : Type ℓ} → A → Option A → A
or_else d none = d
or_else d (some a) = a

some_injective {ℓ} : {A : Type ℓ} (a b : A) → some a ≡ some b → a ≡ b
some_injective a b h = ap (or_else a) h

abbrev pub texts : Option Text → List Text
texts none = []
texts (some s) = s ∷ []

-- The name of an attachment is legal.
abbrev pub IsLegal : Option Text → Type 0
IsLegal o = (name : Text) → o ≡ some name → (contains 0 name ≡ false) × ¬ Within (literal "..") name

is_legal : (o : Option Text) → illegal_filename o ≡ false → IsLegal o
unfolding illegal_filename
is_legal none h name e = cc
is_legal (some s) h name e =
    let same : s ≡ name = some_injective s name e in
    rw (sym same) (
      ground (arith, h),
      λ (before, after, w). cc (position_of_complete b'.' (b'.' ∷ []) before after, w, dotless),
    )
  where
    dotless : is_some (position_of (literal "..") s) ≡ false
    dotless = ground (arith, h)

All-IsLegal :
    (parts : List AttachedPart)
    → any (λ a. illegal_filename a.filename) parts ≡ false
    → All (λ a. IsLegal a.filename) parts
All-IsLegal [] h = tt
All-IsLegal (a ∷ parts) h =
    (is_legal a.filename (ground (arith, h)), All-IsLegal parts (ground (arith, h)))

conflict_lem : (vs : List Text) → conflict vs ≡ false → leb (length vs) 1 ≡ true
conflict_lem [] h = refl
conflict_lem (v ∷ []) h = refl
conflict_lem (v ∷ w ∷ vs) h = cc

one_encoding :
    (headers : List ParsedHeader)
    → conflicting_cte headers ≡ false
    → leb (length (encodings headers)) 1 ≡ true
unfolding conflicting_cte
one_encoding headers h = conflict_lem (encodings headers) h

part_encodings :
    (parts : List Part)
    → any (λ p. conflicting_cte p.headers) parts ≡ false
    → all (λ p. leb (length (encodings p.headers)) 1) parts ≡ true
part_encodings [] h = refl
part_encodings (p ∷ parts) h = ground (arith, h, one_encoding p.headers, part_encodings parts)

no_problem :
    (parts : List Part)
    → any (λ p. p.is_encoding_problem) parts ≡ false
    → all (λ p. not p.is_encoding_problem) parts ≡ true
no_problem [] h = refl
no_problem (p ∷ parts) h = ground (arith, h, no_problem parts)

-- A multipart body has its closing boundary.
abbrev pub IsClosed : Bytes → Option ContentType → Type 0
IsClosed raw o =
    (ct : ContentType)
    → o ≡ some ct
    → eq_ignore_ascii_case ct.ctype (literal "multipart") ≡ true
    → (boundary : Text) × (ct.boundary ≡ some boundary)
      × Within (literal "--" ++ boundary ++ literal "--") raw

is_closed :
    (raw : Bytes) (o : Option ContentType) → unterminated_multipart raw o ≡ false → IsClosed raw o
unfolding unterminated_multipart
is_closed raw none h ct e m = cc
is_closed raw (some c) h ct e m =
    let same : c ≡ ct = some_injective c ct e in
    let open_end : unclosed raw ct.boundary ≡ false =
      ground (arith, m, ap (λ x. unterminated x) (sym same) ∙ h) in
    with_end ct.boundary open_end
  where
    unterminated : ContentType → Bool
    unterminated x = eq_ignore_ascii_case x.ctype (literal "multipart") && unclosed raw x.boundary

    with_end :
        (b : Option Text)
        → unclosed raw b ≡ false
        → (boundary : Text) × (b ≡ some boundary)
          × Within (literal "--" ++ boundary ++ literal "--") raw
    with_end none k = cc
    with_end (some b) k =
        (b, refl, position_of_sound (literal "--" ++ b ++ literal "--") raw (ground (arith, k)))

all-one_line : (xs : List Text) → any has_crlf xs ≡ false → all one_line xs ≡ true
all-one_line [] h = refl
all-one_line (x ∷ xs) h = ground (arith, h, has_crlf_lem x, all-one_line xs)

subject_one_line : (o : Option Text) → some_has_crlf o ≡ false → all one_line (texts o) ≡ true
subject_one_line none h = refl
subject_one_line (some s) h = ground (arith, h, has_crlf_lem s)

is_utf8 :
    (raw : Bytes)
    → header_section_is_not_utf8 raw ≡ false
    → (s : Text) × (from_utf8 (header_section (double_nl raw) raw) ≡ some s)
unfolding header_section_is_not_utf8
is_utf8 raw h = elim (Option-cases (from_utf8 (header_section (double_nl raw) raw))) [
  | inl absent ↦ absurd (ground (arith, h, ap is_some absent))
  | inr there ↦ there
]

pub record IsDecent (raw : Bytes) (msg : Parsed) (facts : Facts) : Type 0 where
  pub utf8 : (s : Text) × (from_utf8 (header_section (double_nl raw) raw) ≡ some s)
  pub typed : any (λ h. h.is_content_type) msg.headers ≡ true
  pub encoding : leb (length (encodings msg.headers)) 1 ≡ true
  pub closed : IsClosed raw msg.content_type
  pub shallow : leb msg.depth 3 ≡ true
  pub few_parts : leb (length msg.parts) 64 ≡ true
  pub decoded : all (λ p. not p.is_encoding_problem) msg.parts ≡ true
  pub encodings_of_parts : all (λ p. leb (length (encodings p.headers)) 1) msg.parts ≡ true
  pub one_author : leb msg.from_headers 1 ≡ true
  pub author : is_empty facts.from ≡ false
  pub author_line : one_line facts.from ≡ true
  pub recipients : all one_line facts.to ≡ true
  pub subject : all one_line (texts facts.subject) ≡ true
  pub id_text : is_empty (trim facts.message_id) ≡ false
  pub id_brackets : facts.message_id ≢ literal "<>"
  pub filenames : All (λ a. IsLegal a.filename) msg.attachments

-- The tests of `reject_hostile` and `check_addressing` that fail for a message that passed.
record Mild (raw : Bytes) (msg : Parsed) : Type 0 where
  utf8 : header_section_is_not_utf8 raw ≡ false
  typed : not (any (λ h. h.is_content_type) msg.headers) ≡ false
  encoding : conflicting_cte msg.headers ≡ false
  closed : unterminated_multipart raw msg.content_type ≡ false
  depth : (ltb 3 msg.depth || ltb 64 (length msg.parts)) ≡ false
  decoded : any (λ p. p.is_encoding_problem) msg.parts ≡ false
  parts : any (λ p. conflicting_cte p.headers) msg.parts ≡ false

reject_hostile_sound : (raw : Bytes) (msg : Parsed) → reject_hostile raw msg ≡ ok tt → Mild raw msg
unfolding reject_hostile
reject_hostile_sound raw msg h =
    let (u1, h6, e7) = bind_ok _ _ h in
    let (u2, h5, e6) = bind_ok _ _ h6 in
    let (u3, h4, e5) = bind_ok _ _ h5 in
    let (u4, h3, e4) = bind_ok _ _ h4 in
    let (u5, h2, e3) = bind_ok _ _ h3 in
    let (u6, e1, e2) = bind_ok _ _ h2 in
    record {
      utf8 = refuse_ok _ _ e1;
      typed = refuse_ok _ _ e2;
      encoding = refuse_ok _ _ e3;
      closed = refuse_ok _ _ e4;
      depth = refuse_ok _ _ e5;
      decoded = refuse_ok _ _ e6;
      parts = refuse_ok _ _ e7;
    }

record Addressed (msg : Parsed) : Type 0 where
  one_author : ltb 1 msg.from_headers ≡ false
  author : is_empty (format_addresses msg.from) ≡ false
  author_line : has_crlf (format_addresses msg.from) ≡ false
  recipients : any has_crlf (address_list msg.to) ≡ false
  subject : some_has_crlf (normalize_subject msg.subject) ≡ false

check_addressing_sound :
    (raw : Bytes) (msg : Parsed) → check_addressing raw msg ≡ ok tt → Addressed msg
unfolding check_addressing
check_addressing_sound raw msg h =
    let (u1, h7, e8) = bind_ok _ _ h in
    let (u2, h6, e7) = bind_ok _ _ h7 in
    let (u3, h5, e6) = bind_ok _ _ h6 in
    let (u4, h4, e5) = bind_ok _ _ h5 in
    let (u5, h3, e4) = bind_ok _ _ h4 in
    let (u6, h2, e3) = bind_ok _ _ h3 in
    let (u7, e1, e2) = bind_ok _ _ h2 in
    record {
      one_author = refuse_ok _ _ e1;
      author = refuse_ok _ _ e2;
      author_line = refuse_ok _ _ e3;
      recipients = refuse_ok _ _ e4;
      subject = refuse_ok _ _ e5;
    }

decent :
    (draw : ℕ → Text) (raw : Bytes) (msg : Parsed) (id : Text)
    → Mild raw msg
    → Addressed msg
    → is_blank_id id ≡ false
    → any (λ a. illegal_filename a.filename) msg.attachments ≡ false
    → IsDecent raw msg (facts_of draw raw msg id)
decent draw raw msg id m a named attached = record {
  utf8 = is_utf8 raw m.utf8;
  typed = ground (arith, m.typed);
  encoding = one_encoding msg.headers m.encoding;
  closed = is_closed raw msg.content_type m.closed;
  shallow = ground (arith, m.depth);
  few_parts = ground (arith, m.depth);
  decoded = no_problem msg.parts m.decoded;
  encodings_of_parts = part_encodings msg.parts m.parts;
  one_author = ground (arith, a.one_author);
  author = a.author;
  author_line = ground (arith, a.author_line, has_crlf_lem (format_addresses msg.from));
  recipients = all-one_line (address_list msg.to) a.recipients;
  subject = subject_one_line (normalize_subject msg.subject) a.subject;
  id_text = ground (arith, named);
  id_brackets = λ e. ground (arith, named, list_beq_iff id (literal "<>"), e);
  filenames = All-IsLegal msg.attachments attached;
}

pub screen_sound :
    (draw : ℕ → Text) (raw : Bytes) (msg : Parsed) {facts : Facts}
    → screen draw raw msg ≡ ok facts
    → IsDecent raw msg facts
unfolding screen
screen_sound draw raw msg h =
    let (u1, e1, h1) = bind_ok _ _ h in
    let (u2, e2, h2) = bind_ok _ _ h1 in
    let (id, e3, h3) =
      bind_ok (ok_or msg.message_id (reject (literal "Missing Message-ID"))) _ h2 in
    let blank = is_blank_id (bracketed (trim id)) in
    let illegal = any (λ a. illegal_filename a.filename) msg.attachments in
    let (u4, e4, h4) = bind_ok (barrier blank (literal "Missing Message-ID")) _ h3 in
    let (u5, e5, h5) = bind_ok (barrier illegal (literal "Illegal attachment filename")) _ h4 in
    subst (IsDecent raw msg) (ok_injective _ _ h5) (
      decent draw raw msg (bracketed (trim id)) (reject_hostile_sound raw msg e1)
        (check_addressing_sound raw msg e2) (refuse_ok blank _ e4) (refuse_ok illegal _ e5))
