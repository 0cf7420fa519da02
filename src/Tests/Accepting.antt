-- ===== src/Tests/Accepting.antt =====
-- The acceptance of messages at a concrete input.
use agent_mail_kit.Prelude.{
  ℕ, ◌⊎◌, ◌≡◌, refl, true, Option, none, some, List, [], ◌∷◌, ◌++◌, length, ok,
}
use agent_mail_kit.Types.Str.{Text, literal}
use agent_mail_kit.Types.Ids.{MessageId}
use agent_mail_kit.Ingest.Errors.{Bytes}
use agent_mail_kit.Ingest.Lookup.{Accepted}
use agent_mail_kit.Ingest.Accept.Fields.{AttachedPart, Parsed, ParsedHeader, another}
use agent_mail_kit.Ingest.Accept.Auth.{stub_fail, stub_outcome, outcome}
use agent_mail_kit.Ingest.Accept.{accept}
use agent_mail_kit.Ingest.Accept.Rows.{MailStore, NewMessage, AcceptRequest, inserted}
use agent_mail_kit.Ingest.Accept.Storing.{Passes, OnlyBodies, accept_unchanged}

-- The world is the messages that were stored.
abbrev toy_store : MailStore
toy_store = record {
  World = List NewMessage;
  get = λ dest id w. ok none;
  insert_thread = λ thread w. (ok tt, w);
  insert_message = λ message w. (inserted, w ++ message ∷ []);
  record_member = λ t member w. (ok tt, w);
  new_random = λ w. length w;
  put = λ body w. (ok body, w);
}

abbrev html_header : ParsedHeader
html_header = record {
  name = literal "Content-Type";
  is_content_type = true;
  transfer_encoding = none;
  offset_start = 13;
  offset_end = 14;
}

abbrev an_attachment : AttachedPart
an_attachment = record {
  filename = some (literal "a.b");
  content_type = none;
  content_disposition = none;
  content_id = none;
  body = literal "B";
}

abbrev parsed_message : Parsed
parsed_message = record {
  headers = html_header ∷ [];
  from_headers = 1;
  from = some ((none, some (literal "x@y")) ∷ []);
  to = none;
  cc = none;
  bcc = none;
  reply_to = none;
  subject = none;
  message_id = some (literal "i@y");
  in_reply_to = record { as_text = none; as_text_list = none };
  references = another;
  body_text = none;
  body_html = none;
  body_preview = none;
  content_type = none;
  depth = 0;
  parts = [];
  attachments = an_attachment ∷ [];
}

abbrev incoming : AcceptRequest
incoming = record {
  raw = literal "Content-Type:a\r\n\r\nb";
  envelope = record { mail_from = literal "x@y"; client_ip = literal "ip"; ehlo_host = [] };
  dest = record { organization_id = literal "o"; pod_id = 1; inbox_id = literal "u@a.b" };
  max_message_bytes = 100;
  raw_blob_id = none;
  blobs = true;
  timestamp = 5;
}

abbrev always : Bytes → Option Parsed
always raw = some parsed_message

abbrev as_asked : List MessageId → List MessageId
as_asked ids = ids

abbrev numbered : ℕ → Text
numbered n = n ∷ []

abbrev in_thread_0 : Accepted
in_thread_0 = record { message_id = literal "<i@y>"; thread_id = 0; inbox_id = literal "u@a.b" }

fails_hard :
    ¬ Passes toy_store incoming numbered always
      (outcome stub_fail incoming.raw incoming.envelope)
      []
unfolding outcome stub_outcome
fails_hard p = p.authentic refl

accept_unchanged_example :
    ((accept toy_store numbered always stub_fail as_asked incoming []).1 ≡ [])
    ⊎ OnlyBodies toy_store incoming numbered always []
        (accept toy_store numbered always stub_fail as_asked incoming []).1
accept_unchanged_example =
    accept_unchanged toy_store incoming numbered always stub_fail as_asked [] fails_hard
