-- ===== src/Outbound/Build/Clean.antt =====
-- What a request is, if `build_signed` accepts it: no part of it breaks the headers.
use agent_mail_kit.Prelude.{
  true, ◌≡◌, refl, ◌↔◌, Option, none, some, List, [], ◌∷◌, all, arith, ok, bind_ok,
}
use agent_mail_kit.Types.Str.{Text, literal}
use agent_mail_kit.Types.Send.{Addresses, into_vec, Headers, SendMessageRequest}
use agent_mail_kit.Outbound.Sanitiser.Allowed.{
  is_clean, is_allowed, check_headers_iff, check_field_iff,
}
use agent_mail_kit.Outbound.Attachments.{check_filename}
use agent_mail_kit.Outbound.Build.{
  flatten, checked_headers, check_each, check_addresses, check_subject, check_request,
}

-- The headers that the caller set, and the texts that were given.
abbrev pub entries : Option Headers → Headers
entries none = []
entries (some headers) = headers

abbrev pub texts : Option Text → List Text
texts none = []
texts (some s) = s ∷ []

check_each_iff :
    (name : Text) (addrs : List Text)
    → (check_each name addrs ≡ ok tt) ↔ (all is_clean addrs ≡ true)
unfolding check_each
check_each_iff name [] = ground arith
check_each_iff name (addr ∷ addrs) =
    ground (arith, check_field_iff name addr, check_each_iff name addrs)

check_addresses_sound :
    (name : Text) (a : Option Addresses)
    → check_addresses name a ≡ ok tt
    → all is_clean (flatten a) ≡ true
check_addresses_sound name none h = refl
check_addresses_sound name (some a) h = (check_each_iff name (into_vec a)).0 h

check_subject_sound : (s : Option Text) → check_subject s ≡ ok tt → all is_clean (texts s) ≡ true
check_subject_sound none h = refl
check_subject_sound (some s) h = ground (arith, (check_field_iff (literal "subject") s).0 h)

check_filename_sound : (s : Option Text) → check_filename s ≡ ok tt → all is_clean (texts s) ≡ true
unfolding check_filename
check_filename_sound none h = refl
check_filename_sound (some s) h = ground (arith, (check_field_iff (literal "filename") s).0 h)

checked_headers_sound :
    (headers : Option Headers)
    → checked_headers headers ≡ ok tt
    → all is_allowed (entries headers) ≡ true
checked_headers_sound none h = refl
checked_headers_sound (some headers) h = (check_headers_iff headers).0 h

-- Nothing in the request that goes to a header breaks one.
pub record IsSafe (req : SendMessageRequest) : Type 0 where
  pub headers : all is_allowed (entries req.headers) ≡ true
  pub to : all is_clean (flatten req.to) ≡ true
  pub cc : all is_clean (flatten req.cc) ≡ true
  pub bcc : all is_clean (flatten req.bcc) ≡ true
  pub reply_to : all is_clean (flatten req.reply_to) ≡ true
  pub subject : all is_clean (texts req.subject) ≡ true

pub check_request_sound : (req : SendMessageRequest) → check_request req ≡ ok tt → IsSafe req
unfolding check_request
check_request_sound req h =
    let (u1, h5, e6) = bind_ok _ _ h in
    let (u2, h4, e5) = bind_ok _ _ h5 in
    let (u3, h3, e4) = bind_ok _ _ h4 in
    let (u4, h2, e3) = bind_ok _ _ h3 in
    let (u5, e1, e2) = bind_ok _ _ h2 in
    record {
      headers = checked_headers_sound req.headers e1;
      to = check_addresses_sound _ req.to e2;
      cc = check_addresses_sound _ req.cc e3;
      bcc = check_addresses_sound _ req.bcc e4;
      reply_to = check_addresses_sound _ req.reply_to e5;
      subject = check_subject_sound req.subject e6;
    }
