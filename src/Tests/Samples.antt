-- ===== src/Tests/Samples.antt =====
-- Shared inputs: ids, keys, a pod, and a thread of a visible and a spam message.
use agent_mail_kit.Prelude.{String, none, some, List, [], ◌∷◌, true}
use agent_mail_kit.Types.Ids.{InboxId, MessageId, OrganizationId}
use agent_mail_kit.Types.ApiKey.{ApiKeyPermissions, KeyGrants, restricted}
use agent_mail_kit.Types.Mail.{Pod, Message, Thread}

abbrev pub acme : OrganizationId
acme = b'a' ∷ []

abbrev pub upper_inbox : InboxId
upper_inbox = b'I' ∷ b'@' ∷ b'x' ∷ []

abbrev pub lower_inbox : InboxId
lower_inbox = b'i' ∷ b'@' ∷ b'x' ∷ []

abbrev pub other_inbox : InboxId
other_inbox = b'o' ∷ b'@' ∷ b'x' ∷ []

abbrev pub root_id : MessageId
root_id = b'<' ∷ b'r' ∷ b'>' ∷ []

abbrev pub reply_id : MessageId
reply_id = b'<' ∷ b's' ∷ b'>' ∷ []

abbrev pub a_pod : Pod
a_pod = record {
  organization_id = some acme;
  pod_id = 7;
  client_id = none;
  name = "p";
  updated_at = 0;
  created_at = 0;
}

abbrev pub no_permissions : ApiKeyPermissions
no_permissions = record {
  inbox_read = none;
  inbox_create = none;
  inbox_update = none;
  inbox_delete = none;
  message_read = none;
  message_send = none;
  message_update = none;
  message_delete = none;
  label_spam_read = none;
  label_blocked_read = none;
  label_unauthenticated_read = none;
  label_trash_read = none;
  draft_read = none;
  draft_create = none;
  draft_update = none;
  draft_delete = none;
  draft_send = none;
  webhook_read = none;
  webhook_create = none;
  webhook_update = none;
  webhook_delete = none;
  domain_read = none;
  domain_create = none;
  domain_update = none;
  domain_delete = none;
  list_entry_read = none;
  list_entry_create = none;
  list_entry_delete = none;
  metrics_read = none;
  api_key_read = none;
  api_key_create = none;
  api_key_update = none;
  api_key_delete = none;
  pod_read = none;
  pod_create = none;
  pod_delete = none;
  owner_email = none;
  owner_profile = none;
}

-- May read messages, and nothing else.
abbrev pub reader : KeyGrants
reader = restricted (record no_permissions { message_read = some true })

abbrev pub message_with : List String → MessageId → Message
message_with labels id = record {
  item = record {
    organization_id = some acme;
    pod_id = some 7;
    inbox_id = upper_inbox;
    thread_id = 1;
    message_id = id;
    labels = labels;
    timestamp = 5;
    from = "s";
    to = "r" ∷ [];
    cc = none;
    bcc = none;
    subject = none;
    preview = none;
    attachments = none;
    in_reply_to = none;
    references = none;
    smtp_id = none;
    size = 10;
    updated_at = 5;
    created_at = 5;
  };
  reply_to = none;
  text = none;
  html = none;
  extracted_text = none;
  extracted_html = none;
}

abbrev pub mixed_thread : Thread
mixed_thread = record {
  item = record {
    organization_id = some acme;
    pod_id = some 7;
    inbox_id = upper_inbox;
    thread_id = 1;
    labels = "received" ∷ "spam" ∷ [];
    timestamp = 5;
    received_timestamp = some 5;
    sent_timestamp = none;
    senders = "s" ∷ "t" ∷ [];
    recipients = "r" ∷ [];
    subject = none;
    preview = none;
    attachments = none;
    last_message_id = reply_id;
    message_count = 2;
    size = 20;
    updated_at = 5;
    created_at = 5;
  };
  messages = message_with ("received" ∷ []) root_id ∷ message_with ("spam" ∷ []) reply_id ∷ [];
}
