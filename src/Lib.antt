-- ===== src/Lib.antt =====
-- AgentMailKit: a self-hosted mail service for agents, with an HTTP API over organizations, pods,
-- inboxes, threads and messages. This library models the rules that decide who sees what and which
-- thread a message joins, the SMTP sessions that take mail in, and the path of mail that goes out.
--
-- The parts, and the files that model them (paths from the repository's root):
--
--   Types: crates/amk-types/src, the shared vocabulary.
--     Types/Str: ASCII folding, `trim`, prefixes and suffixes of the standard library's `str`, on
--       texts as lists of code points.
--       Split, Utf8 and Decimal below it have `split_once`, `from_utf8` and decimal numbers.
--     Types/Ids (ids.rs): the identifiers. Those whose characters the code reads (inbox, message,
--       organization) are texts; UUIDs are the numbers they write.
--     Types/Labels, Types/Mail (message.rs, thread.rs, pod.rs, inbox.rs, page.rs): the label catalog
--       and the records. A timestamp is its milliseconds; free text that no rule reads is a string.
--     Types/Event (event.rs), Types/ErrorCode and Types/Envelope (error.rs), Types/ApiKey
--       (api_key.rs): event types, error codes and envelopes with their validation issues, and the
--       permissions object of a key, one field for each flag.
--   Core: crates/amk-core/src, the rules.
--     Core/Permissions (permissions.rs): `require`, `authorize`, `derive_child`, subscriptions.
--     Core/Scope (scope.rs): Identities has `Scope::from_identity`, Mounts has `Scope::resolve`,
--       `MountProbe::settle` and the types between, Window has `ScopeFilter` with `check`,
--       `check_thread` and `retain_visible`, Denials has the masked errors.
--     Core/Labels (labels.rs): Flags has `IncludeFlags`, Admission has `admit`, `admits` and
--       `excluded_labels`, Redaction has `redact_thread`, Mutation has `apply_mutation` and the
--       violations of system labels.
--     Core/Threading (threading.rs): Links has the normalisations of header values, Assigner has
--       `ReferenceChainThreading::assign`, MemoryIndex has `InMemoryThreadIndex`.
--     Core/Download (download.rs): `mint` and `verify` of download tokens.
--   Store: crates/amk-store/src, of which Store/Cursors models the page tokens of messages and threads
--     (pagination.rs, error.rs), over Types/Cursor (amk-types/src/page.rs).
--   Http: crates/amk-http/src, of which Http/RateLimit models the token buckets (ratelimit.rs) and
--     Http/Pagination the limits of list queries (pagination.rs, with `validation_error` of body.rs).
--     Http/Auth (auth.rs): `from_request_parts`; Http/ScopeExt (scope_ext.rs): the proof of a mount.
--   Outbound: crates/amk-outbound/src.
--     Outbound/Sanitiser (assemble.rs): `check_headers` and `check_field`.
--     Outbound/Recipients, Outbound/Attachments and Outbound/Build (build.rs): addresses and reply-all,
--       the calls of the MIME builder, and `build_signed`, over the request of Types/Send (message.rs).
--     Outbound/Signing (signing.rs): the keyring and `sign`.
--     Outbound/Delivery (smtp.rs, lib.rs): the hosts of a domain, direct delivery, `sign_and_deliver`.
--   Ingest: crates/amk-ingest/src.
--     Ingest/Wire (smtp.rs): lines and message data from the reads of a connection.
--     Ingest/Session and Ingest/Serve (smtp.rs): the commands, the loop, and STARTTLS between two loops.
--     Ingest/Lookup (lookup.rs, accept.rs) and Ingest/Errors (error.rs).
--     Ingest/Accept (accept.rs): `accept`, with the rows it writes in Accept/Rows, the fields it reads in
--       Accept/Fields, its gates in Accept/Hostile and Accept/Screening (`reject_hostile`), and the
--       verdict of SPF and DKIM in Accept/Auth.
--   Tests: sample values and the theorems at concrete inputs.
--
-- How the parts meet. A request's key becomes an identity and a scope (Http/Auth, over Core/Scope), and
-- the scope and the mount of the request a window (Core/Scope), proved by a lookup where the mount needs
-- one (Http/ScopeExt); a flag of the key gates the action (Core/Permissions); the labels of what was
-- found are admitted or withheld by the same key (Core/Labels, which asks Core/Permissions for the
-- permission half of its verdict). A session (Ingest/Session) hands each message to `accept`
-- (Ingest/Accept), which puts it in a thread by Core/Threading, whose index is a record with the one
-- method of the trait `ThreadIndex`; the in-memory index fills it. Blobs are fetched under a token of
-- Core/Download, and requests are charged by Http/RateLimit.
--
-- Conventions. A method that changes its receiver returns the new value, and `redact_thread` returns
-- the thread with its verdict. Errors are values of `Result` (Prelude/Results). A loop is structural
-- recursion on the list it reads. Besides the loops of Ingest, below, only
-- the decimal printer uses fuel, 20 digits, which is enough for
-- every number below 2 ^ 64 (parse_u64-to_decimal of Types/Str/Decimal); a number in a query may have
-- any number of digits. A `BTreeSet`, a `BTreeMap` or a `HashMap` is a list that is searched by
-- equality, since the code only inserts, looks up and filters; where it also goes through a map in order, the
-- list is kept sorted (Types/Str/Order). Sums of sizes wrap at 2 ^ 64, as `u64`
-- does in a release build; counts are lengths of lists in memory, far below that bound. The bit mask
-- of include flags is a number below 2 ^ 8 whose bits are tested by division. A clock is an argument.
--
-- Code outside the repository. `Uuid::parse_str` is a parameter of Core/Scope/Identities, about which
-- nothing is assumed there. Base64 and HMAC-SHA256 are parameters of Core/Download; where it matters,
-- decoding is assumed to undo encoding, and the encoded text to have no full stop. The `f64`
-- arithmetic of the limiter is the record `Amount`, and `AmountLaws` says what is used of it.
--
-- Base64, JSON, RFC 3339 and UUID texts of page tokens are the record `Codec`, and `CodecLaws` says
-- that each reader undoes its writer, for the ids and the times that have such texts.
--
-- Of outgoing mail, mail-builder and base64 are the record `Mime` (the calls of the builder are recorded
-- in order, and written by it), RSA keys and DKIM signatures the record `Crypto`, the SMTP client and the
-- resolver the record `Network`, which passes a world on; nothing is assumed of them. Of incoming mail,
-- the parser of commands, the lookup, persistence, failing writes and the TLS handshake are the record
-- `Host`, of which nothing is assumed either. A connection is the finite list of its reads. The loops
-- of Ingest/Wire and Ingest/Session take fuel above the number of bytes that are left, which is enough,
-- since every round takes one (read_data_lem, serve_session_lem). The texts of assembly errors are the
-- constructors of `Reason`, and the panic of an `expect` is one of them, which is never given
-- (decoded_inline_attachment_lem of Outbound/Attachments/Inline). Of the acceptance of a message,
-- mail-parser is a function from bytes to the record `Parsed`, mail-auth the record `Resolver`, and the
-- calls of the store the record `MailStore`, of which nothing is assumed; the date of the message, or
-- else the clock, the random ids of attachments and the order in which concurrent lookups return are
-- arguments.
--
-- Of requests, the lookups of keys, pods and inboxes are the records `KeyStore` and `MountStore`, of
-- which nothing is assumed; that the text of a uuid is read back as that uuid is a hypothesis.
--
-- Not modelled: the rest of the HTTP layer (crates/amk-http) and of the PostgreSQL store
-- (crates/amk-store), and the command line (crates/amk-cli), which are I/O around these rules; of
-- accept.rs in crates/amk-ingest the depth of nesting (a number of the parsed message) and the raw
-- bytes in the blob store, which `StorePersist` puts there before; in crates/amk-types the serde
-- implementations, and the JSON maps and request bodies that no rule reads.
pub mod Prelude
pub mod Types
pub mod Core
pub mod Store
pub mod Http
pub mod Outbound
pub mod Ingest
pub mod Tests
