-- ===== src/Ingest/Serve.antt =====
-- crates/amk-ingest/src/smtp.rs: `serve_session`, one connection from the greeting to its end.
-- Whether the client talked before the greeting is the result of `talked_too_soon`, an argument.
use agent_mail_kit.Prelude.{
  ◌≡◌, refl, Bool, true, false, Option, none, some, List, [], ◌∷◌, ◌++◌, Result, ok, err,
  if◌then◌else◌, if_both,
}
use agent_mail_kit.Types.Str.{Text, literal}
use agent_mail_kit.Ingest.Errors.{IngestError, io}
use agent_mail_kit.Ingest.Wire.{Input, Read, read_line}
use agent_mail_kit.Ingest.Session.{
  IngestConfig, Host, Output, raw, reply, done, upgrade, Session, Step, again, ended, failed,
  written, write, fresh, run_commands,
}
use agent_mail_kit.Ingest.Session.Soundness.{IsKept, Settled, run_commands_lem}

module _ (h : Host) (config : IngestConfig) (client_ip : Text) where
  -- The result, with the session where it ended.
  abbrev pub Served : Type 0
  Served = Option (Result (Unit {0}) IngestError × Session h.World)

  abbrev second : Option (Step h.World) → Served
  second none = none
  second (some (again s)) = none
  second (some (ended o s)) = some (ok tt, s)
  second (some (failed e s)) = some (err e, s)

  -- The commands after the handshake start anew: nothing that was learnt before it stays.
  abbrev over_tls : Result (List Read) Text → Session h.World → Served
  over_tls (err e) s = some (err (io (literal "STARTTLS handshake failed: " ++ e)), s)
  over_tls (ok reads) s =
      second
        (run_commands h config client_ip true (record { buf = []; reads = reads }) s.output s.world)

  abbrev first : Option (Step h.World) → Served
  first none = none
  first (some (again s)) = none
  first (some (ended done s)) = some (ok tt, s)
  first (some (ended upgrade s)) =
      if config.tls then over_tls (h.handshake s.world) s else some (ok tt, s)
  first (some (failed e s)) = some (err e, s)

  abbrev greeted_by : Step h.World → Served
  greeted_by (again s) = first (run_commands h config client_ip false s.input s.output s.world)
  greeted_by (ended o s) = none
  greeted_by (failed e s) = some (err e, s)

  -- The premature command is read and dropped before the reply.
  abbrev refused : Step h.World → Served
  refused (again s) = some (ok tt, s)
  refused (ended o s) = none
  refused (failed e s) = some (err e, s)

  unfoldable pub serve_session : Result Bool Text → Input → h.World → Served
  serve_session (err e) input w = some (err (io e), fresh h config client_ip input [] w)
  serve_session (ok true) input w = refused (
      write h (reply 421 4 7 0 (literal "You talk too soon"))
        (fresh h config client_ip (read_line input).1 [] w))
  serve_session (ok false) input w = greeted_by (
      write h (raw (literal "220 " ++ config.hostname ++ literal " ESMTP\r\n"))
        (fresh h config client_ip input [] w))

module _ (h : Host) (config : IngestConfig) (client_ip : Text) (P : h.World → Type 0)
    (kept : IsKept h config P) where
  abbrev Ends : Served h config client_ip → Type 0
  Ends r = (x : Result (Unit {0}) IngestError × Session h.World) × (r ≡ some x) × P x.1.world

  second-Ends :
      (x : Step h.World)
      → Settled h config client_ip P kept true x
      → Ends (second h config client_ip (some x))
  second-Ends (again s) p = elim p [ ]
  second-Ends (ended o s) p = (_, refl, p.0)
  second-Ends (failed e s) p = (_, refl, p)

  over_tls-Ends :
      (r : Result (List Read) Text) (s : Session h.World)
      → P s.world
      → Ends (over_tls h config client_ip r s)
  over_tls-Ends (err e) s p = (_, refl, p)
  over_tls-Ends (ok reads) s p =
      let (x, e, settled) =
        run_commands_lem h config client_ip P kept true (record { buf = []; reads = reads })
          s.output s.world p in
      rw e (second-Ends x settled)

  first-Ends :
      (x : Step h.World)
      → Settled h config client_ip P kept false x
      → Ends (first h config client_ip (some x))
  first-Ends (again s) p = elim p [ ]
  first-Ends (ended done s) p = (_, refl, p.0)
  first-Ends (ended upgrade s) p =
      if_both (λ r. Ends r) config.tls _ _ (λ e. over_tls-Ends (h.handshake s.world) s p.0)
        (λ e. (_, refl, p.0))
  first-Ends (failed e s) p = (_, refl, p)

  refused-Ends :
      (error : Option Text) (out : Output) (s : Session h.World)
      → P s.world
      → Ends (refused h config client_ip (written h error out s))
  refused-Ends none out s p = (_, refl, p)
  refused-Ends (some e) out s p = (_, refl, p)

  greeted_by-Ends :
      (error : Option Text) (out : Output) (s : Session h.World)
      → P s.world
      → Ends (greeted_by h config client_ip (written h error out s))
  greeted_by-Ends none out s p =
      let (x, e, settled) =
        run_commands_lem h config client_ip P kept false s.input (s.output ++ out ∷ []) s.world p in
      rw e (first-Ends x settled)
  greeted_by-Ends (some e) out s p = (_, refl, p)

  -- Every connection is served to an end, with TLS in the middle or without; whatever holds of the world
  -- before, and is kept by storing a message within the limit for a recipient that the lookup found and
  -- whose address has, after its last `@` and in lower case, one of the configured domains, holds after.
  pub serve_session_lem :
      (too_soon : Result Bool Text) (input : Input) (w : h.World)
      → P w
      → (x : Result (Unit {0}) IngestError × Session h.World) × (serve_session h config client_ip
            too_soon input w
          ≡ some x)
        × P x.1.world
  unfolding serve_session write fresh
  serve_session_lem (err e) input w p = (_, refl, p)
  serve_session_lem (ok true) input w p =
      refused-Ends (h.write_error 0) _ (fresh h config client_ip (read_line input).1 [] w) p
  serve_session_lem (ok false) input w p =
      greeted_by-Ends (h.write_error 0) _ (fresh h config client_ip input [] w) p
