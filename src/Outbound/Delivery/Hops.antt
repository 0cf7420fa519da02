-- ===== src/Outbound/Delivery/Hops.antt =====
-- Delivery to the mail exchangers as a relation between the world before and after.
use agent_mail_kit.Prelude.{◌≡◌, true, false, List, [], ◌∷◌, ok, err}
use agent_mail_kit.Types.Str.{Text}
use agent_mail_kit.Outbound.Errors.{OutboundError, SignedMessage}
use agent_mail_kit.Outbound.Delivery.{Network, Groups, is_delivered, mx_hosts, deliver_to_host}

module _ (n : Network) where
  -- The hosts are tried in order until one takes the message. An error without a text is not told
  -- from success, if it is that of the last host.
  pub data Took (hop : SignedMessage) : List Text → n.World → n.World → Type 0 where
    first :
        {host : Text} {hosts : List Text} {w w' : n.World}
        → deliver_to_host n host 25 false hop w ≡ (ok tt, w')
        → Took hop (host ∷ hosts) w w'
    silent :
        {host : Text} {e : OutboundError} {w w' : n.World}
        → deliver_to_host n host 25 false hop w ≡ (err e, w')
        → is_delivered e ≡ true
        → Took hop (host ∷ []) w w'
    later :
        {host : Text} {hosts : List Text} {e : OutboundError} {w w' w'' : n.World}
        → deliver_to_host n host 25 false hop w ≡ (err e, w')
        → Took hop hosts w' w''
        → Took hop (host ∷ hosts) w w''

  -- One domain after the other, each with its own recipients.
  pub data Chain (message : SignedMessage) : Groups → n.World → n.World → Type 0 where
    done : {w : n.World} → Chain message [] w w
    next :
        {domain : Text} {rcpts : List Text} {groups : Groups} {w w' w'' : n.World}
        → Took
            (record message { envelope_to = rcpts })
            (mx_hosts n domain w).0
            (mx_hosts n domain w).1
            w'
        → Chain message groups w' w''
        → Chain message ((domain, rcpts) ∷ groups) w w''
