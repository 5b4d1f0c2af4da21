-- ===== src/Raw/Handshake.antt =====
-- The handshake of the raw protocol.
use tcp_handler.Base.{◌≡◌, ◌↔◌, Bool, true, ok}
use tcp_handler.Transport.{Str, Transport, IsLawful}
use tcp_handler.Transport.Carries.{Carries}
use tcp_handler.Common.Variant.{raw}
use tcp_handler.Common.Decision.{decide, server_view, client_view, established_iff}
use tcp_handler.Common.Head.Wire.{head_result}
use tcp_handler.Common.Exchange.Agreement
use tcp_handler.Raw.{client_init, server_init, client_start, server_start}

module _ {t : Transport} (l : IsLawful t) where
  module _ (af : Bool) (i v j w : Str) (accepts : Str → Bool) {cw sw : t.Writer} {sr cr : t.Reader}
      (ch : l.Healthy cw) (sh : l.Healthy sw) (up : Carries l cw (client_init t af i v cw).1 sr)
      (down : Carries l sw (server_start t af j w (server_init t j accepts sr).0 sw).1 cr) where
    -- Let client and server run the handshake over two healthy writers, each reader getting what
    -- the other side's writer accepted. Then both sides return the views of one decision: both
    -- succeed, and the server learns the client's version; or both fail with the same kind of
    -- error, with the client's value in the server's error and the server's value in the client's.
    pub raw_agreement :
        ((server_start t af j w (server_init t j accepts sr).0 sw).0
          ≡ server_view head_result (decide raw i v raw j accepts))
        × ((client_start t (client_init t af i v cw).0 cr).0
            ≡ client_view raw j w tt (decide raw i v raw j accepts))
    unfolding client_init server_init client_start server_start
    raw_agreement = Agreement.agreement l raw raw af i v j w accepts ch sh up down

    -- Let client and server run the handshake over two healthy writers, each reader getting what
    -- the other side's writer accepted. Then the client returns successfully exactly if it has the
    -- server's identifier and a version that the server's predicate accepts.
    pub raw_established :
        ((client_start t (client_init t af i v cw).0 cr).0 ≡ ok tt) ↔ ((i ≡ j) × (accepts v ≡ true))
    raw_established = rw (raw_agreement.1) (established_iff raw i v j w accepts tt)
