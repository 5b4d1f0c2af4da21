-- ===== src/Raw/Opening.antt =====
-- A handshake of the raw protocol whose bytes do not arrive whole.
use tcp_handler.Base.{◌≡◌, ◌≢◌, Bool, true, ◌++◌, [], ok, err}
use tcp_handler.Transport.{Bytes, Str, unexpected_eof, Transport, IsLawful}
use tcp_handler.Common.Variant.{raw}
use tcp_handler.Common.Errors.{StarterError}
use tcp_handler.Common.Decision.{Decision}
use tcp_handler.Common.Head.Wire.{head_bytes}
use tcp_handler.Common.Head.Accepted.{Starves-read_head}
use tcp_handler.Common.Last.Wire.{answer_bytes}
use tcp_handler.Common.Last.Cut.{Starves-read_last}
use tcp_handler.Raw.{server_init, client_start}

-- If the stream to a server ends within the head of a client that it would accept, wherever that is,
-- then `server_init` fails with the error of an unexpected end; and if the stream to a client ends
-- within the server's answer, an acceptance or any refusal, then `client_start` fails with that
-- error.
raw_handshake_cut :
    {t : Transport} (l : IsLawful t) (i v j w : Str) (accepts : Str → Bool) (d : Decision Str)
    (p q p' q' : Bytes) (sr cr : t.Reader)
    → accepts v ≡ true
    → head_bytes l raw i v ≡ p ++ q
    → q ≢ []
    → l.pending sr ≡ p
    → answer_bytes l raw j w d ≡ p' ++ q'
    → q' ≢ []
    → l.pending cr ≡ p'
    → ((server_init t i accepts sr).0 ≡ err (StarterError.io unexpected_eof))
      × ((client_start t (ok tt) cr).0 ≡ err (StarterError.io unexpected_eof))
unfolding server_init client_start
raw_handshake_cut l i v j w accepts d p q p' q' sr cr ac e ne h e' ne' h' = (
  (Starves-read_head l raw i v accepts ac).fails sr p q e ne h,
  (Starves-read_last l raw j w tt d).fails cr p' q' e' ne' h',
)
