-- ===== src/Streams/Dialogue.antt =====
-- Callers of two handlers: one sends requests and waits for each reply, the other answers them. And
-- what such callers need of a handler.
pub mod Grows
pub mod Answered
use tcp_handler.Base.{◌≡◌, List, [], ◌∷◌, ◌++◌, ok, Action, ◌>>=◌, ◌>>◌, pure}
use tcp_handler.Transport.{Bytes, Transport, IsLawful}
use tcp_handler.Common.Errors.{PacketError}
use tcp_handler.Streams.{TcpHandler, handler_send_recv}

module _ {D H : Type 0} (h : TcpHandler D H) where
  -- A request is given with what its `send` draws.
  unfoldable pub request_all : List (D × Bytes) → Action H PacketError (List Bytes)
  request_all [] = pure []
  request_all (request ∷ requests) = do
    reply ← handler_send_recv h request.0 request.1
    replies ← request_all requests
    pure (reply ∷ replies)

  -- The requests are returned, and replied to by `answer`; `draws` is what the calls of `send` draw.
  unfoldable pub serve_all : (Bytes → Bytes) → List D → Action H PacketError (List Bytes)
  serve_all answer [] = pure []
  serve_all answer (draw ∷ draws) = do
    message ← h.handler_recv
    h.handler_send draw (answer message)
    messages ← serve_all answer draws
    pure (message ∷ messages)

-- A handler whose packets lead it from key to key: `Sealed k d m x k'` tells that under the key `k`
-- the message `m`, with the draw `d`, is the bytes `x` on the stream, and that both ends then hold
-- the key `k'`.
pub record IsHandler {t : Transport} (l : IsLawful t) {D H : Type 0} (h : TcpHandler D H)
    (K : Type 0) (Sealed : K → D → Bytes → Bytes → K → Type 0) : Type 1 where
  pub writer : H → t.Writer
  pub reader : H → t.Reader
  pub Ready : K → H → Type 0
  pub sends :
      {k k' : K} {d : D} {m x : Bytes} {s : H}
      → Sealed k d m x k'
      → Ready k s
      → l.Healthy (writer s)
      → ((h.handler_send d m s).0 ≡ ok tt)
        × Ready k' (h.handler_send d m s).1
        × l.Healthy (writer (h.handler_send d m s).1)
        × (l.accepted (writer (h.handler_send d m s).1) ≡ l.accepted (writer s) ++ x)
  pub receives :
      {k k' : K} {d : D} {m x : Bytes} {s : H} (rest : Bytes)
      → Sealed k d m x k'
      → Ready k s
      → l.pending (reader s) ≡ x ++ rest
      → ((h.handler_recv s).0 ≡ ok m)
        × Ready k' (h.handler_recv s).1
        × (l.pending (reader (h.handler_recv s).1) ≡ rest)
  pub send_keeps : (d : D) (m : Bytes) (s : H) → reader (h.handler_send d m s).1 ≡ reader s
  pub recv_keeps : (s : H) → writer (h.handler_recv s).1 ≡ writer s
  -- Whatever `send` returns, its writer has accepted no less than before.
  pub send_grows :
      (d : D) (m : Bytes) (s : H)
      → (p : Bytes) × (l.accepted (writer (h.handler_send d m s).1) ≡ l.accepted (writer s) ++ p)
