-- ===== src/Streams/Session.antt =====
-- A whole session: a handler is constructed, and its caller's loop is run on it. And what both
-- constructors of a protocol give the loops.
pub mod Joined
use tcp_handler.Base.{◌≡◌, refl, Outcome, ok, err, panic, Action}
use tcp_handler.Transport.{Bytes, Transport, IsLawful}
use tcp_handler.Transport.Emits.{Emits}
use tcp_handler.Transport.Reads.{Reads}
use tcp_handler.Common.Errors.{StarterError, PacketError}
use tcp_handler.Streams.{TcpHandler}
use tcp_handler.Streams.Calls.{map_ok}
use tcp_handler.Streams.Dialogue.{IsHandler}

module _ {R W H A : Type 0} (writer : H → W) (loop : Action H PacketError A) where
  abbrev pub continued :
      Outcome StarterError H → R × W → Outcome StarterError (Outcome PacketError A × H) × W
  continued (ok h) s = (ok (loop h), writer (loop h).1)
  continued (err e) s = (err e, s.1)
  continued panic s = (panic, s.1)

  -- The result of the loop with the handler that it leaves, or the constructor's error; and the
  -- writer in the end.
  abbrev pub session :
      Action (R × W) StarterError H → R × W → Outcome StarterError (Outcome PacketError A × H) × W
  session new s = continued (new s).0 (new s).1

pub session-constructed :
    {R W H A : Type 0} (writer : H → W) (loop : Action H PacketError A)
    (new : Action (R × W) StarterError H) (s s' : R × W) (h : H)
    → new s ≡ (ok h, s')
    → (session writer loop new s).0 ≡ ok (loop h)
session-constructed writer loop new s s' h e = rw e refl

-- The two calls of each constructor, with what they write and read when the server accepts the
-- client; and that both handlers then hold the key `k`.
pub record IsConnected {t : Transport} (l : IsLawful t) {D C S K : Type 0} {hc : TcpHandler D C}
    {hs : TcpHandler D S} {Sealed : K → D → Bytes → Bytes → K → Type 0}
    (ic : IsHandler l hc K Sealed) (is : IsHandler l hs K Sealed)
    (client_new : Action (t.Reader × t.Writer) StarterError C)
    (server_new : Action (t.Reader × t.Writer) StarterError S) (k : K) : Type 1 where
  pub Key : Type 0
  pub Cipher : Type 0
  pub Opened : Type 0
  pub Accepted : Type 0
  pub key : Key
  pub cipher : Cipher
  pub opened : Opened
  pub accepted : Accepted
  pub opening : Bytes
  pub closing : Bytes
  pub client_init : Action t.Writer StarterError Key
  pub client_start : Outcome StarterError Key → Action t.Reader StarterError Cipher
  pub server_init : Action t.Reader StarterError Opened
  pub server_start : Outcome StarterError Opened → Action t.Writer StarterError Accepted
  pub client_made : t.Reader × t.Writer → Cipher → C
  pub server_made : t.Reader × t.Writer → Accepted → S
  pub client_ran :
      (r : t.Reader) (w : t.Writer)
      → client_new (r, w) ≡ (
          let last = client_init w in
          let done = client_start last.0 r in
          (map_ok (client_made (done.1, last.1)) done.0, (done.1, last.1)))
  pub server_ran :
      (r : t.Reader) (w : t.Writer)
      → server_new (r, w) ≡ (
          let last = server_init r in
          let done = server_start last.0 w in
          (map_ok (server_made (last.1, done.1)) done.0, (last.1, done.1)))
  pub Emits-client_init : Emits l opening (ok key) client_init
  pub Reads-server_init : Reads l opening (ok opened) server_init
  pub Emits-server_start : Emits l closing (ok accepted) (server_start (ok opened))
  pub Reads-client_start : Reads l closing (ok cipher) (client_start (ok key))
  pub client_writer : (s : t.Reader × t.Writer) (x : Cipher) → ic.writer (client_made s x) ≡ s.1
  pub client_reader : (s : t.Reader × t.Writer) (x : Cipher) → ic.reader (client_made s x) ≡ s.0
  pub client_ready : (s : t.Reader × t.Writer) → ic.Ready k (client_made s cipher)
  pub server_writer : (s : t.Reader × t.Writer) (z : Accepted) → is.writer (server_made s z) ≡ s.1
  pub server_reader : (s : t.Reader × t.Writer) (z : Accepted) → is.reader (server_made s z) ≡ s.0
  pub server_ready : (s : t.Reader × t.Writer) → is.Ready k (server_made s accepted)
