-- ===== src/Mismatch/Refused.antt =====
-- Both sides of two different protocols fail.
use tcp_handler.Base.{◌≡◌, ◌≢◌, Bool, ok, err}
use tcp_handler.Transport.{Bytes, Str, Transport, IsLawful}
use tcp_handler.Transport.Carries.{Carries, Carries-Answers, Carries-Reads}
use tcp_handler.Transport.Answers.{Answers-append}
use tcp_handler.Crypto.{Crypto, IsCrypto}
use tcp_handler.Common.Variant.{ProtocolVariant}
use tcp_handler.Common.Errors.{invalid_protocol}
use tcp_handler.Mismatch.{client_side, server_side}
use tcp_handler.Mismatch.Sides.{client_side-IsClient, server_side-IsServer}

module _ {t : Transport} (l : IsLawful t) {c : Crypto} (ic : IsCrypto c) {seed : c.Seed}
    (k : c.PrivateKey) (generated : c.new_private seed 2048 ≡ ok k) (aes_key nonce : Bytes)
    (seed' : c.Seed) (af : Bool) (i v j w : Str) (accepts : Str → Bool) (p q : ProtocolVariant)
    {cw sw : t.Writer} {sr cr : t.Reader} (ch : l.Healthy cw) (sh : l.Healthy sw) where
  -- Let a client of one protocol and a server of another one run their handshakes over two healthy
  -- writers, each reader getting what the other side's writer accepted; and let the client's key
  -- pair be generated. Then, for any two different ones of the four protocols and whatever the
  -- identifiers and versions, both sides fail with `InvalidProtocol`: the server's error names the
  -- client's protocol, and the client's error the server's.
  pub mismatch_refused :
      let client = client_side t c af seed i v p in
      let server = server_side t c af aes_key nonce seed' j w accepts q in
      p ≢ q
      → Carries l cw (client.init cw).1 sr
      → Carries l sw (server.start (server.init sr).0 sw).1 cr
      → ((server.start (server.init sr).0 sw).0 ≡ err (invalid_protocol p))
        × ((client.start (client.init cw).0 cr).0 ≡ err (invalid_protocol q))
  mismatch_refused ne up down =
      let client = client_side-IsClient l ic af k generated i v p in
      let server = server_side-IsServer l c af aes_key nonce seed' j w accepts q in
      let got = Carries-Answers l client.opens ch up (Answers-append l _ (server.fails p i v ne)) in
      (
        rw got ((server.answers p).returns sw sh),
        rw (client.opens.returns cw ch)
            (Carries-Reads l (server.answers p) sh (rw got at down) (client.fails q j w)),
      )
