-- ===== src/Common/KeyExchange/Agreement.antt =====
-- The whole handshake of the encrypting protocols, for any variant on either side.
use tcp_handler.Base.{◌≡◌, Bool, length, ok}
use tcp_handler.Transport.{Bytes, Str, Transport, IsLawful}
use tcp_handler.Transport.Carries.{Carries, Carries-Answers, Carries-Reads}
use tcp_handler.Crypto.{Crypto, IsCrypto}
use tcp_handler.Common.Variant.{ProtocolVariant}
use tcp_handler.Common.Decision.{decide, server_view, client_view}
use tcp_handler.Common.KeyExchange.{client_init, server_init, client_start, server_start}
use tcp_handler.Common.KeyExchange.Opening.{Emits-client_init, Answers-server_init, init_result}
use tcp_handler.Common.KeyExchange.Answer.{
  session, start_result, Emits-server_start, Reads-client_start,
}

module _ {t : Transport} (l : IsLawful t) {c : Crypto} (ic : IsCrypto c) (p q : ProtocolVariant)
    {seed : c.Seed} (k : c.PrivateKey) (generated : c.new_private seed 2048 ≡ ok k)
    (aes_key nonce : Bytes) {seed' : c.Seed} {x : Bytes}
    (encrypted : c.rsa_encrypt (ic.public k) seed' aes_key ≡ ok x) (key_len : length aes_key ≡ 32)
    (nonce_len : length nonce ≡ 12) (af : Bool) (i v j w : Str) (accepts : Str → Bool)
    {cw sw : t.Writer} {sr cr : t.Reader} (ch : l.Healthy cw) (sh : l.Healthy sw)
    (up : Carries l cw (client_init t c p af seed i v cw).1 sr)
    (down : Carries l sw
      (server_start t c q af aes_key nonce seed' j w (server_init t c q j accepts sr).0 sw).1
      cr) where
  decided :
      (server_init t c q j accepts sr).0
      ≡ server_view (init_result (ic.public k)) (decide p i v q j accepts)
  decided =
      Carries-Answers l (Emits-client_init l ic p generated af i v) ch up
        (Answers-server_init l ic p generated q i v j accepts)

  pub agreement :
      ((server_start t c q af aes_key nonce seed' j w (server_init t c q j accepts sr).0 sw).0
        ≡ server_view (start_result (session c aes_key nonce)) (decide p i v q j accepts))
      × ((client_start t c p (client_init t c p af seed i v cw).0 cr).0
          ≡ client_view q j w (session c aes_key nonce) (decide p i v q j accepts))
  agreement =
      let d = decide p i v q j accepts in
      let answer = Emits-server_start l ic q k aes_key nonce encrypted key_len nonce_len af j w d in
      (
        rw decided (answer.returns sw sh),
        rw ((Emits-client_init l ic p generated af i v).returns cw ch) (
            Carries-Reads l answer sh (rw decided at down)
              (Reads-client_start l ic q k aes_key nonce encrypted key_len nonce_len j w d)),
      )
