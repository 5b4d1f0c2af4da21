-- ===== src/Common/KeyExchange/Opening.antt =====
-- The client's head and public key, and what the server makes of them.
use tcp_handler.Base.{ℕ, ◌≡◌, ◌++◌, Bool, true, inl, inr, ok}
use tcp_handler.Transport.{Bytes, Str, u8_vec, Transport, IsLawful}
use tcp_handler.Transport.Emits.{Emits, Emits-bind, Emits-step, Emits-write, Emits-lift}
use tcp_handler.Transport.Reads.{
  Reads, Reads-bind, Reads-step, Reads-end, Reads-read, Reads-lift, Reads-pure,
}
use tcp_handler.Transport.Answers.{Answers, Answers-append, Answers-bind_err, Reads-Answers}
use tcp_handler.Crypto.{Crypto, IsCrypto}
use tcp_handler.Common.Variant.{ProtocolVariant}
use tcp_handler.Common.Errors.{StarterError}
use tcp_handler.Common.Keys.{generate_rsa_private, compose_rsa_public}
use tcp_handler.Common.Decision.{decide, decide_cases, server_view, server_view-refused}
use tcp_handler.Common.Head.Wire.{head_bytes, head_result, Emits-write_head, Answers-read_head}
use tcp_handler.Common.Head.Accepted.{Reads-read_head}
use tcp_handler.Common.Exchange.{Emits-then_flush}
use tcp_handler.Common.KeyExchange.{client_init, server_init}

-- What `server_init` returns for a version and a key.
abbrev pub init_result : {K : Type 0} → K → Str → (ℕ × Str) × K
init_result key v = (head_result v, key)

module _ {t : Transport} (l : IsLawful t) {c : Crypto} (ic : IsCrypto c) (p : ProtocolVariant)
    {seed : c.Seed} {k : c.PrivateKey} (generated : c.new_private seed 2048 ≡ ok k) where
  open l use {encode}

  abbrev pub opening_bytes : Str → Str → Bytes
  opening_bytes i v =
      head_bytes l p i v
      ++ (encode u8_vec (c.to_bytes_le (c.n k)) ++ encode u8_vec (c.to_bytes_le (c.e k)))

  generate : generate_rsa_private c seed ≡ ok (k, c.to_bytes_le (c.n k), c.to_bytes_le (c.e k))
  unfolding generate_rsa_private
  generate = rw generated

  compose : compose_rsa_public c (c.to_bytes_le (c.n k)) (c.to_bytes_le (c.e k)) ≡ ok (ic.public k)
  unfolding compose_rsa_public
  compose =
      rw (ic.bytes_le (c.n k), ic.bytes_le (c.e k), ic.new_public-public seed 2048 k generated)

  pub Emits-client_init :
      (af : Bool) (i v : Str) → Emits l (opening_bytes i v) (ok k) (client_init t c p af seed i v)
  Emits-client_init af i v = rw generate (
      Emits-bind l _ _ (Emits-lift l (ok _)) (
        Emits-bind l _ _ (Emits-write_head l p i v) (
          Emits-step l u8_vec _ _ _ tt
            (Emits-then_flush l StarterError.io af _ (λ _. k) (Emits-write l _ u8_vec _ tt)))))

  pub init_accepted :
      (i v : Str) (accepts : Str → Bool)
      → accepts v ≡ true
      → Reads l (opening_bytes i v) (ok (init_result (ic.public k) v)) (server_init t c p i accepts)
  init_accepted i v accepts h = Reads-bind l _ _ (Reads-read_head l p i v accepts h) (
      Reads-step l u8_vec (c.to_bytes_le (c.n k)) _ _ tt (
        Reads-end l _ _ (Reads-read l _ u8_vec (c.to_bytes_le (c.e k)) tt)
          (rw compose (Reads-bind l _ _ (Reads-lift l (ok _)) (Reads-pure l _)))))

  -- The server's result, on the opening of a client of this protocol.
  pub Answers-server_init :
      (q : ProtocolVariant) (i v j : Str) (accepts : Str → Bool)
      → Answers l
          (opening_bytes i v)
          (server_view (init_result (ic.public k)) (decide p i v q j accepts))
          (server_init t c q j accepts)
  Answers-server_init q i v j accepts = elim (decide_cases p i v q j accepts) [
    | inl (d, same_p, same_i, ac) ↦
        rw d (rw (← same_p, ← same_i) (Reads-Answers l (init_accepted i v accepts ac)))
    | inr (e, refused) ↦ rw (server_view-refused (init_result (ic.public k)) _ e refused) (
        Answers-append l _ (
          Answers-bind_err l _ _ (
            rw (server_view-refused head_result _ e refused) at
              (Answers-read_head l p q i v j accepts))))
  ]
