-- ===== src/Mismatch/Sides.antt =====
-- What each side does when the other one speaks another protocol.
use tcp_handler.Base.{ℕ, false, Bool-cases, inl, inr, ◌≡◌, ◌≢◌, ◌++◌, [], append-nil, Bool, ok, err}
use tcp_handler.Transport.{Bytes, Str, Transport, IsLawful}
use tcp_handler.Transport.Emits.{Emits, Emits-bind_err}
use tcp_handler.Transport.Reads.{Reads, Reads-bind_err}
use tcp_handler.Transport.Answers.{Answers, Answers-bind_err}
use tcp_handler.Crypto.{Crypto, IsCrypto}
use tcp_handler.Common.Variant.{
  ProtocolVariant, raw, compression, encryption, compress_encryption, variant_eq, variant_eq_iff,
}
use tcp_handler.Common.Errors.{StarterError, invalid_protocol}
use tcp_handler.Common.Decision.{Decision}
use tcp_handler.Common.Head.{read_head}
use tcp_handler.Common.Head.Wire.{head_bytes, head_result, Emits-write_head, Answers-read_head}
use tcp_handler.Common.Last.Wire.{answer_bytes, Emits-write_last, Reads-read_last}
use tcp_handler.Common.Exchange.{Emits-then_flush, Emits-answer}
use tcp_handler.Common.Exchange.Agreement
use tcp_handler.Common.Last.{read_last}
use tcp_handler.Common.KeyExchange
use tcp_handler.Common.KeyExchange.Opening.{Emits-client_init}
use tcp_handler.Raw
use tcp_handler.Compress
use tcp_handler.Encrypt
use tcp_handler.CompressEncrypt
use tcp_handler.Mismatch.{ClientSide, ServerSide, client_side, server_side, client_of, server_of}

abbrev protocol_refused : ProtocolVariant → Decision Str
protocol_refused p = Decision.protocol p

-- The answer of a server of `q` to a client of `p`.
abbrev pub refusal_bytes :
    {t : Transport} → IsLawful t → ProtocolVariant → Str → Str → ProtocolVariant → Bytes
refusal_bytes l q j w p = answer_bytes l q j w (protocol_refused p)

module _ {t : Transport} (l : IsLawful t) where
  -- A client that opens with its head, and that fails on the answer of another protocol.
  pub record IsClient (p : ProtocolVariant) (i v : Str) (s : ClientSide t) : Type 0 where
    pub key : s.Key
    pub extra : Bytes
    pub opens : Emits l (head_bytes l p i v ++ extra) (ok key) s.init
    pub fails :
        (q : ProtocolVariant) (j w : Str)
        → Reads l (refusal_bytes l q j w p) (err (invalid_protocol q)) (s.start (ok key))

  -- A server that fails on the head of another protocol, and answers with its own one.
  pub record IsServer (q : ProtocolVariant) (j w : Str) (s : ServerSide t) : Type 0 where
    pub fails :
        (p : ProtocolVariant) (i v : Str)
        → p ≢ q
        → Answers l (head_bytes l p i v) (err (invalid_protocol p)) s.init
    pub answers :
        (p : ProtocolVariant)
        → Emits l
            (refusal_bytes l q j w p)
            (err (invalid_protocol p))
            (s.start (err (invalid_protocol p)))

  variant_eq-ne : (p q : ProtocolVariant) → p ≢ q → variant_eq p q ≡ false
  variant_eq-ne p q ne = elim (Bool-cases (variant_eq p q)) [
    | inl same ↦ absurd (ne ((variant_eq_iff p q).0 same))
    | inr other ↦ other
  ]

  read_other :
      (p q : ProtocolVariant) (i v j : Str) (accepts : Str → Bool)
      → p ≢ q
      → Answers l (head_bytes l p i v) (err (invalid_protocol p)) (read_head t q j accepts)
  read_other p q i v j accepts ne =
      rw (variant_eq-ne p q ne) at (Answers-read_head l p q i v j accepts)

  plain-IsClient :
      (p : ProtocolVariant) (af : Bool) (i v : Str)
      → IsClient p i v (client_of {t = t} (Agreement.client_init t p af i v) (read_last t))
  plain-IsClient p af i v = record {
    key = tt;
    extra = [];
    opens =
        rw (append-nil (head_bytes l p i v))
          (Emits-then_flush l StarterError.io af _ (λ _. tt) (Emits-write_head l p i v));
    fails = λ q j w. Reads-read_last l {A = Str} q j w tt (Decision.protocol p);
  }

  plain-IsServer :
      (q : ProtocolVariant) (af : Bool) (j w : Str) (accepts : Str → Bool)
      → IsServer q j w
          (server_of {t = t} (read_head t q j accepts) (Agreement.server_start t q af j w))
  plain-IsServer q af j w accepts = record {
    fails = λ p i v ne. read_other p q i v j accepts ne;
    answers = λ p. Emits-answer l q j w af head_result (Decision.protocol p);
  }

  module _ {c : Crypto} (ic : IsCrypto c) where
    key-IsClient :
        (p : ProtocolVariant) {seed : c.Seed} (k : c.PrivateKey)
        → c.new_private seed 2048 ≡ ok k
        → (af : Bool) (i v : Str)
        → IsClient p i v (
            client_of {t = t}
              (KeyExchange.client_init t c p af seed i v)
              (KeyExchange.client_start t c p))
    key-IsClient p k generated af i v = record {
      key = k;
      extra = _;
      opens = Emits-client_init l ic p generated af i v;
      fails =
          λ q j w. Reads-bind_err l _ _ (Reads-read_last l {A = Str} q j w k (Decision.protocol p));
    }

  module _ (c : Crypto) where
    key-IsServer :
        (q : ProtocolVariant) (af : Bool) (aes_key nonce : Bytes) (seed : c.Seed) (j w : Str)
        (accepts : Str → Bool)
        → IsServer q j w (
            server_of {t = t}
              (KeyExchange.server_init t c q j accepts)
              (KeyExchange.server_start t c q af aes_key nonce seed j w))
    key-IsServer q af aes_key nonce seed j w accepts = record {
      fails = λ p i v ne. Answers-bind_err l _ _ (read_other p q i v j accepts ne);
      answers = λ p.
          Emits-bind_err l _ _
            (Emits-write_last l q j w (λ (v : (ℕ × Str) × c.PublicKey). v) (Decision.protocol p));
    }

  module _ {c : Crypto} (ic : IsCrypto c) (af : Bool) where
    pub client_side-IsClient :
        {seed : c.Seed} (k : c.PrivateKey)
        → c.new_private seed 2048 ≡ ok k
        → (i v : Str) (p : ProtocolVariant) → IsClient p i v (client_side t c af seed i v p)
    unfolding client_side Raw.client_init Raw.client_start Compress.client_init
        Compress.client_start Encrypt.client_init Encrypt.client_start CompressEncrypt.client_init
        CompressEncrypt.client_start
    client_side-IsClient k generated i v raw = plain-IsClient raw af i v
    client_side-IsClient k generated i v compression = plain-IsClient compression af i v
    client_side-IsClient k generated i v encryption = key-IsClient ic encryption k generated af i v
    client_side-IsClient k generated i v compress_encryption =
        key-IsClient ic compress_encryption k generated af i v

  module _ (c : Crypto) (af : Bool) where
    pub server_side-IsServer :
        (aes_key nonce : Bytes) (seed : c.Seed) (j w : Str) (accepts : Str → Bool)
        (q : ProtocolVariant)
        → IsServer q j w (server_side t c af aes_key nonce seed j w accepts q)
    unfolding server_side Raw.server_init Raw.server_start Compress.server_init
        Compress.server_start Encrypt.server_init Encrypt.server_start CompressEncrypt.server_init
        CompressEncrypt.server_start
    server_side-IsServer aes_key nonce seed j w accepts raw = plain-IsServer raw af j w accepts
    server_side-IsServer aes_key nonce seed j w accepts compression =
        plain-IsServer compression af j w accepts
    server_side-IsServer aes_key nonce seed j w accepts encryption =
        key-IsServer c encryption af aes_key nonce seed j w accepts
    server_side-IsServer aes_key nonce seed j w accepts compress_encryption =
        key-IsServer c compress_encryption af aes_key nonce seed j w accepts
