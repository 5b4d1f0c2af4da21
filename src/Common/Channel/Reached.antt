-- ===== src/Common/Channel/Reached.antt =====
-- Any calls at either end, from one nonce, and what the invariant says of the messages.
use tcp_handler.Base.{
  ◌≡◌, refl, sym, ap, ◌∙◌, ◌⊎◌, inl, inr, List, [], ◌∷◌, ◌++◌, append_assoc, append-nil, length, ok,
}
use tcp_handler.Transport.{Bytes}
use tcp_handler.Crypto.{Crypto}
use tcp_handler.Common.Cipher.{Cipher}
use tcp_handler.Common.Channel.{
  holding, Sealer, Side, Step, sends, receives, Reach, start, at_me, at_peer,
}
use tcp_handler.Common.Channel.Flow.{Chain-append, Chain-length, Flow, turn}

module _ {c : Crypto} (s : Sealer c) where
  unfoldable pub Flow-sends :
      {me peer : Side c} (new_nonce m x : Bytes) (k : Cipher c)
      → length new_nonce ≡ 12
      → s.seal new_nonce m me.cipher ≡ (ok x, k)
      → Flow s me peer
      → Flow s
          (record me { cipher = k; sent = me.sent ++ m ∷ [] })
          (record peer { inbox = peer.inbox ++ x ∷ [] })
  Flow-sends {me} {peer} new_nonce m x k len e f =
      let (kept, opens) = s.unseal-seal f.aes f.next new_nonce m x k len (rw f.ahead_cipher at e) in
      record {
        aes = f.aes;
        next = new_nonce;
        last = f.last;
        flying = f.flying ++ m ∷ [];
        ahead_cipher = kept;
        behind_cipher = f.behind_cipher;
        ahead_inbox = f.ahead_inbox;
        chain = Chain-append s f.aes f.last peer.inbox f.flying f.next x m new_nonce f.chain opens;
        behind_got =
            sym (append_assoc peer.got f.flying (m ∷ []))
            ∙ ap (λ (l : List Bytes). l ++ m ∷ []) f.behind_got;
        ahead_got = f.ahead_got;
      }

  -- What the end that is behind receives next.
  pub record Opens (x : Bytes) (rest : List Bytes) (ahead behind : Side c) : Type 0 where
    pub message : Bytes
    pub key : Cipher c
    pub opens : s.unseal x behind.cipher ≡ (ok message, key)
    pub flow :
        Flow s ahead
          (record behind { cipher = key; inbox = rest; got = behind.got ++ message ∷ [] })

  unfoldable pub Flow-receives :
      {me peer : Side c} (x : Bytes) (rest : List Bytes) (ms : List Bytes) (f : Flow s peer me)
      → me.inbox ≡ x ∷ rest
      → f.flying ≡ ms
      → Opens x rest peer me
  Flow-receives x rest [] f e g = absurd (rw (e, g) at f.chain)
  Flow-receives {me} x rest (m ∷ ms) f e g =
      let (n, u, h) = (rw (e, g) at f.chain) in
      record {
        message = m;
        key = holding (f.aes, n);
        opens = rw f.behind_cipher u;
        flow = record {
          aes = f.aes;
          next = f.next;
          last = n;
          flying = ms;
          ahead_cipher = f.ahead_cipher;
          behind_cipher = refl;
          ahead_inbox = f.ahead_inbox;
          chain = h;
          behind_got = append_assoc me.got (m ∷ []) ms ∙ rw g at f.behind_got;
          ahead_got = f.ahead_got;
        };
      }

  abbrev pub Linked : Side c → Side c → Type 0
  Linked me peer = Flow s me peer ⊎ Flow s peer me

  pub swap_ends : {me peer : Side c} → Linked me peer → Linked peer me
  swap_ends (inl f) = inr f
  swap_ends (inr f) = inl f

  send-Linked :
      {me peer : Side c} (new_nonce m x : Bytes) (k : Cipher c)
      → length new_nonce ≡ 12
      → me.inbox ≡ []
      → s.seal new_nonce m me.cipher ≡ (ok x, k)
      → Linked me peer
      → Linked
          (record me { cipher = k; sent = me.sent ++ m ∷ [] })
          (record peer { inbox = peer.inbox ++ x ∷ [] })
  send-Linked new_nonce m x k len idle e (inl f) = inl (Flow-sends new_nonce m x k len e f)
  send-Linked {me} {peer} new_nonce m x k len idle e (inr f) =
      inl (Flow-sends new_nonce m x k len e (turn s peer me f idle))

  -- Where something is on the way to an end, that end opens it.
  pub Linked-Opens :
      {me peer : Side c} (x : Bytes) (rest : List Bytes)
      → me.inbox ≡ x ∷ rest
      → Linked me peer
      → Opens x rest peer me
  Linked-Opens x rest e (inl f) = absurd (no_cons x rest (sym e ∙ f.ahead_inbox))
    where
      no_cons : (y : Bytes) (ys : List Bytes) → y ∷ ys ≡ [] → ⊥
      no_cons y ys h = cc
  Linked-Opens x rest e (inr f) = Flow-receives x rest f.flying f e refl

  Step-Linked :
      {me peer me' peer' : Side c} → Step s me peer me' peer' → Linked me peer → Linked me' peer'
  Step-Linked (sends new_nonce m x k len idle e hm hp) h =
      rw (hm, hp) (send-Linked new_nonce m x k len idle e h)
  Step-Linked {me} {peer} (receives x rest o k e u hm hp) h =
      let op = Linked-Opens {me = me} {peer = peer} x rest e h in
      let same = sym u ∙ op.opens in
      rw (hm, hp, ap (λ p. p.0) same, ap (λ p. p.1) same) (inr op.flow)

  pub Reach-Linked : {me peer a b : Side c} → Linked me peer → Reach s me peer a b → Linked a b
  Reach-Linked h start = h
  Reach-Linked h (at_me r st) = Step-Linked st (Reach-Linked h r)
  Reach-Linked h (at_peer r st) = swap_ends (Step-Linked st (swap_ends (Reach-Linked h r)))

  -- An end after the handshake.
  abbrev pub fresh : c.Aes × Bytes → Side c
  fresh q = record { cipher = holding q; inbox = []; sent = []; got = [] }

  pub fresh-Linked : (q : c.Aes × Bytes) → Linked (fresh q) (fresh q)
  fresh-Linked (a, n) = inl (record {
    aes = a;
    next = n;
    last = n;
    flying = [];
    ahead_cipher = refl;
    behind_cipher = refl;
    ahead_inbox = refl;
    chain = refl;
    behind_got = refl;
    ahead_got = refl;
  })

  -- `a` got the first of the messages that `b` sent; the rest is on the way to it.
  pub record InOrder (a b : Side c) : Type 0 where
    pub missing : List Bytes
    pub first : a.got ++ missing ≡ b.sent
    pub on_the_way : length missing ≡ length a.inbox

  Linked-InOrder : (a b : Side c) → Linked a b → InOrder a b
  Linked-InOrder a b (inl f) = record {
    missing = [];
    first = append-nil _ ∙ f.ahead_got;
    on_the_way = rw f.ahead_inbox refl;
  }
  Linked-InOrder a b (inr f) = record {
    missing = f.flying;
    first = f.behind_got;
    on_the_way = Chain-length s f.aes f.last a.inbox f.flying f.next f.chain;
  }

  pub in_order :
      (q : c.Aes × Bytes) {a b : Side c}
      → Reach s (fresh q) (fresh q) a b
      → InOrder a b × InOrder b a
  in_order q {a} {b} r =
      let h = Reach-Linked (fresh-Linked q) r in
      (Linked-InOrder a b h, Linked-InOrder b a (swap_ends h))
