-- ===== src/Common/Channel/Drained.antt =====
-- Both ends receive until nothing is on the way any more.
use tcp_handler.Base.{◌≡◌, refl, sym, ◌∙◌, inl, inr, List, [], ◌∷◌, append-nil}
use tcp_handler.Transport.{Bytes}
use tcp_handler.Crypto.{Crypto}
use tcp_handler.Common.Channel.{Sealer, Side, logged, receives, Reach, at_me, at_peer}
use tcp_handler.Common.Channel.Flow.{Flow, Chain-nil}
use tcp_handler.Common.Channel.Reached.{fresh, fresh-Linked, Linked, Reach-Linked}

module _ {c : Crypto} (s : Sealer c) where
  -- One call of `recv`.
  abbrev receive : Bytes → List Bytes → Side c → Side c
  receive x rest me = record me {
    cipher = (s.unseal x me.cipher).1;
    inbox = rest;
    got = logged me.got (s.unseal x me.cipher).0;
  }

  -- The calls for the given packets, whatever they return.
  abbrev receive_all : List Bytes → Side c → Side c
  receive_all [] me = me
  receive_all (x ∷ rest) me = receive_all rest (receive x rest me)

  abbrev pub drained : Side c → Side c
  drained me = receive_all me.inbox me

  receive_all-at_me :
      {me peer b : Side c} (xs : List Bytes) {a : Side c}
      → a.inbox ≡ xs
      → Reach s me peer a b
      → Reach s me peer (receive_all xs a) b
  receive_all-at_me [] h r = r
  receive_all-at_me (x ∷ rest) h r =
      receive_all-at_me rest refl (at_me r (receives x rest _ _ h refl refl refl))

  receive_all-at_peer :
      {me peer a : Side c} (xs : List Bytes) {b : Side c}
      → b.inbox ≡ xs
      → Reach s me peer a b
      → Reach s me peer a (receive_all xs b)
  receive_all-at_peer [] h r = r
  receive_all-at_peer (x ∷ rest) h r =
      receive_all-at_peer rest refl (at_peer r (receives x rest _ _ h refl refl refl))

  receive_all-inbox : (xs : List Bytes) (a : Side c) → a.inbox ≡ xs → (receive_all xs a).inbox ≡ []
  receive_all-inbox [] a h = h
  receive_all-inbox (x ∷ rest) a h = receive_all-inbox rest (receive x rest a) refl

  receive_all-sent : (xs : List Bytes) (a : Side c) → (receive_all xs a).sent ≡ a.sent
  receive_all-sent [] a = refl
  receive_all-sent (x ∷ rest) a = receive_all-sent rest (receive x rest a)

  -- Where nothing is on the way, all that was sent was got, and the ends agree.
  pub record Settled (a b : Side c) : Type 0 where
    pub all_at_me : a.got ≡ b.sent
    pub all_at_peer : b.got ≡ a.sent
    pub same_cipher : a.cipher ≡ b.cipher

  Flow-Settled : {a b : Side c} → b.inbox ≡ [] → Flow s a b → Settled a b
  Flow-Settled {a} {b} h f =
      let (none_flying, same) = Chain-nil s f.aes f.last f.flying f.next (rw h at f.chain) in
      record {
        all_at_me = f.ahead_got;
        all_at_peer = sym (append-nil b.got) ∙ rw none_flying at f.behind_got;
        same_cipher = f.ahead_cipher ∙ rw (← same) (sym f.behind_cipher);
      }

  Linked-Settled : {a b : Side c} → a.inbox ≡ [] → b.inbox ≡ [] → Linked s a b → Settled a b
  Linked-Settled ha hb (inl f) = Flow-Settled hb f
  Linked-Settled ha hb (inr f) =
      let done = Flow-Settled ha f in
      record {
        all_at_me = done.all_at_peer;
        all_at_peer = done.all_at_me;
        same_cipher = sym done.same_cipher;
      }

  -- The ends after those calls, from `a` and `b`.
  pub record Drains (me peer a b : Side c) : Type 0 where
    pub reached : Reach s me peer (drained a) (drained b)
    pub settled : Settled (drained a) (drained b)
    pub sent_at_me : (drained a).sent ≡ a.sent
    pub sent_at_peer : (drained b).sent ≡ b.sent

  pub drains :
      (q : c.Aes × Bytes) {a b : Side c}
      → Reach s (fresh s q) (fresh s q) a b
      → Drains (fresh s q) (fresh s q) a b
  drains q {a} {b} r =
      let all = receive_all-at_peer b.inbox refl (receive_all-at_me a.inbox refl r) in
      record {
        reached = all;
        settled =
            Linked-Settled (receive_all-inbox a.inbox a refl) (receive_all-inbox b.inbox b refl)
              (Reach-Linked s (fresh-Linked s q) all);
        sent_at_me = receive_all-sent a.inbox a;
        sent_at_peer = receive_all-sent b.inbox b;
      }
