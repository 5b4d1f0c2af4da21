-- ===== src/Common/Channel/Fifo.antt =====
-- What a connection promises: two queues of messages, of which only one is in use at a time; and that
-- the ends of an encrypted connection are such a pair of queues.
use tcp_handler.Base.{◌≡◌, refl, sym, ap, ◌∙◌, List, [], ◌∷◌, ◌++◌, length, Outcome, ok}
use tcp_handler.Transport.{Bytes}
use tcp_handler.Crypto.{Crypto}
use tcp_handler.Common.Errors.{PacketError}
use tcp_handler.Common.Cipher.{Cipher}
use tcp_handler.Common.Channel.{
  Sealer, Side, Step, sends, receives, Reach, start, at_me, at_peer, logged,
}
use tcp_handler.Common.Channel.Flow.{Flow, turn, Chain-nil}
use tcp_handler.Common.Channel.Reached.{Flow-sends, Flow-receives, fresh}

-- An end: the messages that wait for it, those that it was given to send, and those that it got.
pub record Queue : Type 0 where
  pub waiting : List Bytes
  pub sent : List Bytes
  pub got : List Bytes

-- A message is put at the end of the other queue, where none waits here; or the first of those that
-- wait is got.
pub data FifoStep (me peer me' peer' : Queue) : Type 0 where
  puts :
      (m : Bytes)
      → me.waiting ≡ []
      → me' ≡ record me { sent = me.sent ++ m ∷ [] }
      → peer' ≡ record peer { waiting = peer.waiting ++ m ∷ [] }
      → FifoStep me peer me' peer'
  gets :
      (m : Bytes) (rest : List Bytes)
      → me.waiting ≡ m ∷ rest
      → me' ≡ record me { waiting = rest; got = me.got ++ m ∷ [] }
      → peer' ≡ peer
      → FifoStep me peer me' peer'

pub data FifoReach (me peer : Queue) : Queue → Queue → Type 0 where
  fifo_start : FifoReach me peer me peer
  fifo_at_me :
      {a b a' b' : Queue} → FifoReach me peer a b → FifoStep a b a' b' → FifoReach me peer a' b'
  fifo_at_peer :
      {a b a' b' : Queue} → FifoReach me peer a b → FifoStep b a b' a' → FifoReach me peer a' b'

abbrev pub unused : Queue
unused = record { waiting = []; sent = []; got = [] }

abbrev pub queue : {c : Crypto} → Side c → List Bytes → Queue
queue a waiting = record { waiting = waiting; sent = a.sent; got = a.got }

module _ {c : Crypto} (s : Sealer c) where
  -- The queues that two ends are: to the end that is ahead no message is on the way.
  pub data Views (a b : Side c) : Queue → Queue → Type 0 where
    ahead : (f : Flow s a b) → Views a b (queue a []) (queue b f.flying)
    behind : (f : Flow s b a) → Views a b (queue a f.flying) (queue b [])

  swap_Views : {a b : Side c} {x y : Queue} → Views a b x y → Views b a y x
  swap_Views (ahead f) = behind f
  swap_Views (behind f) = ahead f

  -- A step of an end, matched by one of its queue.
  pub record Matched (a' b' : Side c) (x y : Queue) : Type 0 where
    pub me' : Queue
    pub peer' : Queue
    pub step : FifoStep x y me' peer'
    pub views : Views a' b' me' peer'

  sends-Matched :
      {a b : Side c} (new_nonce m x : Bytes) (k : Cipher c) (f : Flow s a b)
      → length new_nonce ≡ 12
      → s.seal new_nonce m a.cipher ≡ (ok x, k)
      → Matched
          (record a { cipher = k; sent = a.sent ++ m ∷ [] })
          (record b { inbox = b.inbox ++ x ∷ [] })
          (queue a [])
          (queue b f.flying)
  unfolding Flow-sends
  sends-Matched {a} {b} new_nonce m x k f len e = record {
    me' = queue (record a { sent = a.sent ++ m ∷ [] }) [];
    peer' = queue b (f.flying ++ m ∷ []);
    step = puts m refl refl refl;
    views = ahead (Flow-sends s new_nonce m x k len e f);
  }

  sends_behind-Matched :
      {a b : Side c} (new_nonce m x : Bytes) (k : Cipher c) (f : Flow s b a)
      → length new_nonce ≡ 12
      → a.inbox ≡ []
      → s.seal new_nonce m a.cipher ≡ (ok x, k)
      → Matched
          (record a { cipher = k; sent = a.sent ++ m ∷ [] })
          (record b { inbox = b.inbox ++ x ∷ [] })
          (queue a f.flying)
          (queue b [])
  unfolding turn
  sends_behind-Matched {a} {b} new_nonce m x k f len idle e =
      let (none_flying, same) = Chain-nil s f.aes f.last f.flying f.next (rw idle at f.chain) in
      rw none_flying (sends-Matched new_nonce m x k (turn s b a f idle) len e)

  receives-Matched :
      {a b : Side c} (x : Bytes) (rest : List Bytes) (o : Outcome PacketError Bytes) (k : Cipher c)
      (ms : List Bytes) (f : Flow s b a)
      → a.inbox ≡ x ∷ rest
      → f.flying ≡ ms
      → s.unseal x a.cipher ≡ (o, k)
      → Matched
          (record a { cipher = k; inbox = rest; got = logged a.got o })
          b
          (queue a ms)
          (queue b [])
  unfolding Flow-receives
  receives-Matched x rest o k [] f e g u = absurd (rw (e, g) at f.chain)
  receives-Matched {a} {b} x rest o k (m ∷ ms) f e g u =
      let op = Flow-receives s {me = a} {peer = b} x rest (m ∷ ms) f e g in
      let same = sym u ∙ op.opens in
      rw (ap (λ p. p.0) same, ap (λ p. p.1) same)
        (record {
          me' = queue (record a { got = a.got ++ m ∷ [] }) ms;
          peer' = queue b [];
          step = gets m ms refl refl refl;
          views = behind op.flow;
        })

  no_cons : (y : Bytes) (ys : List Bytes) → y ∷ ys ≡ [] → ⊥
  no_cons y ys h = cc

  Step-Matched :
      {a b a' b' : Side c} {x y : Queue} → Step s a b a' b' → Views a b x y → Matched a' b' x y
  Step-Matched (sends new_nonce m x k len idle e ha hb) (ahead f) =
      rw (ha, hb) (sends-Matched new_nonce m x k f len e)
  Step-Matched (sends new_nonce m x k len idle e ha hb) (behind f) =
      rw (ha, hb) (sends_behind-Matched new_nonce m x k f len idle e)
  Step-Matched (receives x rest o k e u ha hb) (ahead f) =
      absurd (no_cons x rest (sym e ∙ f.ahead_inbox))
  Step-Matched (receives x rest o k e u ha hb) (behind f) =
      rw (ha, hb) (receives-Matched x rest o k f.flying f e refl u)

  -- Calls at two ends, with those of the queues that match them.
  pub record IsFifo (me peer : Queue) (a b : Side c) : Type 0 where
    pub mine : Queue
    pub theirs : Queue
    pub reached : FifoReach me peer mine theirs
    pub views : Views a b mine theirs

  Reach-IsFifo :
      {p q a b : Side c} (me peer : Queue)
      → Views p q me peer
      → Reach s p q a b
      → IsFifo me peer a b
  Reach-IsFifo me peer v start = record {
    mine = me;
    theirs = peer;
    reached = fifo_start;
    views = v;
  }
  Reach-IsFifo me peer v (at_me r st) =
      let before = Reach-IsFifo me peer v r in
      let now = Step-Matched st before.views in
      record {
        mine = now.me';
        theirs = now.peer';
        reached = fifo_at_me before.reached now.step;
        views = now.views;
      }
  Reach-IsFifo me peer v (at_peer r st) =
      let before = Reach-IsFifo me peer v r in
      let now = Step-Matched st (swap_Views before.views) in
      record {
        mine = now.peer';
        theirs = now.me';
        reached = fifo_at_peer before.reached now.step;
        views = swap_Views now.views;
      }

  fresh-Views : (q : c.Aes × Bytes) → Views (fresh s q) (fresh s q) unused unused
  fresh-Views (a, n) = ahead (record {
    aes = a;
    next = n;
    last = n;
    flying = [];
    ahead_cipher = refl;
    behind_cipher = refl;
    ahead_inbox = refl;
    chain = refl;
    behind_got = refl;
    ahead_got = refl;
  })

  pub fifo :
      (q : c.Aes × Bytes) {a b : Side c}
      → Reach s (fresh s q) (fresh s q) a b
      → IsFifo unused unused a b
  fifo q r = Reach-IsFifo unused unused (fresh-Views q) r
