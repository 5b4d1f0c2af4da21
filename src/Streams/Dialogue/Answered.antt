-- ===== src/Streams/Dialogue/Answered.antt =====
-- Every request is replied to, and both handlers agree at the end.
use tcp_handler.Base.{◌≡◌, refl, sym, ap, ◌∙◌, ◌++◌, List, [], ◌∷◌, append_assoc, ok, ◌>>=◌}
use mathlib.Core.List.{append_cancel_left, map}
use tcp_handler.Transport.{Bytes, Transport, IsLawful}
use tcp_handler.Transport.Carries.{Carries}
use tcp_handler.Streams.{TcpHandler, handler_send_recv}
use tcp_handler.Streams.Calls.{map_ok, resume-then_pure}
use tcp_handler.Streams.Dialogue.{request_all, serve_all, IsHandler}
use tcp_handler.Streams.Dialogue.Grows.{Grown, after_send-Grown, serve_all-Grown}

-- The first round of each loop, where its calls succeed.
module _ {D H : Type 0} (h : TcpHandler D H) where
  request_step :
      (d : D) (m r : Bytes) (rs : List (D × Bytes)) (s : H)
      → (h.handler_send d m s).0 ≡ ok tt
      → (h.handler_recv (h.handler_send d m s).1).0 ≡ ok r
      → request_all h ((d, m) ∷ rs) s ≡ (
          let s' = (h.handler_recv (h.handler_send d m s).1).1 in
          (map_ok (◌∷◌ r) (request_all h rs s').0, (request_all h rs s').1))
  unfolding request_all handler_send_recv ◌>>=◌
  request_step d m r rs s e e' = rw (e, e') (resume-then_pure (◌∷◌ r) _ _)

  serve_step :
      (answer : Bytes → Bytes) (d : D) (m : Bytes) (ds : List D) (s : H)
      → (h.handler_recv s).0 ≡ ok m
      → (h.handler_send d (answer m) (h.handler_recv s).1).0 ≡ ok tt
      → serve_all h answer (d ∷ ds) s ≡ (
          let s' = (h.handler_send d (answer m) (h.handler_recv s).1).1 in
          (map_ok (◌∷◌ m) (serve_all h answer ds s').0, (serve_all h answer ds s').1))
  unfolding serve_all ◌>>=◌
  serve_step answer d m ds s e e' = rw (e, e') (resume-then_pure (◌∷◌ m) _ _)

-- Requests and their replies, sealed from key to key.
module _ {D : Type 0} {K : Type 0} (Sealed : K → D → Bytes → Bytes → K → Type 0)
    (answer : Bytes → Bytes) where
  pub data Rounds : K → List (D × Bytes) → List D → K → Type 0 where
    no_rounds : {k : K} → Rounds k [] [] k
    round :
        {k k₁ k₂ k' : K} {d₁ d₂ : D} {m x y : Bytes} {rs : List (D × Bytes)} {ds : List D}
        → Sealed k d₁ m x k₁
        → Sealed k₁ d₂ (answer m) y k₂
        → Rounds k₂ rs ds k'
        → Rounds k ((d₁, m) ∷ rs) (d₂ ∷ ds) k'

module _ {t : Transport} (l : IsLawful t) where
  -- What is left to carry after the first `x`.
  pub rest_carried :
      (w w₁ w' : t.Writer) (r : t.Reader) (x : Bytes) (c : Carries l w w' r) (g : Grown l w₁ w')
      → l.accepted w₁ ≡ l.accepted w ++ x
      → l.pending r ≡ x ++ (g.0 ++ c.rest)
  rest_carried w w₁ w' r x c (p, e) e₁ =
      c.gets
      ∙ ap (λ (y : Bytes). y ++ c.rest)
          (append_cancel_left (l.accepted w) c.sent (x ++ p)
            (sym c.wrote ∙ e ∙ ap (λ (y : Bytes). y ++ p) e₁ ∙ append_assoc (l.accepted w) x p))
      ∙ append_assoc x p c.rest

module _ {t : Transport} (l : IsLawful t) {D C S K : Type 0} {hc : TcpHandler D C}
    {hs : TcpHandler D S} {Sealed : K → D → Bytes → Bytes → K → Type 0}
    (ic : IsHandler l hc K Sealed) (is : IsHandler l hs K Sealed) (answer : Bytes → Bytes) where
  -- Both handlers hold the key `k`, their writers are healthy, and each reader gets what the other
  -- one's writer accepts during the loops.
  pub record Joined (k : K) (rs : List (D × Bytes)) (ds : List D) (c : C) (s : S) : Type 0 where
    pub client_ready : ic.Ready k c
    pub server_ready : is.Ready k s
    pub client_ok : l.Healthy (ic.writer c)
    pub server_ok : l.Healthy (is.writer s)
    pub up : Carries l (ic.writer c) (ic.writer (request_all hc rs c).1) (is.reader s)
    pub down : Carries l (is.writer s) (is.writer (serve_all hs answer ds s).1) (ic.reader c)

  module _ {k k₁ k₂ : K} {d₁ d₂ : D} {m x y : Bytes} (rs : List (D × Bytes)) (ds : List D) (c : C)
      (s : S) (request : Sealed k d₁ m x k₁) (reply : Sealed k₁ d₂ (answer m) y k₂)
      (j : Joined k ((d₁, m) ∷ rs) (d₂ ∷ ds) c s) where
    abbrev c₁ : C
    c₁ = (hc.handler_send d₁ m c).1

    abbrev s₁ : S
    s₁ = (hs.handler_recv s).1

    abbrev c₂ : C
    c₂ = (hc.handler_recv c₁).1

    abbrev s₂ : S
    s₂ = (hs.handler_send d₂ (answer m) s₁).1

    -- The request is sent and got, and the reply is sent.
    record Asked : Type 0 where
      sent : (hc.handler_send d₁ m c).0 ≡ ok tt
      client_ready : ic.Ready k₁ c₁
      client_ok : l.Healthy (ic.writer c₁)
      left : Bytes
      wrote :
          l.accepted (ic.writer (request_all hc ((d₁, m) ∷ rs) c).1)
          ≡ l.accepted (ic.writer c₁) ++ left
      unread : l.pending (is.reader s₂) ≡ left ++ j.up.rest
      turn :
          serve_all hs answer (d₂ ∷ ds) s
          ≡ (map_ok (◌∷◌ m) (serve_all hs answer ds s₂).0, (serve_all hs answer ds s₂).1)
      server_ready : is.Ready k₂ s₂
      server_ok : l.Healthy (is.writer s₂)
      replied : l.accepted (is.writer s₂) ≡ l.accepted (is.writer s) ++ y

    asked : Asked
    asked =
        let (sent, ready, healthy, wrote) = ic.sends request j.client_ready j.client_ok in
        let g = after_send-Grown l ic d₁ m rs c sent in
        let (got, ready', unread) =
          is.receives (g.0 ++ j.up.rest) request j.server_ready
            (rest_carried l _ (ic.writer c₁) _ _ x j.up g wrote) in
        let (replied, ready'', healthy', wrote') =
          is.sends reply ready' (rw (is.recv_keeps s) j.server_ok) in
        record {
          sent = sent;
          client_ready = ready;
          client_ok = healthy;
          left = g.0;
          wrote = g.1;
          unread = rw (is.send_keeps d₂ (answer m) s₁) unread;
          turn = serve_step hs answer d₂ m ds s got replied;
          server_ready = ready'';
          server_ok = healthy';
          replied = rw (is.recv_keeps s) at wrote';
        }

    -- The reply is got: after this round the rest of the loops is joined.
    record Replied : Type 0 where
      turn :
          request_all hc ((d₁, m) ∷ rs) c
          ≡ (map_ok (◌∷◌ (answer m)) (request_all hc rs c₂).0, (request_all hc rs c₂).1)
      served :
          serve_all hs answer (d₂ ∷ ds) s
          ≡ (map_ok (◌∷◌ m) (serve_all hs answer ds s₂).0, (serve_all hs answer ds s₂).1)
      joined : Joined k₂ rs ds c₂ s₂

    replied : Replied
    replied =
        let a = asked in
        let g = serve_all-Grown l is answer ds s₂ in
        let down = rw a.turn at j.down in
        let (got, ready, unread) =
          ic.receives (g.0 ++ down.rest) reply a.client_ready
            (rw (ic.send_keeps d₁ m c) (rest_carried l _ (is.writer s₂) _ _ y down g a.replied)) in
        let turn = request_step hc d₁ m (answer m) rs c a.sent got in
        record {
          turn = turn;
          served = a.turn;
          joined = record {
            client_ready = ready;
            server_ready = a.server_ready;
            client_ok = rw (ic.recv_keeps c₁) a.client_ok;
            server_ok = a.server_ok;
            up = record {
              sent = a.left;
              rest = j.up.rest;
              wrote = rw (ic.recv_keeps c₁) (rw turn at a.wrote);
              gets = a.unread;
            };
            down = record { sent = g.0; rest = down.rest; wrote = g.1; gets = unread };
          };
        }

  pub record Completed (k' : K) (rs : List (D × Bytes)) (ds : List D) (c : C) (s : S) : Type 0 where
    pub replies : (request_all hc rs c).0 ≡ ok (map (λ r. answer r.1) rs)
    pub requests : (serve_all hs answer ds s).0 ≡ ok (map (λ r. r.1) rs)
    pub client_ready : ic.Ready k' (request_all hc rs c).1
    pub server_ready : is.Ready k' (serve_all hs answer ds s).1

  pub completed :
      {k k' : K} {rs : List (D × Bytes)} {ds : List D} (c : C) (s : S)
      → Rounds Sealed answer k rs ds k'
      → Joined k rs ds c s
      → Completed k' rs ds c s
  unfolding request_all serve_all
  completed c s no_rounds j = record {
    replies = refl;
    requests = refl;
    client_ready = j.client_ready;
    server_ready = j.server_ready;
  }
  completed c s (round {m = m} {rs = rs} {ds = ds} request reply more) j =
      let r = replied rs ds c s request reply j in
      let rest = completed _ _ more r.joined in
      record {
        replies = ap (λ p. p.0) r.turn ∙ ap (map_ok (◌∷◌ (answer m))) rest.replies;
        requests = ap (λ p. p.0) r.served ∙ ap (map_ok (◌∷◌ m)) rest.requests;
        client_ready = rw r.turn rest.client_ready;
        server_ready = rw r.served rest.server_ready;
      }
