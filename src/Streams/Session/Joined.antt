-- ===== src/Streams/Session/Joined.antt =====
-- The handlers that the constructors return are joined, so the loops complete.
use tcp_handler.Base.{◌≡◌, refl, ap, ◌∙◌, ◌++◌, List, Outcome, ok, err, panic, Action}
use mathlib.Core.List.{map}
use tcp_handler.Transport.{Bytes, Transport, IsLawful}
use tcp_handler.Transport.Carries.{Carries}
use tcp_handler.Common.Errors.{StarterError, PacketError}
use tcp_handler.Streams.{TcpHandler}
use tcp_handler.Streams.Calls.{map_ok}
use tcp_handler.Streams.Dialogue.{request_all, serve_all, IsHandler}
use tcp_handler.Streams.Dialogue.Grows.{Grown, Grown-refl, request_all-Grown, serve_all-Grown}
use tcp_handler.Streams.Dialogue.Answered.{rest_carried, Rounds, Joined, completed}
use tcp_handler.Streams.Session.{continued, session, session-constructed, IsConnected}

module _ {t : Transport} (l : IsLawful t) {D C S K : Type 0} {hc : TcpHandler D C}
    {hs : TcpHandler D S} {Sealed : K → D → Bytes → Bytes → K → Type 0}
    (ic : IsHandler l hc K Sealed) (is : IsHandler l hs K Sealed) (answer : Bytes → Bytes)
    {client_new : Action (t.Reader × t.Writer) StarterError C}
    {server_new : Action (t.Reader × t.Writer) StarterError S} {k : K}
    (j : IsConnected l ic is client_new server_new k) (rs : List (D × Bytes)) (ds : List D)
    {cw sw : t.Writer} {cr sr : t.Reader} (ch : l.Healthy cw) (sh : l.Healthy sw)
    (up : Carries l cw (session ic.writer (request_all hc rs) client_new (cr, cw)).1 sr)
    (down : Carries l sw
      (session is.writer (serve_all hs answer ds) server_new (sr, sw)).1
      cr) where
  abbrev cw₁ : t.Writer
  cw₁ = (j.client_init cw).1

  -- From the writer that `client_init` leaves on.
  client-Grown :
      (o : Outcome StarterError j.Cipher) (r : t.Reader)
      → Grown l cw₁
          (continued ic.writer (request_all hc rs) (map_ok (j.client_made (r, cw₁)) o) (r, cw₁)).1
  client-Grown (ok x) r =
      rw (j.client_writer (r, cw₁) x) at (request_all-Grown l ic rs (j.client_made (r, cw₁) x))
  client-Grown (err e) r = Grown-refl l cw₁
  client-Grown panic r = Grown-refl l cw₁

  -- What the constructors return, where the client is accepted.
  abbrev sr₁ : t.Reader
  sr₁ = (j.server_init sr).1

  abbrev sw₁ : t.Writer
  sw₁ = (j.server_start (ok j.opened) sw).1

  abbrev server : S
  server = j.server_made (sr₁, sw₁) j.accepted

  abbrev cr₁ : t.Reader
  cr₁ = (j.client_start (ok j.key) cr).1

  abbrev client : C
  client = j.client_made (cr₁, cw₁) j.cipher

  server_reads : (rest : Bytes) × (l.pending sr ≡ j.opening ++ rest)
  server_reads =
      let up = rw (j.client_ran cr cw) at up in
      let done = j.client_start (j.client_init cw).0 cr in
      let g = client-Grown done.0 done.1 in
      (
        g.0 ++ up.rest,
        rest_carried l cw cw₁ _ sr j.opening up g (j.Emits-client_init.appends cw ch),
      )

  server_is : server_new (sr, sw) ≡ (ok server, (sr₁, sw₁))
  server_is =
      let (rest, reads) = server_reads in
      j.server_ran sr sw
      ∙ rw (j.Reads-server_init.returns sr rest reads, j.Emits-server_start.returns sw sh) refl

  server-Grown : Grown l sw₁ (is.writer (serve_all hs answer ds server).1)
  server-Grown =
      rw (j.server_writer (sr₁, sw₁) j.accepted) at (serve_all-Grown l is answer ds server)

  client_is :
      (client_new (cr, cw) ≡ (ok client, (cr₁, cw₁)))
      × ((down' : Carries l sw (is.writer (serve_all hs answer ds server).1) cr) × (l.pending cr₁
            ≡ server-Grown.0 ++ down'.rest))
  client_is =
      let down' = rw server_is at down in
      let reads =
        rest_carried l sw sw₁ _ cr j.closing down' server-Grown
          (j.Emits-server_start.appends sw sh) in
      (
        j.client_ran cr cw
            ∙ rw (j.Emits-client_init.returns cw ch, j.Reads-client_start.returns cr _ reads) refl,
        (down', j.Reads-client_start.leaves cr _ reads),
      )

  connected : Joined l ic is answer k rs ds client server
  connected =
      let up' = rw (client_is.0) at up in
      let g = rw (j.client_writer (cr₁, cw₁) j.cipher) at (request_all-Grown l ic rs client) in
      let reads = rest_carried l cw cw₁ _ sr j.opening up' g (j.Emits-client_init.appends cw ch) in
      record {
        client_ready = j.client_ready (cr₁, cw₁);
        server_ready = j.server_ready (sr₁, sw₁);
        client_ok = rw (j.client_writer (cr₁, cw₁) j.cipher) (j.Emits-client_init.stays cw ch);
        server_ok = rw (j.server_writer (sr₁, sw₁) j.accepted) (j.Emits-server_start.stays sw sh);
        up = record {
          sent = g.0;
          rest = up'.rest;
          wrote = rw (j.client_writer (cr₁, cw₁) j.cipher) g.1;
          gets = rw (j.server_reader (sr₁, sw₁) j.accepted) (j.Reads-server_init.leaves sr _ reads);
        };
        down = record {
          sent = server-Grown.0;
          rest = client_is.1.0.rest;
          wrote = rw (j.server_writer (sr₁, sw₁) j.accepted) server-Grown.1;
          gets = rw (j.client_reader (cr₁, cw₁) j.cipher) client_is.1.1;
        };
      }

  abbrev client_session : Outcome StarterError (Outcome PacketError (List Bytes) × C)
  client_session = (session ic.writer (request_all hc rs) client_new (cr, cw)).0

  abbrev server_session : Outcome StarterError (Outcome PacketError (List Bytes) × S)
  server_session = (session is.writer (serve_all hs answer ds) server_new (sr, sw)).0

  -- Both constructors succeed, both loops complete, and the handlers hold the key `k'` at the end.
  pub record Conversed (k' : K) : Type 0 where
    pub replies : map_ok (λ r. r.0) client_session ≡ ok (ok (map (λ r. answer r.1) rs))
    pub requests : map_ok (λ r. r.0) server_session ≡ ok (ok (map (λ r. r.1) rs))
    pub client_end : C
    pub client_left : map_ok (λ r. r.1) client_session ≡ ok client_end
    pub client_holds : ic.Ready k' client_end
    pub server_end : S
    pub server_left : map_ok (λ r. r.1) server_session ≡ ok server_end
    pub server_holds : is.Ready k' server_end

  pub conversed : {k' : K} → Rounds Sealed answer k rs ds k' → Conversed k'
  conversed rounds =
      let done = completed l ic is answer client server rounds connected in
      let c = session-constructed ic.writer (request_all hc rs) client_new _ _ client client_is.0 in
      let s =
        session-constructed is.writer (serve_all hs answer ds) server_new _ _ server server_is in
      record {
        replies = ap (map_ok (λ r. r.0)) c ∙ ap ok done.replies;
        requests = ap (map_ok (λ r. r.0)) s ∙ ap ok done.requests;
        client_end = (request_all hc rs client).1;
        client_left = ap (map_ok (λ r. r.1)) c;
        client_holds = done.client_ready;
        server_end = (serve_all hs answer ds server).1;
        server_left = ap (map_ok (λ r. r.1)) s;
        server_holds = done.server_ready;
      }
