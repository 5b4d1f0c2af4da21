-- ===== src/Streams/Dialogue/Grows.antt =====
-- Whatever the calls return, what a handler's writer has accepted only grows.
use tcp_handler.Base.{
  ◌≡◌, sym, ap, ◌∙◌, ◌++◌, List, [], ◌∷◌, append_assoc, append-nil, Outcome, ok, err, panic, Action,
  ◌>>=◌, pure, resume,
}
use tcp_handler.Transport.{Bytes, Transport, IsLawful}
use tcp_handler.Common.Errors.{PacketError}
use tcp_handler.Streams.{TcpHandler, handler_send_recv}
use tcp_handler.Streams.Dialogue.{request_all, serve_all, IsHandler}

module _ {t : Transport} (l : IsLawful t) where
  abbrev pub Grown : t.Writer → t.Writer → Type 0
  Grown w w' = (p : Bytes) × (l.accepted w' ≡ l.accepted w ++ p)

  pub Grown-refl : (w : t.Writer) → Grown w w
  Grown-refl w = ([], sym (append-nil _))

  Grown-trans : (w w' w'' : t.Writer) → Grown w w' → Grown w' w'' → Grown w w''
  Grown-trans w w' w'' (p, e) (p', e') =
      (p ++ p', e' ∙ ap (λ (x : Bytes). x ++ p') e ∙ append_assoc (l.accepted w) p p')

  module _ {H A B : Type 0} (writer : H → t.Writer) (f : A → Action H PacketError B)
      (hf : (a : A) (s : H) → Grown (writer s) (writer (f a s).1)) where
    resume-Grown :
        (w : t.Writer) (o : Outcome PacketError A) (s : H)
        → Grown w (writer s)
        → Grown w (writer (resume o s f).1)
    resume-Grown w (ok a) s h = Grown-trans w (writer s) (writer (f a s).1) h (hf a s)
    resume-Grown w (err e) s h = h
    resume-Grown w panic s h = h

    bind-Grown :
        (m : Action H PacketError A) (s : H)
        → Grown (writer s) (writer (m s).1)
        → Grown (writer s) (writer ((m >>= f) s).1)
    unfolding ◌>>=◌
    bind-Grown m s h = resume-Grown (writer s) (m s).0 (m s).1 h

module _ {t : Transport} (l : IsLawful t) {D H : Type 0} {h : TcpHandler D H} {K : Type 0}
    {Sealed : K → D → Bytes → Bytes → K → Type 0} (i : IsHandler l h K Sealed) where
  open i use {writer}

  recv-Grown : (s : H) → Grown l (writer s) (writer (h.handler_recv s).1)
  recv-Grown s = rw (i.recv_keeps s) (Grown-refl l (writer s))

  then_pure-Grown :
      {A B : Type 0} (m : Action H PacketError A) (f : A → B) (s : H)
      → Grown l (writer s) (writer (m s).1)
      → Grown l (writer s) (writer ((m >>= λ a. pure (f a)) s).1)
  then_pure-Grown m f s = bind-Grown l writer _ (λ a s'. Grown-refl l (writer s')) m s

  pub request_all-Grown :
      (requests : List (D × Bytes)) (s : H)
      → Grown l (writer s) (writer (request_all h requests s).1)
  unfolding request_all handler_send_recv
  request_all-Grown [] s = Grown-refl l (writer s)
  request_all-Grown (r ∷ rs) s =
      bind-Grown l writer _
        (λ reply s'. then_pure-Grown (request_all h rs) (◌∷◌ reply) s' (request_all-Grown rs s')) _
        s (bind-Grown l writer _ (λ _. recv-Grown) _ s (i.send_grows r.0 r.1 s))

  pub serve_all-Grown :
      (answer : Bytes → Bytes) (draws : List D) (s : H)
      → Grown l (writer s) (writer (serve_all h answer draws s).1)
  unfolding serve_all
  serve_all-Grown answer [] s = Grown-refl l (writer s)
  serve_all-Grown answer (d ∷ ds) s =
      bind-Grown l writer _
        (λ m s₁.
          bind-Grown l writer _
            (λ _ s₂.
              then_pure-Grown (serve_all h answer ds) (◌∷◌ m) s₂ (serve_all-Grown answer ds s₂))
            _ s₁ (i.send_grows d (answer m) s₁))
        _ s (recv-Grown s)

  -- From the first `send` on.
  pub after_send-Grown :
      (d : D) (m : Bytes) (rs : List (D × Bytes)) (s : H)
      → (h.handler_send d m s).0 ≡ ok tt
      → Grown l (writer (h.handler_send d m s).1) (writer (request_all h ((d, m) ∷ rs) s).1)
  unfolding request_all handler_send_recv ◌>>=◌
  after_send-Grown d m rs s e = rw e (
      bind-Grown l writer (λ reply. request_all h rs >>= λ replies. pure (reply ∷ replies))
        (λ reply s'. then_pure-Grown (request_all h rs) (◌∷◌ reply) s' (request_all-Grown rs s'))
        h.handler_recv (h.handler_send d m s).1 (recv-Grown (h.handler_send d m s).1))
