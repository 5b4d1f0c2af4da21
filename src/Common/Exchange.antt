-- ===== src/Common/Exchange.antt =====
-- The steps that the handshakes share, for any protocol on either side: the head and its flush,
-- the answer and its flush.
pub mod Agreement
use tcp_handler.Base.{
  ℕ, ◌≡◌, ◌∙◌, refl, ◌++◌, [], Bool, true, false, Outcome, ok, err, Action, convert, ◌>>=◌, ◌>>◌,
  pure,
}
use tcp_handler.Transport.{Bytes, Str, IoError, Transport, IsLawful}
use tcp_handler.Transport.Emits.{
  Emits, Emits-bind, Emits-bind_err, Emits-end, Emits-flush, Emits-pure,
}
use tcp_handler.Transport.Limits.{Limits, Limits-flush, Limits-pure}
use tcp_handler.Transport.Delivers.{Delivers, Delivers-bind, Delivers-flush}
use tcp_handler.Common.Variant.{ProtocolVariant}
use tcp_handler.Common.Errors.{StarterError, starter}
use tcp_handler.Common.Decision.{
  Decision, accepted, protocol, identifier, version, server_view, client_view,
}
use tcp_handler.Common.Head.{write_head}
use tcp_handler.Common.Head.Wire.{head_bytes, Emits-write_head}
use tcp_handler.Common.Last.{write_last, flush}
use tcp_handler.Common.Last.Wire.{answer_bytes, Emits-write_last}

module _ {t : Transport} (l : IsLawful t) where
  open t use {Writer}

  pub Emits-flush_if :
      {E : Type 0} (c : IoError → E) (auto_flush : Bool)
      → Emits l [] (ok tt) (convert c (flush t auto_flush))
  unfolding flush
  Emits-flush_if c true = Emits-flush l c
  Emits-flush_if c false = Emits-pure l tt

  module _ {E A : Type 0} (c : IoError → E) (auto_flush : Bool) where
    -- What is written before a flush, and the result that is returned after it.
    pub Emits-then_flush :
        {B : Type 0} {bs : Bytes} {a : A} (m : Action Writer E A) (f : A → B)
        → Emits l bs (ok a) m
        → Emits l bs (ok (f a)) (m >>= λ x. convert c (flush t auto_flush) >> pure (f x))
    Emits-then_flush {a} m f em =
        Emits-end l m _ em (Emits-bind l _ _ (Emits-flush_if c auto_flush) (Emits-pure l (f a)))

  pub Delivers-then_flush :
      {E A B : Type 0} {bs : Bytes} {a : A} (c : IoError → E) (m : Action Writer E A) (f : A → B)
      → Emits l bs (ok a) m
      → Delivers l (m >>= λ x. convert c (flush t true) >> pure (f x))
  unfolding flush
  Delivers-then_flush {a} c m f em = Delivers-bind l m _ em (Delivers-flush l c (f a))

  -- The answer with its flush, which an error skips.
  pub Emits-answer :
      {A B : Type 0} (p : ProtocolVariant) (j w : Str) (auto_flush : Bool) (f : A → B)
      (d : Decision A)
      → Emits l
          (answer_bytes l p j w d)
          (server_view f d)
          (write_last t p j w (server_view f d) >>= λ res. starter (flush t auto_flush) >> pure res)
  Emits-answer p j w af f (accepted a) =
      Emits-then_flush StarterError.io af _ (λ x. x) (Emits-write_last l p j w f (accepted a))
  Emits-answer p j w af f (protocol q) =
      Emits-bind_err l _ _ (Emits-write_last l p j w f (protocol q))
  Emits-answer p j w af f (identifier s) =
      Emits-bind_err l _ _ (Emits-write_last l p j w f (identifier s))
  Emits-answer p j w af f (version s) =
      Emits-bind_err l _ _ (Emits-write_last l p j w f (version s))

  pub Limits-flush_if :
      {E : Type 0} (c : IoError → E) (auto_flush : Bool)
      → Limits l [] (convert c (flush t auto_flush))
  unfolding flush
  Limits-flush_if c true = Limits-flush l c
  Limits-flush_if c false = Limits-pure l tt

  -- With the feature `auto_flush`, all that was written has left the writer.
  pub delivered_all :
      {E A B : Type 0} {bs : Bytes} {a : A} (c : IoError → E) (m : Action Writer E A) (f : A → B)
      → Emits l bs (ok a) m
      → {w : Writer} → l.Healthy w
      → l.delivered ((m >>= λ x. convert c (flush t true) >> pure (f x)) w).1 ≡ l.accepted w ++ bs
  delivered_all c m f em {w} h =
      (Delivers-then_flush c m f em).all w h ∙ (Emits-then_flush c true m f em).appends w h
