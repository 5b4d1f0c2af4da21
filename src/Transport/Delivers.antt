-- ===== src/Transport/Delivers.antt =====
-- Actions after which nothing that was accepted is held back, and actions of a buffering writer
-- that pass nothing on.
use tcp_handler.Base.{
  ◌≡◌, refl, sym, ◌∙◌, Outcome, ok, err, panic, Action, convert, ◌>>=◌, pure, lift, resume,
}
use tcp_handler.Transport.Defs.{Bytes, IoError, Kind, Value, Transport}
use tcp_handler.Transport.Laws.{IsLawful}
use tcp_handler.Transport.Emits.{Emits}

module _ {t : Transport} (l : IsLawful t) where
  open t use {Writer, write, flush}
  open l use {encode, accepted, delivered, Healthy}

  pub record Delivers {E A : Type 0} (m : Action Writer E A) : Type 0 where
    pub all : (w : Writer) → Healthy w → delivered (m w).1 ≡ accepted (m w).1

  pub Delivers-flush :
      {E A : Type 0} (c : IoError → E) (a : A) → Delivers (convert c flush >>= λ _. pure a)
  unfolding ◌>>=◌
  Delivers-flush c a = record {
    all = λ w h. rw (l.flush-healthy w h).0 ((l.flush-healthy w h).3 ∙ sym (l.flush-healthy w h).2);
  }

  pub Delivers-bind :
      {E A B : Type 0} {bs : Bytes} {a : A} (m : Action Writer E A) (f : A → Action Writer E B)
      → Emits l bs (ok a) m
      → Delivers (f a)
      → Delivers (m >>= f)
  unfolding ◌>>=◌
  Delivers-bind m f em d = record { all = λ w h. rw (em.returns w h) (d.all _ (em.stays w h)) }

  -- A writer that holds back what it is given until it is flushed.
  pub record IsLazy : Type 0 where
    pub write-delivered :
        (k : Kind) (v : Value k) (w : Writer) → delivered (write k v w).1 ≡ delivered w

  pub record Keeps {E A : Type 0} (m : Action Writer E A) : Type 0 where
    pub same : (w : Writer) → delivered (m w).1 ≡ delivered w

  pub Keeps-lift : {E A : Type 0} (o : Outcome E A) → Keeps (lift o)
  Keeps-lift o = record { same = λ w. refl }

  pub Keeps-write :
      {E : Type 0} (z : IsLazy) (c : IoError → E) (k : Kind) (v : Value k)
      → Keeps (convert c (write k v))
  Keeps-write z c k v = record { same = λ w. z.write-delivered k v w }

  module _ {E A B : Type 0} (m : Action Writer E A) (f : A → Action Writer E B) where
    resume-same :
        (o : Outcome E A) (w : Writer)
        → ((a : A) → Keeps (f a))
        → delivered (resume o w f).1 ≡ delivered w
    resume-same (ok a) w kf = (kf a).same w
    resume-same (err e) w kf = refl
    resume-same panic w kf = refl

    pub Keeps-bind : Keeps m → ((a : A) → Keeps (f a)) → Keeps (m >>= f)
    unfolding ◌>>=◌
    Keeps-bind km kf = record { same = λ w. resume-same (m w).0 (m w).1 kf ∙ km.same w }
