-- ===== src/Transport/Emits.antt =====
-- What an action on a healthy writer returns and appends, with a rule for each way to build it.
use tcp_handler.Base.{
  ◌≡◌, refl, sym, ◌∙◌, ap, ◌++◌, [], append_assoc, append-nil, subst, Outcome, ok, err, Action,
  map_err, convert, ◌>>=◌, pure, lift,
}
use tcp_handler.Transport.Defs.{Bytes, IoError, Kind, Value, Transport}
use tcp_handler.Transport.Laws.{Fits, IsLawful}

module _ {t : Transport} (l : IsLawful t) where
  open t use {Writer, write, flush}
  open l use {encode, accepted, Healthy}

  pub record Emits {E A : Type 0} (bs : Bytes) (o : Outcome E A) (m : Action Writer E A)
      : Type 0 where
    pub returns : (w : Writer) → Healthy w → (m w).0 ≡ o
    pub stays : (w : Writer) → Healthy w → Healthy (m w).1
    pub appends : (w : Writer) → Healthy w → accepted (m w).1 ≡ accepted w ++ bs

  module _ {E A : Type 0} where
    pub Emits-pure : (a : A) → Emits [] (ok a) (pure {E = E} a)
    Emits-pure a = record {
      returns = λ w h. refl;
      stays = λ w h. h;
      appends = λ w h. sym (append-nil _);
    }

    pub Emits-lift : (o : Outcome E A) → Emits [] o (lift o)
    Emits-lift o = record {
      returns = λ w h. refl;
      stays = λ w h. h;
      appends = λ w h. sym (append-nil _);
    }

  module _ {E A B : Type 0} (m : Action Writer E A) (f : A → Action Writer E B) {bs : Bytes} where
    pub Emits-bind :
        {cs : Bytes} {a : A} {o : Outcome E B}
        → Emits bs (ok a) m
        → Emits cs o (f a)
        → Emits (bs ++ cs) o (m >>= f)
    unfolding ◌>>=◌
    Emits-bind {cs} {a} {o} hm hf = record {
      returns = λ w h. rw (hm.returns w h) (hf.returns _ (hm.stays w h));
      stays = λ w h. rw (hm.returns w h) (hf.stays _ (hm.stays w h));
      appends = λ w h. rw (hm.returns w h) (
          hf.appends _ (hm.stays w h)
          ∙ ap (λ (x : Bytes). x ++ cs) (hm.appends w h)
          ∙ append_assoc (accepted w) bs cs);
    }

    pub Emits-bind_err : {e : E} → Emits bs (err e) m → Emits bs (err e) (m >>= f)
    unfolding ◌>>=◌
    Emits-bind_err hm = record {
      returns = λ w h. rw (hm.returns w h);
      stays = λ w h. rw (hm.returns w h) (hm.stays w h);
      appends = λ w h. rw (hm.returns w h) (hm.appends w h);
    }

  -- A write through `?`, with the conversion of its error.
  pub Emits-write :
      {E : Type 0} (c : IoError → E) (k : Kind) (v : Value k)
      → Fits k v
      → Emits (encode k v) (ok tt) (convert c (write k v))
  Emits-write c k v fits = record {
    returns = λ w h. ap (map_err c) (l.write-healthy k v w fits h).0;
    stays = λ w h. (l.write-healthy k v w fits h).1;
    appends = λ w h. (l.write-healthy k v w fits h).2;
  }

  pub Emits-flush : {E : Type 0} (c : IoError → E) → Emits [] (ok tt) (convert c flush)
  Emits-flush c = record {
    returns = λ w h. ap (map_err c) (l.flush-healthy w h).0;
    stays = λ w h. (l.flush-healthy w h).1;
    appends = λ w h. (l.flush-healthy w h).2 ∙ sym (append-nil _);
  }

  -- A write, and what follows it.
  pub Emits-step :
      {E B : Type 0} {cs : Bytes} {o : Outcome E B} (k : Kind) (v : Value k) (c : IoError → E)
      (f : Unit {0} → Action Writer E B)
      → Fits k v
      → Emits cs o (f tt)
      → Emits (encode k v ++ cs) o (convert c (write k v) >>= f)
  Emits-step k v c f fits = Emits-bind _ f (Emits-write c k v fits)

  -- Nothing is written any more.
  pub Emits-end :
      {E A B : Type 0} {bs : Bytes} {a : A} {o : Outcome E B} (m : Action Writer E A)
      (f : A → Action Writer E B)
      → Emits bs (ok a) m
      → Emits [] o (f a)
      → Emits bs o (m >>= f)
  Emits-end {bs} {o} m f hm hf =
      subst (λ (x : Bytes). Emits x o (m >>= f)) (append-nil bs) (Emits-bind m f hm hf)
