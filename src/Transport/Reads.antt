-- ===== src/Transport/Reads.antt =====
-- What an action on a reader returns at input that begins with given bytes, and that it takes
-- these and no more, with a rule for each way to build it.
use tcp_handler.Base.{
  ◌≡◌, refl, ◌∙◌, ap, ◌++◌, [], append_assoc, append-nil, subst, Bool, true, Outcome, ok, err,
  Action, map_err, convert, ◌>>=◌, ◌>>◌, pure, raise, lift, ensure,
}
use tcp_handler.Transport.Defs.{Bytes, IoError, Kind, Value, Transport}
use tcp_handler.Transport.Laws.{Fits, IsLawful}

module _ {t : Transport} (l : IsLawful t) where
  open t use {Reader, read}
  open l use {encode, pending}

  pub record Reads {E A : Type 0} (bs : Bytes) (o : Outcome E A) (m : Action Reader E A)
      : Type 0 where
    pub returns : (r : Reader) (rest : Bytes) → pending r ≡ bs ++ rest → (m r).0 ≡ o
    pub leaves : (r : Reader) (rest : Bytes) → pending r ≡ bs ++ rest → pending (m r).1 ≡ rest

  module _ {E A : Type 0} where
    pub Reads-lift : (o : Outcome E A) → Reads [] o (lift o)
    Reads-lift o = record { returns = λ r rest h. refl; leaves = λ r rest h. h }

    pub Reads-pure : (a : A) → Reads [] (ok a) (pure {E = E} a)
    Reads-pure a = Reads-lift (ok a)

    pub Reads-raise : (e : E) → Reads [] (err e) (raise {A = A} e)
    Reads-raise e = Reads-lift (err e)

  module _ {E : Type 0} (e : E) where
    pub Reads-ensure : {b : Bool} → b ≡ true → Reads [] (ok tt) (ensure b e)
    Reads-ensure {b} h = rw h (Reads-lift (ok tt))

  module _ {E A B : Type 0} (m : Action Reader E A) (f : A → Action Reader E B) {bs : Bytes} where
    pub Reads-bind :
        {cs : Bytes} {a : A} {o : Outcome E B}
        → Reads bs (ok a) m
        → Reads cs o (f a)
        → Reads (bs ++ cs) o (m >>= f)
    unfolding ◌>>=◌
    Reads-bind {cs} {a} {o} hm hf = record {
      returns = λ r rest h.
          let e = h ∙ append_assoc bs cs rest in
          rw (hm.returns r (cs ++ rest) e) (hf.returns _ rest (hm.leaves r (cs ++ rest) e));
      leaves = λ r rest h.
          let e = h ∙ append_assoc bs cs rest in
          rw (hm.returns r (cs ++ rest) e) (hf.leaves _ rest (hm.leaves r (cs ++ rest) e));
    }

    pub Reads-bind_err : {e : E} → Reads bs (err e) m → Reads bs (err e) (m >>= f)
    unfolding ◌>>=◌
    Reads-bind_err hm = record {
      returns = λ r rest h. rw (hm.returns r rest h);
      leaves = λ r rest h. rw (hm.returns r rest h) (hm.leaves r rest h);
    }

  -- A read through `?`, with the conversion of its error.
  pub Reads-read :
      {E : Type 0} (c : IoError → E) (k : Kind) (v : Value k)
      → Fits k v
      → Reads (encode k v) (ok v) (convert c (read k))
  Reads-read c k v fits = record {
    returns = λ r rest h. ap (map_err c) (l.read-encode k v rest r fits h).0;
    leaves = λ r rest h. (l.read-encode k v rest r fits h).1;
  }

  module _ {E B : Type 0} {cs : Bytes} {o : Outcome E B} where
    -- A read, and what follows it.
    pub Reads-step :
        (k : Kind) (v : Value k) (c : IoError → E) (f : Value k → Action Reader E B)
        → Fits k v
        → Reads cs o (f v)
        → Reads (encode k v ++ cs) o (convert c (read k) >>= f)
    Reads-step k v c f fits = Reads-bind _ f (Reads-read c k v fits)

    -- A test that passes.
    pub Reads-pass :
        {b : Bool} {m : Action Reader E B} (e : E)
        → b ≡ true
        → Reads cs o m
        → Reads cs o (ensure b e >> m)
    Reads-pass e h = Reads-bind _ _ (Reads-ensure e h)

  -- Nothing is read any more.
  pub Reads-end :
      {E A B : Type 0} {bs : Bytes} {a : A} {o : Outcome E B} (m : Action Reader E A)
      (f : A → Action Reader E B)
      → Reads bs (ok a) m
      → Reads [] o (f a)
      → Reads bs o (m >>= f)
  Reads-end {bs} {o} m f hm hf =
      subst (λ (x : Bytes). Reads x o (m >>= f)) (append-nil bs) (Reads-bind m f hm hf)
