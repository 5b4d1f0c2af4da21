-- ===== src/Transport/Answers.antt =====
-- What an action on a reader returns at input that begins with given bytes, however many of them
-- it takes: a refusal may leave some unread.
use tcp_handler.Base.{
  ◌≡◌, refl, ◌∙◌, ◌++◌, [], append_assoc, append-nil, subst, Bool, true, false, if◌then◌else◌,
  Outcome, ok, err, Action, convert, ◌>>=◌, ◌>>◌, ensure,
}
use tcp_handler.Transport.Defs.{Bytes, IoError, Kind, Value, Transport}
use tcp_handler.Transport.Laws.{Fits, IsLawful}
use tcp_handler.Transport.Reads.{Reads, Reads-read}

module _ {t : Transport} (l : IsLawful t) where
  open t use {Reader, read}
  open l use {encode, pending}

  pub record Answers {E A : Type 0} (bs : Bytes) (o : Outcome E A) (m : Action Reader E A)
      : Type 0 where
    pub returns : (r : Reader) (rest : Bytes) → pending r ≡ bs ++ rest → (m r).0 ≡ o

  pub Reads-Answers :
      {E A : Type 0} {bs : Bytes} {o : Outcome E A} {m : Action Reader E A}
      → Reads l bs o m
      → Answers bs o m
  Reads-Answers h = record { returns = h.returns }

  pub Answers-append :
      {E A : Type 0} {bs : Bytes} {o : Outcome E A} {m : Action Reader E A} (cs : Bytes)
      → Answers bs o m
      → Answers (bs ++ cs) o m
  Answers-append {bs} cs h = record {
    returns = λ r rest e. h.returns r (cs ++ rest) (e ∙ append_assoc bs cs rest);
  }

  module _ {E A B : Type 0} (m : Action Reader E A) (f : A → Action Reader E B) {bs : Bytes} where
    pub Answers-bind :
        {cs : Bytes} {a : A} {o : Outcome E B}
        → Reads l bs (ok a) m
        → Answers cs o (f a)
        → Answers (bs ++ cs) o (m >>= f)
    unfolding ◌>>=◌
    Answers-bind {cs} hm hf = record {
      returns = λ r rest h.
          let e = h ∙ append_assoc bs cs rest in
          rw (hm.returns r (cs ++ rest) e) (hf.returns _ rest (hm.leaves r (cs ++ rest) e));
    }

    pub Answers-bind_err : {e : E} → Answers bs (err e) m → Answers bs (err e) (m >>= f)
    unfolding ◌>>=◌
    Answers-bind_err hm = record { returns = λ r rest h. rw (hm.returns r rest h) }

  -- An early return on a failed test.
  pub Answers-ensure :
      {E B : Type 0} {k : Action Reader E B} {bs : Bytes} {o : Outcome E B} (b : Bool) (e : E)
      → Answers bs o k
      → Answers bs (if b then o else err e) (ensure b e >> k)
  unfolding ◌>>=◌
  Answers-ensure true e h = record { returns = h.returns }
  Answers-ensure false e h = record { returns = λ r rest x. refl }

  pub Answers-ensure_pass :
      {E B : Type 0} {k : Action Reader E B} {bs : Bytes} {o : Outcome E B} (b : Bool) (e : E)
      → b ≡ true
      → Answers bs o k
      → Answers bs o (ensure b e >> k)
  unfolding ◌>>=◌
  Answers-ensure_pass b e h a = rw h (record { returns = a.returns })

  -- A read, and what follows it.
  pub Answers-step :
      {E B : Type 0} {cs : Bytes} {o : Outcome E B} (k : Kind) (v : Value k) (c : IoError → E)
      (f : Value k → Action Reader E B)
      → Fits k v
      → Answers cs o (f v)
      → Answers (encode k v ++ cs) o (convert c (read k) >>= f)
  Answers-step k v c f fits = Answers-bind _ f (Reads-read l c k v fits)

  -- Nothing is read any more.
  pub Answers-end :
      {E A B : Type 0} {bs : Bytes} {a : A} {o : Outcome E B} (m : Action Reader E A)
      (f : A → Action Reader E B)
      → Reads l bs (ok a) m
      → Answers [] o (f a)
      → Answers bs o (m >>= f)
  Answers-end {bs} {o} m f hm hf =
      subst (λ (x : Bytes). Answers x o (m >>= f)) (append-nil bs) (Answers-bind m f hm hf)
