-- ===== src/Transport/Limits.antt =====
-- What an action appends to any writer, healthy or not: a part of given bytes, from their start,
-- and all of them if it succeeds.
use tcp_handler.Base.{
  ◌≡◌, refl, sym, ◌∙◌, ap, ◌++◌, [], append_assoc, append-nil, subst, Outcome, ok, err, panic,
  Action, map_err-ok, convert, ◌>>=◌, pure, lift, resume,
}
use tcp_handler.Transport.Defs.{Bytes, IoError, Kind, Value, Transport}
use tcp_handler.Transport.Laws.{IsLawful}

module _ {t : Transport} (l : IsLawful t) where
  open t use {Writer, write, flush}
  open l use {encode, accepted}

  pub record Limits {E A : Type 0} (bs : Bytes) (m : Action Writer E A) : Type 0 where
    pub within :
        (w : Writer)
        → (p : Bytes) × (q : Bytes) × (bs ≡ p ++ q)
          × (accepted (m w).1 ≡ accepted w ++ p)
          × ((a : A) → (m w).0 ≡ ok a → q ≡ [])

  module _ {E A : Type 0} where
    pub Limits-lift : (o : Outcome E A) → Limits [] (lift o)
    Limits-lift o = record { within = λ w. ([], [], refl, sym (append-nil _), λ a h. refl) }

    pub Limits-pure : (a : A) → Limits [] (pure {E = E} a)
    Limits-pure a = Limits-lift (ok a)

  module _ {E A B : Type 0} (m : Action Writer E A) (f : A → Action Writer E B)
      {bs cs : Bytes} where
    -- Stated of the result and the writer that `m` leaves, to split on the result.
    after :
        (o : Outcome E A) (w w' : Writer) (p q : Bytes)
        → bs ≡ p ++ q
        → accepted w' ≡ accepted w ++ p
        → ((a : A) → o ≡ ok a → q ≡ [])
        → ((a : A) → Limits cs (f a))
        → (p' : Bytes) × (q' : Bytes) × (bs ++ cs ≡ p' ++ q')
          × (accepted (resume o w' f).1 ≡ accepted w ++ p')
          × ((b : B) → (resume o w' f).0 ≡ ok b → q' ≡ [])
    after (ok a) w w' p q h x n hf =
        let (p', q', h', x', n') = (hf a).within w' in
        (
          bs ++ p',
          q',
          ap (◌++◌ bs) h' ∙ sym (append_assoc bs p' q'),
          x'
              ∙ ap (λ (y : Bytes). y ++ p') (x ∙ ap (◌++◌ (accepted w)) (whole (n a refl)))
              ∙ append_assoc (accepted w) bs p',
          n',
        )
      where
        whole : q ≡ [] → p ≡ bs
        whole e = sym (h ∙ ap (◌++◌ p) e ∙ append-nil p)
    after (err e) w w' p q h x n hf =
        (p, q ++ cs, ap (λ (y : Bytes). y ++ cs) h ∙ append_assoc p q cs, x, λ b k. cc)
    after panic w w' p q h x n hf =
        (p, q ++ cs, ap (λ (y : Bytes). y ++ cs) h ∙ append_assoc p q cs, x, λ b k. cc)

    pub Limits-bind : Limits bs m → ((a : A) → Limits cs (f a)) → Limits (bs ++ cs) (m >>= f)
    unfolding ◌>>=◌
    Limits-bind hm hf = record {
      within = λ w. let (p, q, h, x, n) = hm.within w in after (m w).0 w (m w).1 p q h x n hf;
    }

  -- A write through `?`, with the conversion of its error.
  pub Limits-write :
      {E : Type 0} (c : IoError → E) (k : Kind) (v : Value k)
      → Limits (encode k v) (convert c (write k v))
  Limits-write c k v = record {
    within = λ w.
        let (p, q, h, x, n) = l.write-prefix k v w in (p, q, h, x, λ a k. n (map_err-ok c _ a k));
  }

  pub Limits-flush : {E : Type 0} (c : IoError → E) → Limits [] (convert c flush)
  Limits-flush c = record {
    within = λ w. ([], [], refl, l.flush-accepted w ∙ sym (append-nil _), λ a h. refl);
  }

  -- Nothing is written any more.
  pub Limits-end :
      {E A B : Type 0} {bs : Bytes} (m : Action Writer E A) (f : A → Action Writer E B)
      → Limits bs m
      → ((a : A) → Limits [] (f a))
      → Limits bs (m >>= f)
  Limits-end {bs} m f hm hf =
      subst (λ (x : Bytes). Limits x (m >>= f)) (append-nil bs) (Limits-bind m f hm hf)
