-- ===== src/Transport/Starves.antt =====
-- Actions that report an error at every input which ends before the bytes that they need.
use tcp_handler.Base.{
  ◌≡◌, refl, sym, ◌∙◌, ap, ◌⊎◌, inl, inr, ◌≢◌, List, ◌++◌, [], ◌∷◌, ok, err, Action, map_err,
  convert, ◌>>=◌, ◌>>◌, ensure, Bool, true,
}
use tcp_handler.Transport.Defs.{Bytes, IoError, unexpected_eof, Kind, Value, Transport}
use tcp_handler.Transport.Laws.{Fits, IsLawful}
use tcp_handler.Transport.Reads.{Reads, Reads-read, Reads-ensure}

-- Where a text of two parts is cut: in the first, or in the second.
abbrev Cut {ℓ} : {A : Type ℓ} → List A → List A → List A → List A → Type ℓ
Cut {A} bs cs p q =
    ((s : List A) × (bs ≡ p ++ s) × (s ≢ [])) ⊎ ((s : List A) × (p ≡ bs ++ s) × (cs ≡ s ++ q))

Cut-cons {ℓ} :
    {A : Type ℓ} (b x : A) (bs cs p q : List A) → b ≡ x → Cut bs cs p q → Cut (b ∷ bs) cs (x ∷ p) q
Cut-cons b x bs cs p q e (inl (s, h, n)) = inl (s, cc, n)
Cut-cons b x bs cs p q e (inr (s, h, k)) = inr (s, cc, k)

Cut-cases {ℓ} : {A : Type ℓ} (bs cs p q : List A) → bs ++ cs ≡ p ++ q → q ≢ [] → Cut bs cs p q
Cut-cases [] cs p q e n = inr (p, refl, e)
Cut-cases (b ∷ bs) cs [] q e n = inl (b ∷ bs, refl, λ h. cc)
Cut-cases (b ∷ bs) cs (x ∷ p) q e n = Cut-cons b x bs cs p q (cc) (Cut-cases bs cs p q (cc) n)

rest_nil {ℓ} : {A : Type ℓ} (p q : List A) → [] ≡ p ++ q → q ≡ []
rest_nil [] q e = sym e
rest_nil (x ∷ p) q e = cc

module _ {t : Transport} (l : IsLawful t) where
  open t use {Reader, read}
  open l use {encode, pending}

  pub record Starves {E A : Type 0} (bs : Bytes) (e : E) (m : Action Reader E A) : Type 0 where
    pub fails : (r : Reader) (p q : Bytes) → bs ≡ p ++ q → q ≢ [] → pending r ≡ p → (m r).0 ≡ err e

  -- Nothing is needed, so nothing can be missing.
  pub Starves-none : {E A : Type 0} (e : E) (m : Action Reader E A) → Starves [] e m
  Starves-none e m = record { fails = λ r p q h n _. absurd (n (rest_nil p q h)) }

  module _ {E A B : Type 0} (m : Action Reader E A) (f : A → Action Reader E B) {bs : Bytes} where
    pub Starves-bind :
        {cs : Bytes} {a : A} {e : E}
        → Reads l bs (ok a) m
        → Starves bs e m
        → Starves cs e (f a)
        → Starves (bs ++ cs) e (m >>= f)
    unfolding ◌>>=◌
    Starves-bind {cs} {a} {e} hm sm sf = record {
      fails = λ r p q h n hp. elim (Cut-cases bs cs p q h n) [
        | inl (s, x, y) ↦ rw (sm.fails r p s x y hp)
        | inr (s, x, y) ↦ rw (hm.returns r s (hp ∙ x)) (sf.fails _ s q y n (hm.leaves r s (hp ∙ x)))
      ];
    }

  pub Starves-read :
      {E : Type 0} (c : IoError → E) (k : Kind) (v : Value k)
      → Fits k v
      → Starves (encode k v) (c unexpected_eof) (convert c (read k))
  Starves-read c k v fits = record {
    fails = λ r p q h n hp. ap (map_err c) (l.read-truncated k v p q r fits h n hp);
  }

  module _ {E B : Type 0} {cs : Bytes} where
    -- A read, and what follows it.
    pub Starves-step :
        (k : Kind) (v : Value k) (c : IoError → E) (f : Value k → Action Reader E B)
        → Fits k v
        → Starves cs (c unexpected_eof) (f v)
        → Starves (encode k v ++ cs) (c unexpected_eof) (convert c (read k) >>= f)
    Starves-step k v c f fits = Starves-bind _ f (Reads-read l c k v fits) (Starves-read c k v fits)

    -- A test that passes.
    pub Starves-pass :
        {b : Bool} {x : E} {m : Action Reader E B} (e : E)
        → b ≡ true
        → Starves cs x m
        → Starves cs x (ensure b e >> m)
    Starves-pass e h = Starves-bind _ _ (Reads-ensure l e h) (Starves-none _ _)

  -- Nothing is read any more.
  pub Starves-end :
      {E A B : Type 0} {bs : Bytes} {e : E} (m : Action Reader E A) (f : A → Action Reader E B)
      → Starves bs e m
      → Starves bs e (m >>= f)
  unfolding ◌>>=◌
  Starves-end m f sm = record { fails = λ r p q h n hp. rw (sm.fails r p q h n hp) }
