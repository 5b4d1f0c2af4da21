-- ===== src/Common/Last/Refusal.antt =====
-- A refusal, on a writer that holds its bytes back.
use tcp_handler.Base.{◌≡◌, refl, ap, ◌∙◌, Outcome, ok, err, panic, Action, ◌>>=◌, raise, resume}
use tcp_handler.Transport.{Str, bools_2, string, Transport, IsLawful}
use tcp_handler.Transport.Delivers.{IsLazy, Keeps, Keeps-bind, Keeps-write, Keeps-lift}
use tcp_handler.Common.Variant.{ProtocolVariant, to_bools}
use tcp_handler.Common.Errors.{
  StarterError, invalid_stream, invalid_protocol, invalid_identifier, invalid_version, io, rsa,
}
use tcp_handler.Common.Last.{write_refusal, write_last}

-- What follows an action that ends in `Err(e)` is not run.
module _ {S E A B : Type 0} (e : E) (f : A → Action S E B) where
  resume-raise :
      (o : Outcome E (Unit {0})) (s : S)
      → (resume (resume o s (λ _. raise {A = A} e)).0 (resume o s (λ _. raise {A = A} e)).1 f).1 ≡ s
  resume-raise (ok _) s = refl
  resume-raise (err _) s = refl
  resume-raise panic s = refl

  raise-stops : (m : Action S E (Unit {0})) (s : S) → (((m >>= λ _. raise e) >>= f) s).1 ≡ (m s).1
  unfolding ◌>>=◌
  raise-stops m s = resume-raise (m s).0 (m s).1

module _ {t : Transport} (l : IsLawful t) (z : IsLazy l) (p : ProtocolVariant) (j w : Str) where
  Keeps-write_refusal : (e : StarterError) → Keeps l (write_refusal t p j w e)
  unfolding write_refusal
  Keeps-write_refusal (invalid_protocol q) =
      Keeps-bind l _ _ (Keeps-write l z _ bools_2 _) (λ _. Keeps-write l z _ bools_2 (to_bools p))
  Keeps-write_refusal (invalid_identifier s) =
      Keeps-bind l _ _ (Keeps-write l z _ bools_2 _) (λ _. Keeps-write l z _ string j)
  Keeps-write_refusal (invalid_version s) =
      Keeps-bind l _ _ (Keeps-write l z _ bools_2 _) (λ _. Keeps-write l z _ string w)
  Keeps-write_refusal invalid_stream = Keeps-lift l _
  Keeps-write_refusal (io e) = Keeps-lift l _
  Keeps-write_refusal (rsa e) = Keeps-lift l _

  -- Whatever would follow the refusal, such as a flush.
  pub refusal-held_back :
      {A B : Type 0} (e : StarterError) (f : A → Action t.Writer StarterError B) (s : t.Writer)
      → l.delivered ((write_last t p j w (err e) >>= f) s).1 ≡ l.delivered s
  unfolding write_last
  refusal-held_back e f s =
      ap l.delivered (raise-stops e f (write_refusal t p j w e) s) ∙ (Keeps-write_refusal e).same s
