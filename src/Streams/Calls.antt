-- ===== src/Streams/Calls.antt =====
-- How the constructors and methods of the handlers call the functions of the protocols.
use tcp_handler.Base.{
  ◌≡◌, refl, Outcome, ok, err, panic, Action, ◌>>=◌, pure, on_left, on_right, resume,
}
use tcp_handler.Transport.{Str}
use tcp_handler.Common.Variant.{ProtocolVariant}
use tcp_handler.Common.Decision.{Decision, server_view, client_view}

-- A call without `?`: its result is a value. A panic goes on.
abbrev attempted : {E A : Type 0} → Outcome E A → Outcome E (Outcome E A)
attempted (ok a) = ok (ok a)
attempted (err e) = ok (err e)
attempted panic = panic

module _ {S E : Type 0} where
  abbrev pub attempt : {A : Type 0} → Action S E A → Action S E (Outcome E A)
  attempt m s = (attempted (m s).0, (m s).1)

  -- What is moved into a new value.
  abbrev pub current : Action S E S
  current s = (ok s, s)

-- A call on some fields of a handler.
abbrev pub through : {H S E A : Type 0} → (H → S) → (S → H → H) → Action S E A → Action H E A
through fields put m h = ((m (fields h)).0, put (m (fields h)).1 h)

abbrev pub map_ok : {E A B : Type 0} → (A → B) → Outcome E A → Outcome E B
map_ok f (ok a) = ok (f a)
map_ok f (err e) = err e
map_ok f panic = panic

pub resume-then_pure :
    {S E A B : Type 0} (f : A → B) (o : Outcome E A) (s : S)
    → resume o s (λ a. pure (f a)) ≡ (map_ok f o, s)
resume-then_pure f (ok a) s = refl
resume-then_pure f (err e) s = refl
resume-then_pure f panic s = refl

pub map_ok-map_ok :
    {E A B C : Type 0} (f : B → C) (g : A → B) (o : Outcome E A)
    → map_ok f (map_ok g o) ≡ map_ok (λ a. f (g a)) o
map_ok-map_ok f g (ok a) = refl
map_ok-map_ok f g (err e) = refl
map_ok-map_ok f g panic = refl

pub map_ok-server_view :
    {A B C : Type 0} (f : B → C) (g : A → B) (d : Decision A)
    → map_ok f (server_view g d) ≡ server_view (λ a. f (g a)) d
map_ok-server_view f g (Decision.accepted a) = refl
map_ok-server_view f g (Decision.protocol q) = refl
map_ok-server_view f g (Decision.identifier s) = refl
map_ok-server_view f g (Decision.version s) = refl

-- The end of a constructor.
finish-moved :
    {R W E B H : Type 0} (g : R × W → B → H) (o : Outcome E B) (r : R) (w : W)
    → resume o (r, w) (λ b. current >>= λ s. pure (g s b)) ≡ (map_ok (g (r, w)) o, (r, w))
unfolding ◌>>=◌
finish-moved g (ok b) r w = refl
finish-moved g (err e) r w = refl
finish-moved g panic r w = refl

module _ {R W E A B H : Type 0} (g : R × W → B → H) where
  -- A server: the first call is on the reader, the second on the writer.
  server_new-calls :
      (o : Outcome E A) (f : Outcome E A → Action W E B) (r : R) (w : W)
      → f panic w ≡ (panic, w)
      → resume (attempted o) (r, w) (λ x. on_right (f x) >>= λ b. current >>= λ s. pure (g s b))
        ≡ (map_ok (g (r, (f o w).1)) (f o w).0, (r, (f o w).1))
  unfolding ◌>>=◌
  server_new-calls (ok a) f r w h = finish-moved g (f (ok a) w).0 r (f (ok a) w).1
  server_new-calls (err e) f r w h = finish-moved g (f (err e) w).0 r (f (err e) w).1
  server_new-calls panic f r w h = rw h refl

  pub server_calls :
      (m : Action R E A) (f : Outcome E A → Action W E B) (r : R) (w : W)
      → f panic w ≡ (panic, w)
      → (attempt (on_left m) >>= λ x. on_right (f x) >>= λ b. current >>= λ s. pure (g s b)) (r, w)
        ≡ (map_ok (g ((m r).1, (f (m r).0 w).1)) (f (m r).0 w).0, ((m r).1, (f (m r).0 w).1))
  unfolding ◌>>=◌
  server_calls m f r w h = server_new-calls (m r).0 f (m r).1 w h

  -- A client: the first call is on the writer, the second on the reader.
  client_new-calls :
      (o : Outcome E A) (f : Outcome E A → Action R E B) (r : R) (w : W)
      → f panic r ≡ (panic, r)
      → resume (attempted o) (r, w) (λ x. on_left (f x) >>= λ b. current >>= λ s. pure (g s b))
        ≡ (map_ok (g ((f o r).1, w)) (f o r).0, ((f o r).1, w))
  unfolding ◌>>=◌
  client_new-calls (ok a) f r w h = finish-moved g (f (ok a) r).0 (f (ok a) r).1 w
  client_new-calls (err e) f r w h = finish-moved g (f (err e) r).0 (f (err e) r).1 w
  client_new-calls panic f r w h = rw h refl

  pub client_calls :
      (m : Action W E A) (f : Outcome E A → Action R E B) (r : R) (w : W)
      → f panic r ≡ (panic, r)
      → (attempt (on_right m) >>= λ x. on_left (f x) >>= λ b. current >>= λ s. pure (g s b)) (r, w)
        ≡ (map_ok (g ((f (m w).0 r).1, (m w).1)) (f (m w).0 r).0, ((f (m w).0 r).1, (m w).1))
  unfolding ◌>>=◌
  client_calls m f r w h = client_new-calls (m w).0 f r (m w).1 h

pub map_ok-client_view :
    {A B C : Type 0} (f : B → C) (p : ProtocolVariant) (j w : Str) (x : B) (d : Decision A)
    → map_ok f (client_view p j w x d) ≡ client_view p j w (f x) d
map_ok-client_view f p j w x (Decision.accepted a) = refl
map_ok-client_view f p j w x (Decision.protocol q) = refl
map_ok-client_view f p j w x (Decision.identifier s) = refl
map_ok-client_view f p j w x (Decision.version s) = refl
