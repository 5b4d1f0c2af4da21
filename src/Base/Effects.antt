-- ===== src/Base/Effects.antt =====
-- The result of an `async fn`, and the state passing that its calls on a stream or a cipher become.
use mathlib.Core.Path.{◌≡◌, refl, fun_ext}
use mathlib.Core.Option.{Option, none, some}
use mathlib.Core.Bool.{Bool, true, false}
use mathlib.Core.Logic.{◌⊎◌, inl, inr}

-- `Result<A, E>`, or the unwinding of a panic.
pub data Outcome {ℓ κ} (E : Type ℓ) (A : Type κ) : Type (ℓ ⊔ κ) where
  ok : A → Outcome E A
  err : E → Outcome E A
  panic : Outcome E A

-- A call that is run to its end on the state `S` that it borrows.
abbrev pub Action {ℓ κ μ} : Type ℓ → Type κ → Type μ → Type (ℓ ⊔ κ ⊔ μ)
Action S E A = S → Outcome E A × S

module _ {ℓ κ μ ν} {S : Type ℓ} {E : Type κ} {A : Type μ} {B : Type ν} where
  -- What stands behind a `?`: an error or a panic leaves the function with the state as it is.
  abbrev pub resume : Outcome E A → S → (A → Action S E B) → Outcome E B × S
  resume (ok a) s f = f a s
  resume (err e) s f = (err e, s)
  resume panic s f = (panic, s)

  -- Not an `abbrev`: the rules of an action's specification apply at its shape.
  infixl 5 ◌>>=◌
  unfoldable pub ◌>>=◌ : Action S E A → (A → Action S E B) → Action S E B
  ◌>>=◌ m f s = resume (m s).0 (m s).1 f

infixl 5 ◌>>◌
abbrev pub ◌>>◌ {ℓ κ ν} :
    {S : Type ℓ} {E : Type κ} {B : Type ν} → Action S E (Unit {0}) → Action S E B → Action S E B
m >> k = m >>= λ _. k

module _ {ℓ κ μ} {S : Type ℓ} {E : Type κ} {A : Type μ} where
  abbrev pub pure : A → Action S E A
  pure a s = (ok a, s)

  abbrev pub raise : E → Action S E A
  raise e s = (err e, s)

  -- A value that is known already, such as the result of an earlier call.
  abbrev pub lift : Outcome E A → Action S E A
  lift o s = (o, s)

-- `if !test { return Err(e); }`
abbrev pub ensure {ℓ κ} : {S : Type ℓ} {E : Type κ} → Bool → E → Action S E (Unit {0})
ensure true e s = (ok tt, s)
ensure false e s = (err e, s)

module _ {κ μ ν} {E : Type κ} {F : Type ν} {A : Type μ} where
  -- `Result::map_err`, the conversion that `?` makes by `From`.
  abbrev pub map_err : (E → F) → Outcome E A → Outcome F A
  map_err f (ok a) = ok a
  map_err f (err e) = err (f e)
  map_err f panic = panic

  abbrev pub convert {ℓ} : {S : Type ℓ} → (E → F) → Action S E A → Action S F A
  convert f m s = (map_err f (m s).0, (m s).1)

module _ {ℓ κ μ ν} {S : Type ℓ} {T : Type κ} {E : Type μ} {A : Type ν} where
  -- A call on one of the two things that a function borrows.
  abbrev pub on_left : Action S E A → Action (S × T) E A
  on_left m (s, t) = ((m s).0, ((m s).1, t))

  abbrev pub on_right : Action T E A → Action (S × T) E A
  on_right m (s, t) = ((m t).0, (s, (m t).1))

-- To split on a result and keep the equation.
pub Outcome-cases {κ μ} :
    {E : Type κ} {A : Type μ} (o : Outcome E A)
    → ((a : A) × (o ≡ ok a)) ⊎ (((e : E) × (o ≡ err e)) ⊎ (o ≡ panic))
Outcome-cases (ok a) = inl (a, refl)
Outcome-cases (err e) = inr (inl (e, refl))
Outcome-cases panic = inr (inr refl)

-- Inversion of a successful bind and of a successful conversion.
module _ {ℓ κ μ ν} {S : Type ℓ} {E : Type κ} {A : Type μ} {B : Type ν} where
  resume-ok :
      (o : Outcome E A) (s : S) (f : A → Action S E B) (b : B)
      → (resume o s f).0 ≡ ok b
      → (a : A) × (o ≡ ok a) × ((f a s).0 ≡ ok b)
  resume-ok (ok a) s f b h = (a, refl, h)
  resume-ok (err e) s f b h = cc
  resume-ok panic s f b h = cc

  pub bind-ok :
      (m : Action S E A) (f : A → Action S E B) (s : S) (b : B)
      → ((m >>= f) s).0 ≡ ok b
      → (a : A) × ((m s).0 ≡ ok a) × ((f a (m s).1).0 ≡ ok b)
  unfolding ◌>>=◌
  bind-ok m f s b h = resume-ok (m s).0 (m s).1 f b h

pub map_err-ok {κ μ ν} :
    {E : Type κ} {F : Type ν} {A : Type μ} (c : E → F) (o : Outcome E A) (a : A)
    → map_err c o ≡ ok a
    → o ≡ ok a
map_err-ok c (ok b) a h = cc
map_err-ok c (err e) a h = cc
map_err-ok c panic a h = cc

-- `?` in a function that touches no state.
abbrev pub and_then {κ μ ν} :
    {E : Type κ} {A : Type μ} {B : Type ν} → Outcome E A → (A → Outcome E B) → Outcome E B
and_then (ok a) f = f a
and_then (err e) f = err e
and_then panic f = panic

-- `Option::ok_or`, and a result whose error tells nothing.
abbrev pub ok_or {κ μ} : {E : Type κ} {A : Type μ} → E → Option A → Outcome E A
ok_or e none = err e
ok_or e (some a) = ok a

-- `Result::unwrap`
abbrev pub unwrap {κ μ} : {E : Type κ} {A : Type μ} → Option A → Outcome E A
unwrap none = panic
unwrap (some a) = ok a

-- A function that works on the left part alone does so step by step.
module _ {ℓ κ μ ν ξ} {S : Type ℓ} {T : Type κ} {E : Type μ} {A : Type ν} {B : Type ξ} where
  resume-left :
      (o : Outcome E A) (s : S) (t : T) (f : A → Action S E B)
      → resume o (s, t) (λ a. on_left (f a)) ≡ ((resume o s f).0, ((resume o s f).1, t))
  resume-left (ok a) s t f = refl
  resume-left (err e) s t f = refl
  resume-left panic s t f = refl

  pub on_left-bind :
      (m : Action S E A) (f : A → Action S E B)
      → (on_left {T = T} m >>= λ a. on_left (f a)) ≡ on_left (m >>= f)
  unfolding ◌>>=◌
  on_left-bind m f = fun_ext (λ p. resume-left (m p.0).0 (m p.0).1 p.1 f)
