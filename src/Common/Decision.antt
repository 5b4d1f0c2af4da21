-- ===== src/Common/Decision.antt =====
-- The server's decision on a client's head, apart from how it is told.
use tcp_handler.Base.{
  ◌≡◌, refl, sym, ◌∙◌, ◌↔◌, Bool, true, ◌⊎◌, inl, inr, Option, none, some, bytes_eq, bytes_eq_refl,
  bytes_eq→eq, Bool-cases, if◌then◌else◌, Outcome, ok, err, arith,
}
use tcp_handler.Transport.{Str}
use tcp_handler.Common.Variant.{ProtocolVariant, variant_eq, variant_eq_iff}
use tcp_handler.Common.Errors.{StarterError, invalid_protocol, invalid_identifier, invalid_version}

pub data Decision (A : Type 0) : Type 0 where
  accepted : A → Decision A
  protocol : ProtocolVariant → Decision A
  identifier version : Str → Decision A

-- The client's protocol, identifier and version, against the server's protocol and identifier and
-- its test on versions.
abbrev pub decide :
    ProtocolVariant → Str → Str → ProtocolVariant → Str → (Str → Bool) → Decision Str
decide p i v q j accepts =
    if variant_eq p q
    then (if bytes_eq i j then (if accepts v then accepted v else version v) else identifier i)
    else protocol p

-- The server's own result, which names the client's values.
abbrev pub server_view : {A B : Type 0} → (A → B) → Decision A → Outcome StarterError B
server_view f (accepted a) = ok (f a)
server_view f (protocol q) = err (invalid_protocol q)
server_view f (identifier s) = err (invalid_identifier s)
server_view f (version s) = err (invalid_version s)

-- The client's result, which names the server's values.
abbrev pub client_view :
    {A B : Type 0} → ProtocolVariant → Str → Str → B → Decision A → Outcome StarterError B
client_view q j w extra (accepted _) = ok extra
client_view q j w extra (protocol _) = err (invalid_protocol q)
client_view q j w extra (identifier _) = err (invalid_identifier j)
client_view q j w extra (version _) = err (invalid_version w)

pub server_view-decide :
    {B : Type 0} (f : Str → B) (p : ProtocolVariant) (i v : Str) (q : ProtocolVariant) (j : Str)
    (accepts : Str → Bool)
    → server_view f (decide p i v q j accepts) ≡ (
        if variant_eq p q
        then (if bytes_eq i j
            then (if accepts v then ok (f v) else err (invalid_version v))
            else err (invalid_identifier i))
        else err (invalid_protocol p))
server_view-decide f p i v q j accepts = ground arith

-- The server's error, where there is one.
abbrev pub refusal : {A : Type 0} → Decision A → Option StarterError
refusal (accepted a) = none
refusal (protocol q) = some (invalid_protocol q)
refusal (identifier s) = some (invalid_identifier s)
refusal (version s) = some (invalid_version s)

pub server_view-refused :
    {A B : Type 0} (f : A → B) (d : Decision A) (e : StarterError)
    → refusal d ≡ some e
    → server_view f d ≡ err e
server_view-refused f (accepted a) e h = cc
server_view-refused f (protocol q) e h = cc
server_view-refused f (identifier s) e h = cc
server_view-refused f (version s) e h = cc

module _ (p : ProtocolVariant) (i v : Str) (q : ProtocolVariant) (j : Str)
    (accepts : Str → Bool) where
  -- Exactly a client of the same protocol and identifier, with a version that passes the test, is
  -- accepted.
  pub decide_cases :
      ((decide p i v q j accepts ≡ accepted v) × (p ≡ q) × (i ≡ j) × (accepts v ≡ true))
      ⊎ ((e : StarterError) × (refusal (decide p i v q j accepts) ≡ some e))
  decide_cases = elim (Bool-cases (variant_eq p q)) [
    | inr h ↦ inr (invalid_protocol p, rw h)
    | inl h ↦ elim (Bool-cases (bytes_eq i j)) [
      | inr k ↦ inr (invalid_identifier i, rw (h, k))
      | inl k ↦ elim (Bool-cases (accepts v)) [
        | inr m ↦ inr (invalid_version v, rw (h, k, m))
        | inl m ↦ inl (rw (h, k, m), (variant_eq_iff p q).0 h, bytes_eq→eq i j k, m)
      ]
    ]
  ]

-- A client that is not refused was accepted.
pub client_view-ok :
    {A B : Type 0} (q : ProtocolVariant) (j w : Str) (x : B) (d : Decision A)
    → client_view q j w x d ≡ ok x
    → refusal d ≡ none
client_view-ok q j w x (accepted a) h = refl
client_view-ok q j w x (protocol r) h = cc
client_view-ok q j w x (identifier s) h = cc
client_view-ok q j w x (version s) h = cc

pub decide-accepts :
    (p : ProtocolVariant) (i v j : Str) (accepts : Str → Bool)
    → i ≡ j
    → accepts v ≡ true
    → decide p i v p j accepts ≡ accepted v
decide-accepts p i v j accepts e h = rw (← e, h, bytes_eq_refl i, (variant_eq_iff p p).1 refl) refl

-- For one protocol on both sides: who is let in.
pub established_iff :
    {B : Type 0} (p : ProtocolVariant) (i v j w : Str) (accepts : Str → Bool) (x : B)
    → (client_view p j w x (decide p i v p j accepts) ≡ ok x) ↔ ((i ≡ j) × (accepts v ≡ true))
established_iff p i v j w accepts x = (
  λ h. elim (decide_cases p i v p j accepts) [
    | inl (d, same, e, a) ↦ (e, a)
    | inr (e, refused) ↦ absurd (none_ne_some (sym (client_view-ok p j w x _ h) ∙ refused))
  ],
  λ (e, a). rw (decide-accepts p i v j accepts e a) refl,
)
  where
    none_ne_some : {e : StarterError} → none ≡ some e → ⊥
    none_ne_some h = cc
