-- ===== src/Common/Tasks/Closures.antt =====
-- A closure, by the steps that its call takes.
use tcp_handler.Base.{◌≡◌, refl, ap, ◌∙◌, ok, Action, ◌>>=◌}
use tcp_handler.Transport.{Bytes}
use tcp_handler.Crypto.{Crypto}
use tcp_handler.Common.Errors.{PacketError}
use tcp_handler.Common.Cipher.{InnerAesCipher, Cipher, get}
use tcp_handler.Common.Tasks.{Failure, error, unwinding, failed, finish_send, finish_recv, Parts}

module _ {c : Crypto} {A B : Type 0} where
  bind-ok :
      (m : Action (Cipher c) PacketError A) (f : A → Action (Cipher c) PacketError B)
      (k k' : Cipher c) (x : A)
      → m k ≡ (ok x, k')
      → (m >>= f) k ≡ f x k'
  unfolding ◌>>=◌
  bind-ok m f k k' x h = rw h refl

  bind-failed :
      (m : Action (Cipher c) PacketError A) (f : A → Action (Cipher c) PacketError B)
      (k k' : Cipher c) (x : Failure)
      → m k ≡ (failed x, k')
      → (m >>= f) k ≡ (failed x, k')
  unfolding ◌>>=◌
  bind-failed m f k k' (error e) h = rw h refl
  bind-failed m f k k' unwinding h = rw h refl

pub finish_send-failed :
    {W : Type 0} (put : Bytes → Action W PacketError (Unit {0})) (w : W) (f : Failure)
    → finish_send put w (failed f) ≡ (failed f, w)
finish_send-failed put w (error e) = refl
finish_send-failed put w unwinding = refl

pub finish_recv-failed :
    {K : Type 0} (unseal : Bytes → Action K PacketError Bytes) (k : K) (f : Failure)
    → finish_recv unseal k (failed f) ≡ (failed f, k)
finish_recv-failed unseal k (error e) = refl
finish_recv-failed unseal k unwinding = refl

-- The closures, by the steps that a call takes.
module _ {R W : Type 0} {c : Crypto} (p : Parts R W c) where
  pub seal_early :
      (new_nonce m : Bytes) (f : Failure) (k : Cipher c)
      → p.prepare new_nonce m ≡ failed f
      → p.seal new_nonce m k ≡ (failed f, k)
  seal_early new_nonce m f k h =
      ap (λ g. g k) (p.seal_parts new_nonce m) ∙ bind-failed _ _ k k f (ap (λ o. (o, k)) h)

  seal_prepared :
      (new_nonce m plain : Bytes) (k : Cipher c)
      → p.prepare new_nonce m ≡ ok plain
      → p.seal new_nonce m k ≡ (get >>= p.seal_locked new_nonce plain) k
  seal_prepared new_nonce m plain k h =
      ap (λ g. g k) (p.seal_parts new_nonce m) ∙ bind-ok _ _ k k plain (ap (λ o. (o, k)) h)

  module _ (new_nonce m plain : Bytes) (k k' : Cipher c)
      (h : p.prepare new_nonce m ≡ ok plain) where
    pub seal_no_cipher :
        (f : Failure) → get k ≡ (failed f, k') → p.seal new_nonce m k ≡ (failed f, k')
    seal_no_cipher f g = seal_prepared new_nonce m plain k h ∙ bind-failed _ _ k k' f g

    pub seal_under :
        (inner : InnerAesCipher c)
        → get k ≡ (ok inner, k')
        → p.seal new_nonce m k ≡ p.seal_locked new_nonce plain inner k'
    seal_under inner g = seal_prepared new_nonce m plain k h ∙ bind-ok _ _ k k' inner g

  module _ (x : Bytes) (k k' : Cipher c) where
    pub unseal_no_cipher : (f : Failure) → get k ≡ (failed f, k') → p.unseal x k ≡ (failed f, k')
    unseal_no_cipher f g = ap (λ u. u k) (p.unseal_parts x) ∙ bind-failed _ _ k k' f g

    pub unseal_under :
        (inner : InnerAesCipher c)
        → get k ≡ (ok inner, k')
        → p.unseal x k ≡ p.unseal_locked x inner k'
    unseal_under inner g = ap (λ u. u k) (p.unseal_parts x) ∙ bind-ok _ _ k k' inner g
