-- ===== src/Common/Tasks/Bodies.antt =====
-- The bodies of `send` and `recv` in the protocols that encrypt, as their parts.
use tcp_handler.Base.{
  ◌≡◌, refl, ap, ◌∙◌, Outcome, ok, err, panic, Action, pure, resume, on_left, on_right, ◌>>=◌, ◌>>◌,
  on_left-bind,
}
use tcp_handler.Transport.{Bytes}
use tcp_handler.Crypto.{Crypto}
use tcp_handler.Common.Errors.{PacketError}
use tcp_handler.Common.Cipher.{Cipher}
use tcp_handler.Common.Tasks.{finish_send, finish_recv}

-- What is awaited after the closure of `send`.
abbrev pub write_and_flush :
    {W : Type 0}
    → (Bytes → Action W PacketError (Unit {0}))
    → Action W PacketError (Unit {0})
    → Bytes
    → Action W PacketError (Unit {0})
write_and_flush write flushing bytes = do write bytes; flushing; pure tt

module _ {W : Type 0} {c : Crypto} (write : Bytes → Action W PacketError (Unit {0}))
    (flushing : Action W PacketError (Unit {0})) where
  abbrev left_body : Bytes → Action (W × Cipher c) PacketError (Unit {0})
  left_body bytes = do on_left (write bytes); on_left flushing; pure tt

  left_body-on_left :
      (bytes : Bytes) → left_body bytes ≡ on_left (write_and_flush write flushing bytes)
  left_body-on_left bytes =
      ap (λ f. on_left (write bytes) >> f) (on_left-bind flushing (λ _. pure tt))
      ∙ on_left-bind (write bytes) (λ _. flushing >> pure tt)

  resumed :
      (o : Outcome PacketError Bytes) (k : Cipher c) (w : W)
      → resume o (w, k) left_body ≡ (
        (finish_send (write_and_flush write flushing) w o).0,
        ((finish_send (write_and_flush write flushing) w o).1, k),
      )
  resumed (ok bytes) k w = ap (λ f. f (w, k)) (left_body-on_left bytes)
  resumed (err e) k w = refl
  resumed panic k w = refl

  pub send_body_parts :
      (seal : Action (Cipher c) PacketError Bytes) (w : W) (k : Cipher c)
      → (on_right seal >>= left_body) (w, k) ≡ (
        (finish_send (write_and_flush write flushing) w (seal k).0).0,
        ((finish_send (write_and_flush write flushing) w (seal k).0).1, (seal k).1),
      )
  unfolding ◌>>=◌
  send_body_parts seal w k = resumed (seal k).0 (seal k).1 w

module _ {R : Type 0} {c : Crypto} (read : Action R PacketError Bytes)
    (unseal : Bytes → Action (Cipher c) PacketError Bytes) where
  opened :
      (o : Outcome PacketError Bytes) (r : R) (k : Cipher c)
      → resume o (r, k) (λ bytes. on_right (unseal bytes))
        ≡ ((finish_recv unseal k o).0, (r, (finish_recv unseal k o).1))
  opened (ok bytes) r k = refl
  opened (err e) r k = refl
  opened panic r k = refl

  pub recv_body_parts :
      (r : R) (k : Cipher c)
      → (on_left read >>= λ bytes. on_right (unseal bytes)) (r, k)
        ≡ ((finish_recv unseal k (read r).0).0, ((read r).1, (finish_recv unseal k (read r).0).1))
  unfolding ◌>>=◌
  recv_body_parts r k = opened (read r).0 (read r).1 k
