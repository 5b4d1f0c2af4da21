-- ===== src/Common/Channel/Dead.antt =====
-- Calls of `send` and `recv` at one end, and a cipher with which all of them fail.
use tcp_handler.Base.{
  ◌≡◌, refl, ap, List, [], ◌∷◌, Bool, true, false, Outcome, ok, err, panic, Action,
}
use mathlib.Core.List.{map}
use tcp_handler.Transport.{Bytes}
use tcp_handler.Crypto.{Crypto}
use tcp_handler.Common.Errors.{PacketError}
use tcp_handler.Common.Cipher.{Cipher}

-- A `send` with what it draws and its message, or a `recv`.
pub data Call : Type 0 where
  send_call : Bytes → Bytes → Call
  recv_call : Call

pub record Endpoint (R W : Type 0) (c : Crypto) : Type 0 where
  pub reader : R
  pub writer : W
  pub cipher : Cipher c

abbrev succeeded : {A : Type 0} → Outcome PacketError A → Bool
succeeded (ok a) = true
succeeded (err e) = false
succeeded panic = false

-- A result that is none, and what is left as it was.
pub data Fails {A S : Type 0} : Outcome PacketError A → S → S → Type 0 where
  with_error : {e : PacketError} {s s' : S} → s' ≡ s → Fails (err e) s s'
  with_panic : {s s' : S} → s' ≡ s → Fails panic s s'

Fails-same :
    {A S : Type 0} {o : Outcome PacketError A} {s s' : S}
    → Fails o s s'
    → (succeeded o ≡ false) × (s' ≡ s)
Fails-same (with_error h) = (refl, h)
Fails-same (with_panic h) = (refl, h)

module _ {R W : Type 0} {c : Crypto}
    (send : Bytes → Bytes → Action (W × Cipher c) PacketError (Unit {0}))
    (recv : Action (R × Cipher c) PacketError Bytes) where
  -- Whether the call succeeds, and what it leaves.
  abbrev perform : Call → Endpoint R W c → Bool × Endpoint R W c
  perform (send_call new_nonce m) s =
      let done = send new_nonce m (s.writer, s.cipher) in
      (succeeded done.0, record s { writer = done.1.0; cipher = done.1.1 })
  perform recv_call s =
      let done = recv (s.reader, s.cipher) in
      (succeeded done.0, record s { reader = done.1.0; cipher = done.1.1 })

  abbrev pub perform_all : List Call → Endpoint R W c → List Bool × Endpoint R W c
  perform_all [] s = ([], s)
  perform_all (call ∷ calls) s =
      let done = perform call s in let rest = perform_all calls done.1 in (done.0 ∷ rest.0, rest.1)

  -- Every call fails, nothing is written, and the cipher stays as it is.
  pub record AllFail (calls : List Call) (s : Endpoint R W c) : Type 0 where
    pub failed : (perform_all calls s).0 ≡ map (λ _. false) calls
    pub silent : (perform_all calls s).1.writer ≡ s.writer
    pub stuck : (perform_all calls s).1.cipher ≡ s.cipher

  pub record IsDead (k : Cipher c) : Type 0 where
    pub send_fails :
        (new_nonce m : Bytes) (w : W)
        → Fails (send new_nonce m (w, k)).0 (w, k) (send new_nonce m (w, k)).1
    pub recv_fails : (r : R) → Fails (recv (r, k)).0 k (recv (r, k)).1.1

  pub IsDead-AllFail :
      (k : Cipher c) (d : IsDead k) (calls : List Call) (r : R) (w : W)
      → AllFail calls (record { reader = r; writer = w; cipher = k })
  IsDead-AllFail k d [] r w = record { failed = refl; silent = refl; stuck = refl }
  IsDead-AllFail k d (send_call new_nonce m ∷ calls) r w =
      let (failed, same) = Fails-same (d.send_fails new_nonce m w) in
      let rest = IsDead-AllFail k d calls r w in
      record {
        failed = rw (failed, same) (ap (◌∷◌ false) rest.failed);
        silent = rw same rest.silent;
        stuck = rw same rest.stuck;
      }
  IsDead-AllFail k d (recv_call ∷ calls) r w =
      let (failed, same) = Fails-same (d.recv_fails r) in
      let rest = IsDead-AllFail k d calls (recv (r, k)).1.0 w in
      record {
        failed = rw (failed, same) (ap (◌∷◌ false) rest.failed);
        silent = rw same rest.silent;
        stuck = rw same rest.stuck;
      }
