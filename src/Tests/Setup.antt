-- ===== src/Tests/Setup.antt =====
-- A cipher and a compression for the runs: a packet names the nonce that it was sealed under, and
-- a compressed message its level.
use tcp_handler.Base.{
  ℕ, zero, suc, ◌≡◌, ◌≢◌, refl, sym, [], ◌∷◌, ◌++◌, append-nil, length, take, drop, take-append,
  drop-append, Bool, true, Option, none, some, Outcome, ok, err, bytes_eq, bytes_eq_refl,
  bytes_eq-ne, ◌==◌, if◌then◌else◌, arith,
}
use tcp_handler.Config.{Config}
use tcp_handler.Transport.{Bytes, Str, IoError, other}
use tcp_handler.Transport.Carries.{Carries}
use tcp_handler.Transport.Delivers.{IsLazy}
use tcp_handler.Transport.Memory.{write, MemoryWriter}
use tcp_handler.Transport.Memory.Proofs.{memory-IsLawful}
use tcp_handler.Crypto.{Crypto, IsCrypto, IsAuthentic, Deflate, IsDeflate}
use tcp_handler.Common.Errors.{RsaError, rsa_error}

abbrev from_bytes_le : Bytes → ℕ
from_bytes_le [] = 0
from_bytes_le (x ∷ _) = x

abbrev rsa_decrypt : ℕ → Bytes → Outcome RsaError Bytes
rsa_decrypt k [] = err (rsa_error 0)
rsa_decrypt k (x ∷ m) = if x == k then ok m else err (rsa_error 1)

abbrev decrypt : Bytes → Bytes → Option Bytes
decrypt nonce [] = none
decrypt nonce (n ∷ y) = if bytes_eq (take n y) nonce then some (drop n y) else none

abbrev pub toy : Crypto
toy = record {
  Seed = ℕ;
  PrivateKey = ℕ;
  PublicKey = ℕ;
  new_private = λ seed bits. ok seed;
  n = λ k. k;
  e = λ k. 3;
  new_public = λ n e. ok n;
  to_bytes_le = λ x. x ∷ [];
  from_bytes_le = from_bytes_le;
  rsa_encrypt = λ k seed m. ok (k ∷ m);
  rsa_decrypt = rsa_decrypt;
  Aes = Bytes;
  aes_new = λ key. key;
  aes_new_from_slice = λ key. if length key == 32 then some key else none;
  encrypt_in_place = λ a nonce m. some (length nonce ∷ nonce ++ m);
  decrypt_in_place = λ a. decrypt;
}

some_injective : {x y : Bytes} → some x ≡ some y → x ≡ y
some_injective e = cc

ok_injective {ℓ} : {E : Type ℓ} {x y : Bytes} → ◌≡◌ {A = Outcome E Bytes} (ok x) (ok y) → x ≡ y
ok_injective e = cc

pub rsa_undone :
    (k : ℕ) (m x : Bytes)
    → ◌≡◌ {A = Outcome RsaError Bytes} (ok (k ∷ m)) (ok x)
    → rsa_decrypt k x ≡ ok m
rsa_undone k m x e = rw (← ok_injective e) (ground arith)

pub decrypt-encrypt_toy :
    (nonce m x : Bytes) → some (length nonce ∷ nonce ++ m) ≡ some x → decrypt nonce x ≡ some m
decrypt-encrypt_toy nonce m x e =
    rw (← some_injective e, take-append nonce m, bytes_eq_refl nonce, drop-append nonce m) refl

decrypt_other_toy :
    (nonce nonce' m x : Bytes)
    → some (length nonce ∷ nonce ++ m) ≡ some x
    → nonce ≢ nonce'
    → decrypt nonce' x ≡ none
decrypt_other_toy nonce nonce' m x e ne =
    rw (← some_injective e, take-append nonce m, bytes_eq-ne nonce nonce' ne) refl

unfoldable pub toy-IsCrypto : IsCrypto toy
toy-IsCrypto = record {
  bytes_le = λ x. refl;
  public = λ k. k;
  new_public-public = λ s bits k e. refl;
  rsa_decrypt-encrypt = λ k s m x e. rsa_undone k m x e;
  aes_new_from_slice-new = λ key h. rw h refl;
  decrypt-encrypt = λ a nonce m x e. decrypt-encrypt_toy nonce m x e;
}

pub toy-IsAuthentic : IsAuthentic toy
toy-IsAuthentic = record { decrypt_other = λ a. decrypt_other_toy }

abbrev inflate : Bytes → Outcome IoError Bytes
inflate [] = err other
inflate (_ ∷ m) = ok m

abbrev pub toy_deflate : Deflate
toy_deflate = record { deflate = λ level m. ok (level ∷ m); inflate = inflate }

inflate_undone :
    (level : ℕ) (m x : Bytes)
    → ◌≡◌ {A = Outcome IoError Bytes} (ok (level ∷ m)) (ok x)
    → inflate x ≡ ok m
inflate_undone level m x e = rw (← ok_injective e) refl

pub toy-IsDeflate : IsDeflate toy_deflate
toy-IsDeflate = record { inflate-deflate = inflate_undone }

-- A writer that has sent nothing.
abbrev pub fresh_writer : MemoryWriter
fresh_writer = record { sent = []; buffered = [] }

-- The reader at the other end, which gets all that the writer accepted.
abbrev pub other_end : MemoryWriter → Bytes
other_end w = w.sent ++ w.buffered

unfoldable pub carried : (w : MemoryWriter) → Carries memory-IsLawful fresh_writer w (other_end w)
unfolding memory-IsLawful
carried w = record { sent = other_end w; rest = []; wrote = refl; gets = sym (append-nil _) }

abbrev pub small : Config
small = record { max_packet_size = 40; compression = 6 }

-- The identifier "test", the version "1", and a server that takes any version.
abbrev pub test : Str
test = 116 ∷ 101 ∷ 115 ∷ 116 ∷ []

abbrev pub one : Str
one = 49 ∷ []

abbrev pub any : Str → Bool
any _ = true

abbrev repeated : ℕ → ℕ → Bytes
repeated zero x = []
repeated (suc n) x = x ∷ repeated n x

abbrev pub aes_key : Bytes
aes_key = repeated 32 5

abbrev pub first_nonce : Bytes
first_nonce = repeated 12 1

abbrev pub second_nonce : Bytes
second_nonce = repeated 12 2

abbrev pub third_nonce : Bytes
third_nonce = repeated 12 3

-- "hello", and a message above the limit.
abbrev pub hello : Bytes
hello = 104 ∷ 101 ∷ 108 ∷ 108 ∷ 111 ∷ []

abbrev pub too_long : Bytes
too_long = repeated 41 7

pub memory-IsLazy : IsLazy memory-IsLawful
unfolding memory-IsLawful write
memory-IsLazy = record { write-delivered = λ k v w. refl }
