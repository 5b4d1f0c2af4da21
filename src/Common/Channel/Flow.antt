-- ===== src/Common/Channel/Flow.antt =====
-- The invariant: one end is ahead, and what is on the way leads the other one's nonce to its own.
use tcp_handler.Base.{suc, ◌≡◌, refl, sym, ap, ◌∙◌, List, [], ◌∷◌, ◌++◌, append-nil, length, ok}
use tcp_handler.Transport.{Bytes}
use tcp_handler.Crypto.{Crypto}
use tcp_handler.Common.Channel.{holding, Sealer, Side}

module _ {c : Crypto} (s : Sealer c) where
  -- Packets that are opened one after the other, from a nonce to a nonce, to given messages.
  abbrev pub Chain : c.Aes → Bytes → List Bytes → List Bytes → Bytes → Type 0
  Chain a n [] [] n' = n ≡ n'
  Chain a n [] (m ∷ ms) n' = ⊥
  Chain a n (x ∷ xs) [] n' = ⊥
  Chain a n (x ∷ xs) (m ∷ ms) n' =
      (n₁ : Bytes) × (s.unseal x (holding (a, n)) ≡ (ok m, holding (a, n₁))) × Chain a n₁ xs ms n'

  pub Chain-append :
      (a : c.Aes) (n : Bytes) (xs ms : List Bytes) (n' : Bytes) (x m n'' : Bytes)
      → Chain a n xs ms n'
      → s.unseal x (holding (a, n')) ≡ (ok m, holding (a, n''))
      → Chain a n (xs ++ x ∷ []) (ms ++ m ∷ []) n''
  Chain-append a n [] [] n' x m n'' h e = (n'', rw h e, refl)
  Chain-append a n [] (m₁ ∷ ms) n' x m n'' h e = absurd h
  Chain-append a n (x₁ ∷ xs) [] n' x m n'' h e = absurd h
  Chain-append a n (x₁ ∷ xs) (m₁ ∷ ms) n' x m n'' (n₁, u, h) e =
      (n₁, u, Chain-append a n₁ xs ms n' x m n'' h e)

  pub Chain-length :
      (a : c.Aes) (n : Bytes) (xs ms : List Bytes) (n' : Bytes)
      → Chain a n xs ms n'
      → length ms ≡ length xs
  Chain-length a n [] [] n' h = refl
  Chain-length a n [] (m ∷ ms) n' h = absurd h
  Chain-length a n (x ∷ xs) [] n' h = absurd h
  Chain-length a n (x ∷ xs) (m ∷ ms) n' (n₁, u, h) = ap suc (Chain-length a n₁ xs ms n' h)

  pub record Flow (ahead behind : Side c) : Type 0 where
    pub aes : c.Aes
    pub next : Bytes
    pub last : Bytes
    pub flying : List Bytes
    pub ahead_cipher : ahead.cipher ≡ holding (aes, next)
    pub behind_cipher : behind.cipher ≡ holding (aes, last)
    pub ahead_inbox : ahead.inbox ≡ []
    pub chain : Chain aes last behind.inbox flying next
    pub behind_got : behind.got ++ flying ≡ ahead.sent
    pub ahead_got : ahead.got ≡ behind.sent

  -- When all has arrived, either end is ahead.
  pub Chain-nil :
      (a : c.Aes) (n : Bytes) (ms : List Bytes) (n' : Bytes)
      → Chain a n [] ms n'
      → (ms ≡ []) × (n ≡ n')
  Chain-nil a n [] n' h = (refl, h)
  Chain-nil a n (m ∷ ms) n' h = absurd h

  unfoldable pub turn :
      (ahead behind : Side c) → Flow ahead behind → behind.inbox ≡ [] → Flow behind ahead
  turn ahead behind f e =
      let (none_flying, same) = Chain-nil f.aes f.last f.flying f.next (rw e at f.chain) in
      record {
        aes = f.aes;
        next = f.last;
        last = f.next;
        flying = [];
        ahead_cipher = f.behind_cipher;
        behind_cipher = f.ahead_cipher;
        ahead_inbox = e;
        chain = rw f.ahead_inbox (sym same);
        behind_got = append-nil _ ∙ f.ahead_got;
        ahead_got = sym (append-nil _) ∙ rw none_flying at f.behind_got;
      }
