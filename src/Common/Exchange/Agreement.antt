-- ===== src/Common/Exchange/Agreement.antt =====
-- The whole handshake of the protocols without encryption, for any variant on either side.
use tcp_handler.Base.{ℕ, ◌≡◌, Bool, Outcome, ok, Action, ◌>>=◌, ◌>>◌, pure}
use tcp_handler.Transport.{Str, Transport, IsLawful}
use tcp_handler.Transport.Emits.{Emits}
use tcp_handler.Transport.Carries.{Carries, Carries-Answers, Carries-Reads}
use tcp_handler.Common.Variant.{ProtocolVariant}
use tcp_handler.Common.Errors.{StarterError, starter}
use tcp_handler.Common.Decision.{decide, server_view, client_view}
use tcp_handler.Common.Head.{write_head, read_head}
use tcp_handler.Common.Head.Wire.{head_bytes, head_result, Emits-write_head, Answers-read_head}
use tcp_handler.Common.Last.{write_last, read_last, flush}
use tcp_handler.Common.Last.Wire.{Reads-read_last}
use tcp_handler.Common.Exchange.{Emits-then_flush, Emits-answer}

-- `client_init` and `server_start` of raw.rs and compress.rs, which differ in the variant alone.
module _ (t : Transport) (p : ProtocolVariant) where
  abbrev pub client_init : Bool → Str → Str → Action t.Writer StarterError (Unit {0})
  client_init af i v = do write_head t p i v; starter (flush t af); pure tt

  abbrev pub server_start :
      Bool → Str → Str → Outcome StarterError (ℕ × Str) → Action t.Writer StarterError (ℕ × Str)
  server_start af i v last = do res ← write_last t p i v last; starter (flush t af); pure res

module _ {t : Transport} (l : IsLawful t) (p q : ProtocolVariant) (af : Bool) (i v j w : Str)
    (accepts : Str → Bool) {cw sw : t.Writer} {sr cr : t.Reader} (ch : l.Healthy cw)
    (sh : l.Healthy sw) (up : Carries l cw (client_init t p af i v cw).1 sr)
    (down : Carries l sw (server_start t q af j w (read_head t q j accepts sr).0 sw).1 cr) where
  opening : Emits l (head_bytes l p i v) (ok tt) (client_init t p af i v)
  opening = Emits-then_flush l StarterError.io af _ (λ _. tt) (Emits-write_head l p i v)

  decided : (read_head t q j accepts sr).0 ≡ server_view head_result (decide p i v q j accepts)
  decided = Carries-Answers l opening ch up (Answers-read_head l p q i v j accepts)

  pub agreement :
      ((server_start t q af j w (read_head t q j accepts sr).0 sw).0
        ≡ server_view head_result (decide p i v q j accepts))
      × ((read_last t (client_init t p af i v cw).0 cr).0
          ≡ client_view q j w tt (decide p i v q j accepts))
  agreement =
      let d = decide p i v q j accepts in
      let answer = Emits-answer l q j w af head_result d in
      (
        rw decided (answer.returns sw sh),
        rw (opening.returns cw ch)
            (Carries-Reads l answer sh (rw decided at down) (Reads-read_last l q j w tt d)),
      )
