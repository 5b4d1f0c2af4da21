-- ===== src/Transport/Carries.antt =====
-- One direction of a connection: a reader that gets what was written on a writer meanwhile.
use tcp_handler.Base.{◌≡◌, sym, ◌∙◌, ap, ◌++◌, Outcome, Action}
use tcp_handler.Transport.Defs.{Bytes, Transport}
use tcp_handler.Transport.Laws.{IsLawful}
use tcp_handler.Transport.Emits.{Emits}
use tcp_handler.Transport.Reads.{Reads}
use tcp_handler.Transport.Answers.{Answers}
use mathlib.Core.List.{append_cancel_left}

module _ {t : Transport} (l : IsLawful t) where
  open t use {Writer, Reader}
  open l use {accepted, Healthy, pending}

  -- Between `w` and `w'` the bytes `sent` were accepted, and `r` gets them before all else.
  pub record Carries (w w' : Writer) (r : Reader) : Type 0 where
    pub sent : Bytes
    pub rest : Bytes
    pub wrote : accepted w' ≡ accepted w ++ sent
    pub gets : pending r ≡ sent ++ rest

  module _ {E A : Type 0} {bs : Bytes} {o : Outcome E A} {m : Action Writer E A}
      (em : Emits l bs o m) {w : Writer} (h : Healthy w) {r : Reader}
      (c : Carries w (m w).1 r) where
    arrives : pending r ≡ bs ++ c.rest
    arrives =
        c.gets
        ∙ ap (λ (x : Bytes). x ++ c.rest)
            (append_cancel_left (accepted w) c.sent bs (sym c.wrote ∙ em.appends w h))

    -- What is read of what was written.
    pub Carries-Answers :
        {F B : Type 0} {o' : Outcome F B} {m' : Action Reader F B}
        → Answers l bs o' m'
        → (m' r).0 ≡ o'
    Carries-Answers a = a.returns r c.rest arrives

    pub Carries-Reads :
        {F B : Type 0} {o' : Outcome F B} {m' : Action Reader F B}
        → Reads l bs o' m'
        → (m' r).0 ≡ o'
    Carries-Reads a = a.returns r c.rest arrives

    -- What is not read stays for the next call.
    pub Carries-rest :
        {F B : Type 0} {o' : Outcome F B} {m' : Action Reader F B}
        → Reads l bs o' m'
        → pending (m' r).1 ≡ c.rest
    Carries-rest a = a.leaves r c.rest arrives
