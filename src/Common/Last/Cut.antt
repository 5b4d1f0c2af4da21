-- ===== src/Common/Last/Cut.antt =====
-- An answer of the server that does not arrive whole.
use tcp_handler.Base.{true, false, ok}
use tcp_handler.Transport.{Str, unexpected_eof, bools_2, string, Transport, IsLawful}
use tcp_handler.Transport.Reads.{Reads-lift}
use tcp_handler.Transport.Starves.{
  Starves, Starves-bind, Starves-step, Starves-end, Starves-read, Starves-none,
}
use tcp_handler.Common.Variant.{ProtocolVariant, to_bools}
use tcp_handler.Common.Errors.{StarterError}
use tcp_handler.Common.Decision.{Decision, accepted, protocol, identifier, version}
use tcp_handler.Common.Last.{read_last}
use tcp_handler.Common.Last.Wire.{answer_bytes}

module _ {t : Transport} (l : IsLawful t) where
  pub Starves-read_last :
      {A B : Type 0} (p : ProtocolVariant) (i v : Str) (extra : B) (d : Decision A)
      → Starves l (answer_bytes l p i v d) (StarterError.io unexpected_eof) (read_last t (ok extra))
  unfolding read_last
  Starves-read_last p i v extra (accepted a) =
      Starves-bind l _ _ (Reads-lift l (ok extra)) (Starves-none l _ _)
        (Starves-end l _ _ (Starves-read l _ bools_2 (true, true) tt))
  Starves-read_last p i v extra (protocol q) =
      Starves-bind l _ _ (Reads-lift l (ok extra)) (Starves-none l _ _) (
        Starves-step l bools_2 (false, false) _ _ tt
          (Starves-end l _ _ (Starves-read l _ bools_2 (to_bools p) tt)))
  Starves-read_last p i v extra (identifier s) =
      Starves-bind l _ _ (Reads-lift l (ok extra)) (Starves-none l _ _) (
        Starves-step l bools_2 (false, true) _ _ tt
          (Starves-end l _ _ (Starves-read l _ string i tt)))
  Starves-read_last p i v extra (version s) =
      Starves-bind l _ _ (Reads-lift l (ok extra)) (Starves-none l _ _) (
        Starves-step l bools_2 (true, false) _ _ tt
          (Starves-end l _ _ (Starves-read l _ string v tt)))
