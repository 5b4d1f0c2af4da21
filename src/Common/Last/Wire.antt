-- ===== src/Common/Last/Wire.antt =====
-- The bytes of an answer: what `write_last` sends, and what `read_last` makes of them.
use tcp_handler.Base.{◌++◌, Bool, true, false, ok, err, Action, ◌>>◌, raise}
use tcp_handler.Transport.{Bytes, Str, Kind, Value, bools_2, string, Transport, IsLawful, Fits}
use tcp_handler.Transport.Emits.{Emits, Emits-step, Emits-end, Emits-write, Emits-pure, Emits-lift}
use tcp_handler.Transport.Reads.{
  Reads, Reads-bind, Reads-step, Reads-end, Reads-read, Reads-pure, Reads-raise, Reads-lift,
}
use tcp_handler.Common.Variant.{ProtocolVariant, to_bools, from_bools-to_bools}
use tcp_handler.Common.Errors.{
  StarterError, invalid_protocol, invalid_identifier, invalid_version, starter,
}
use tcp_handler.Common.Decision.{
  Decision, accepted, protocol, identifier, version, server_view, client_view,
}
use tcp_handler.Common.Last.{write_last, read_last}

module _ {t : Transport} (l : IsLawful t) where
  open l use {encode}

  abbrev pub answer_bytes : {A : Type 0} → ProtocolVariant → Str → Str → Decision A → Bytes
  answer_bytes p i v (accepted _) = encode bools_2 (true, true)
  answer_bytes p i v (protocol _) = encode bools_2 (false, false) ++ encode bools_2 (to_bools p)
  answer_bytes p i v (identifier _) = encode bools_2 (false, true) ++ encode string i
  answer_bytes p i v (version _) = encode bools_2 (true, false) ++ encode string v

  -- The state bits, a datum, and the server's own error.
  module _ {A : Type 0} (bits : Bool × Bool) (k : Kind) (x : Value k) (e : StarterError) where
    abbrev refusal : Action t.Writer StarterError A
    refusal = do
      do starter (t.write bools_2 bits); starter (t.write k x)
      raise e

    Emits-refusal : Fits k x → Emits l (encode bools_2 bits ++ encode k x) (err e) refusal
    Emits-refusal h =
        Emits-end l _ _ (Emits-step l bools_2 bits _ _ tt (Emits-write l _ k x h)) (Emits-lift l _)

  -- On a healthy writer the server returns its decision and sends the answer that belongs to it.
  pub Emits-write_last :
      {A B : Type 0} (p : ProtocolVariant) (i v : Str) (f : A → B) (d : Decision A)
      → Emits l (answer_bytes p i v d) (server_view f d) (write_last t p i v (server_view f d))
  unfolding write_last
  Emits-write_last p i v f (accepted a) =
      Emits-end l _ _ (Emits-write l _ bools_2 (true, true) tt) (Emits-pure l (f a))
  Emits-write_last p i v f (protocol q) =
      Emits-refusal (false, false) bools_2 (to_bools p) (invalid_protocol q) tt
  Emits-write_last p i v f (identifier s) =
      Emits-refusal (false, true) string i (invalid_identifier s) tt
  Emits-write_last p i v f (version s) = Emits-refusal (true, false) string v (invalid_version s) tt

  pub Reads-read_last :
      {A B : Type 0} (p : ProtocolVariant) (i v : Str) (extra : B) (d : Decision A)
      → Reads l (answer_bytes p i v d) (client_view p i v extra d) (read_last t (ok extra))
  unfolding read_last
  Reads-read_last p i v extra (accepted a) =
      Reads-bind l _ _ (Reads-lift l (ok extra))
        (Reads-end l _ _ (Reads-read l _ bools_2 (true, true) tt) (Reads-pure l extra))
  Reads-read_last p i v extra (protocol q) = Reads-bind l _ _ (Reads-lift l (ok extra)) (
      Reads-step l bools_2 (false, false) _ _ tt
        (Reads-end l _ _ (Reads-read l _ bools_2 (to_bools p) tt)
          (rw (from_bools-to_bools p) (Reads-raise l _))))
  Reads-read_last p i v extra (identifier s) = Reads-bind l _ _ (Reads-lift l (ok extra)) (
      Reads-step l bools_2 (false, true) _ _ tt
        (Reads-end l _ _ (Reads-read l _ string i tt) (Reads-raise l _)))
  Reads-read_last p i v extra (version s) = Reads-bind l _ _ (Reads-lift l (ok extra)) (
      Reads-step l bools_2 (true, false) _ _ tt
        (Reads-end l _ _ (Reads-read l _ string v tt) (Reads-raise l _)))
