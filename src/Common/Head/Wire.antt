-- ===== src/Common/Head/Wire.antt =====
-- The bytes of a head: what `write_head` sends, and what `read_head` makes of any head.
use tcp_handler.Base.{
  ℕ, refl, Bool, ◌++◌, bytes_eq, bytes_eq_refl, Outcome, ok, ◌>>=◌, ◌>>◌, pure, ensure, arith,
}
use tcp_handler.Transport.{Bytes, Str, fixed, u16_raw_be, bools_2, string, Transport, IsLawful}
use tcp_handler.Transport.Emits.{Emits, Emits-step, Emits-end, Emits-write, Emits-pure}
use tcp_handler.Transport.Reads.{Reads-read, Reads-pure}
use tcp_handler.Transport.Answers.{
  Answers, Reads-Answers, Answers-step, Answers-end, Answers-ensure, Answers-ensure_pass,
}
use tcp_handler.Common.Variant.{ProtocolVariant, to_bools, variant_eq, from_bools-to_bools}
use tcp_handler.Common.Errors.{
  StarterError, invalid_stream, invalid_protocol, invalid_identifier, invalid_version, starter,
}
use tcp_handler.Common.Decision.{Decision, decide, server_view, server_view-decide}
use tcp_handler.Common.Head.{magic_bytes, magic_version, write_head, read_head}

-- `Ok((protocol_version, version_read))`, or the error that names what the client sent.
abbrev pub head_result : Str → ℕ × Str
head_result v = (magic_version, v)

abbrev pub result : Decision Str → Outcome StarterError (ℕ × Str)
result = server_view head_result

module _ {t : Transport} (l : IsLawful t) where
  open l use {encode}

  abbrev pub head_bytes : ProtocolVariant → Str → Str → Bytes
  head_bytes p i v =
      encode (fixed 4) magic_bytes
      ++ (encode u16_raw_be magic_version
          ++ (encode bools_2 (to_bools p) ++ (encode string i ++ encode string v)))

  pub Emits-write_head :
      (p : ProtocolVariant) (i v : Str) → Emits l (head_bytes p i v) (ok tt) (write_head t p i v)
  unfolding write_head
  Emits-write_head p i v = Emits-step l (fixed 4) magic_bytes _ _ refl (
      Emits-step l u16_raw_be magic_version _ _ (omega arith) (
        Emits-step l bools_2 (to_bools p) _ _ tt (
          Emits-step l string i _ _ tt
            (Emits-end l _ _ (Emits-write l _ string v tt) (Emits-pure l tt)))))

  -- From the test of the protocol on.
  body :
      (p q : ProtocolVariant) (i v j : Str) (accepts : Str → Bool)
      → Answers l (encode string i ++ encode string v) (result (decide p i v q j accepts)) (do
        ensure (variant_eq p q) (invalid_protocol p)
        identifier_read ← starter (t.read string)
        ensure (bytes_eq identifier_read j) (invalid_identifier identifier_read)
        version_read ← starter (t.read string)
        ensure (accepts version_read) (invalid_version version_read)
        pure (magic_version, version_read))
  body p q i v j accepts = rw (server_view-decide head_result p i v q j accepts) (
      Answers-ensure l (variant_eq p q) _ (
        Answers-step l string i _ _ tt (
          Answers-ensure l (bytes_eq i j) _ (
            Answers-end l _ _ (Reads-read l _ string v tt)
              (Answers-ensure l (accepts v) _ (Reads-Answers l (Reads-pure l _)))))))

  -- The server's decision, on any head that a client of this crate can send.
  pub Answers-read_head :
      (p q : ProtocolVariant) (i v j : Str) (accepts : Str → Bool)
      → Answers l (head_bytes p i v) (result (decide p i v q j accepts)) (read_head t q j accepts)
  unfolding read_head
  Answers-read_head p q i v j accepts = Answers-step l (fixed 4) magic_bytes _ _ refl (
      Answers-ensure_pass l _ _ (bytes_eq_refl magic_bytes) (
        Answers-step l u16_raw_be magic_version _ _ (omega arith) (
          Answers-ensure_pass l _ invalid_stream refl (
            Answers-step l bools_2 (to_bools p) _ _ tt
              (rw (from_bools-to_bools p) (body p q i v j accepts))))))
