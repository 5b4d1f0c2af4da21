-- ===== src/Common/Head/Accepted.antt =====
-- `read_head` on a head that the server accepts, whole or cut short.
use tcp_handler.Base.{◌≡◌, refl, Bool, true, bytes_eq_refl, ok, arith}
use tcp_handler.Transport.{
  Str, unexpected_eof, fixed, u16_raw_be, bools_2, string, Transport, IsLawful,
}
use tcp_handler.Transport.Reads.{Reads, Reads-step, Reads-end, Reads-read, Reads-pass, Reads-pure}
use tcp_handler.Transport.Starves.{Starves, Starves-step, Starves-end, Starves-read, Starves-pass}
use tcp_handler.Common.Variant.{
  ProtocolVariant, to_bools, from_bools, variant_eq, variant_eq_iff, from_bools-to_bools,
}
use tcp_handler.Common.Errors.{StarterError, invalid_stream}
use tcp_handler.Common.Head.{magic_bytes, magic_version, read_head}
use tcp_handler.Common.Head.Wire.{head_bytes}

module _ {t : Transport} (l : IsLawful t) (p : ProtocolVariant) (i v : Str) (accepts : Str → Bool)
    (ac : accepts v ≡ true) where
  open l use {encode}

  same : variant_eq (from_bools (to_bools p)) p ≡ true
  same = rw (from_bools-to_bools p) ((variant_eq_iff p p).1 refl)

  pub Reads-read_head :
      Reads l (head_bytes l p i v) (ok (magic_version, v)) (read_head t p i accepts)
  unfolding read_head
  Reads-read_head = Reads-step l (fixed 4) magic_bytes _ _ refl (
      Reads-pass l _ (bytes_eq_refl magic_bytes) (
        Reads-step l u16_raw_be magic_version _ _ (omega arith) (
          Reads-pass l invalid_stream refl (
            Reads-step l bools_2 (to_bools p) _ _ tt (
              Reads-pass l _ same (
                Reads-step l string i _ _ tt (
                  Reads-pass l _ (bytes_eq_refl i) (
                    Reads-end l _ _ (Reads-read l _ string v tt)
                      (Reads-pass l _ ac (Reads-pure l _))))))))))

  pub Starves-read_head :
      Starves l (head_bytes l p i v) (StarterError.io unexpected_eof) (read_head t p i accepts)
  unfolding read_head
  Starves-read_head = Starves-step l (fixed 4) magic_bytes _ _ refl (
      Starves-pass l _ (bytes_eq_refl magic_bytes) (
        Starves-step l u16_raw_be magic_version _ _ (omega arith) (
          Starves-pass l invalid_stream refl (
            Starves-step l bools_2 (to_bools p) _ _ tt (
              Starves-pass l _ same (
                Starves-step l string i _ _ tt (
                  Starves-pass l _ (bytes_eq_refl i)
                    (Starves-end l _ _ (Starves-read l _ string v tt)))))))))
