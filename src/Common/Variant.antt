-- ===== src/Common/Variant.antt =====
-- `ProtocolVariant` and its two bits on the wire.
use mathlib.Core.Equiv.{IsEquiv, iso_to_equiv}
use tcp_handler.Base.{◌≡◌, refl, ap, ◌∙◌, sym, Bool, true, false, ◌↔◌, arith}

pub data ProtocolVariant : Type 0 where
  raw compression encryption compress_encryption : ProtocolVariant

-- `From<[bool; 2]> for ProtocolVariant`
unfoldable pub from_bools : Bool × Bool → ProtocolVariant
from_bools (false, false) = raw
from_bools (false, true) = compression
from_bools (true, false) = encryption
from_bools (true, true) = compress_encryption

-- `From<ProtocolVariant> for [bool; 2]`
unfoldable pub to_bools : ProtocolVariant → Bool × Bool
to_bools raw = (false, false)
to_bools compression = (false, true)
to_bools encryption = (true, false)
to_bools compress_encryption = (true, true)

-- The derived `PartialEq`.
unfoldable pub variant_eq : ProtocolVariant → ProtocolVariant → Bool
variant_eq raw raw = true
variant_eq compression compression = true
variant_eq encryption encryption = true
variant_eq compress_encryption compress_encryption = true
variant_eq _ _ = false

pub from_bools-to_bools : (v : ProtocolVariant) → from_bools (to_bools v) ≡ v
unfolding from_bools to_bools
from_bools-to_bools raw = refl
from_bools-to_bools compression = refl
from_bools-to_bools encryption = refl
from_bools-to_bools compress_encryption = refl

pub to_bools-from_bools : (b : Bool × Bool) → to_bools (from_bools b) ≡ b
unfolding from_bools to_bools
to_bools-from_bools (false, false) = refl
to_bools-from_bools (false, true) = refl
to_bools-from_bools (true, false) = refl
to_bools-from_bools (true, true) = refl

pub variant_eq_iff : (a b : ProtocolVariant) → (variant_eq a b ≡ true) ↔ (a ≡ b)
unfolding variant_eq
variant_eq_iff a b = ground arith

to_bools-IsEquiv : IsEquiv to_bools
to_bools-IsEquiv =
    (iso_to_equiv (record {
      fun = to_bools;
      inv = from_bools;
      rinv = to_bools-from_bools;
      linv = from_bools-to_bools;
    })).1

to_bools_injective : (a b : ProtocolVariant) → to_bools a ≡ to_bools b → a ≡ b
to_bools_injective a b h = sym (from_bools-to_bools a) ∙ ap from_bools h ∙ from_bools-to_bools b

variant_eq_bits : (a b : ProtocolVariant) → (variant_eq a b ≡ true) ↔ (to_bools a ≡ to_bools b)
variant_eq_bits a b = (
  λ h. ap to_bools ((variant_eq_iff a b).0 h),
  λ h. (variant_eq_iff a b).1 (to_bools_injective a b h),
)

-- The conversion of the protocols to two bits is an equivalence of types, so any two bits that are
-- read belong to exactly one protocol; `from_bools` is its inverse; and two protocols are equal by
-- the derived `PartialEq` exactly if their bits are equal.
bits_of_variants :
    IsEquiv to_bools
    × ((b : Bool × Bool) → to_bools (from_bools b) ≡ b)
    × ((a b : ProtocolVariant) → (variant_eq a b ≡ true) ↔ (to_bools a ≡ to_bools b))
bits_of_variants = (to_bools-IsEquiv, to_bools-from_bools, variant_eq_bits)
