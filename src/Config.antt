-- ===== src/Config.antt =====
-- src/config.rs: the configuration, what each function does with it, and the lock around it. The
-- functions that take the lock are in the child `Global`.
pub mod Global
use tcp_handler.Base.{ℕ, ◌^◌, Bool, false, if◌then◌else◌, Outcome, ok, panic, Action, and_then}

-- `flate2::Compression` is its level.
pub record Config : Type 0 where
  pub max_packet_size : ℕ
  pub compression : ℕ

-- `Config::default()`; the level is that of `flate2::Compression::default()`.
unfoldable pub default : ℕ → Config
default default_level = record { max_packet_size = 2 ^ 20; compression = default_level }

-- `*c = config`, on the configuration that was there.
unfoldable pub set_config : Config → Config → Config
set_config config c = config

unfoldable pub get_config : Config → Config
get_config c = c

unfoldable pub get_max_packet_size : Config → ℕ
get_max_packet_size c = c.max_packet_size

unfoldable pub get_compression : Config → ℕ
get_compression c = c.compression

-- `CONFIG`: the lock around the configuration.
pub record RwLock : Type 0 where
  pub content : Config
  pub poisoned : Bool

-- `Lazy::new`, at the first call.
unfoldable pub config_static : ℕ → RwLock
config_static default_level = record { content = default default_level; poisoned = false }

-- `CONFIG.write().unwrap()` and `CONFIG.read().unwrap()`, with what is done to the content before the
-- guard is dropped. Both panic on a poisoned lock.
abbrev pub with_write {ℓ} : {E : Type ℓ} → (Config → Config) → Action RwLock E (Unit {0})
with_write f s = if s.poisoned then (panic, s) else (ok tt, record s { content = f s.content })

abbrev pub with_read {ℓ κ} : {E : Type ℓ} {A : Type κ} → (Config → A) → Action RwLock E A
with_read f s = if s.poisoned then (panic, s) else (ok (f s.content), s)

-- `serialize_compression` and `deserialize_compression`, over a format of serde: a number `u32` is
-- what the level is written as.
pub record SerdeFormat : Type 1 where
  pub Written : Type 0
  pub Error : Type 0
  pub serialize_u32 : ℕ → Outcome Error Written
  pub deserialize_u32 : Written → Outcome Error ℕ

module _ (f : SerdeFormat) where
  unfoldable pub serialize_compression : ℕ → Outcome f.Error f.Written
  serialize_compression compression = f.serialize_u32 compression

  unfoldable pub deserialize_compression : f.Written → Outcome f.Error ℕ
  deserialize_compression x = and_then (f.deserialize_u32 x) (λ l. ok l)
