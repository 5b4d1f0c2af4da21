-- ===== src/Config/Global.antt =====
-- The functions of src/config.rs on the global `CONFIG`. The lock orders the calls, so those of all
-- threads are one sequence.
use tcp_handler.Base.{ℕ, ◌≡◌, refl, ok, Action, false}
use tcp_handler.Config.{Config, default, RwLock, config_static, with_write, with_read}
use tcp_handler.Config

module _ {E : Type 0} where
  unfoldable pub set_config : Config → Action RwLock E (Unit {0})
  set_config config = with_write (Config.set_config config)

  unfoldable pub get_config : Action RwLock E Config
  get_config = with_read Config.get_config

  unfoldable pub get_max_packet_size : Action RwLock E ℕ
  get_max_packet_size = with_read Config.get_max_packet_size

  unfoldable pub get_compression : Action RwLock E ℕ
  get_compression = with_read Config.get_compression

module _ (E : Type 0) (level : ℕ) where
  -- Any calls, whatever they return, and the configuration that was set last.
  pub data Calls : Config → RwLock → Type 0 where
    no_calls : Calls (default level) (config_static level)
    sets :
        {c : Config} {s : RwLock} (config : Config)
        → Calls c s
        → Calls config (set_config {E = E} config s).1
    gets : {c : Config} {s : RwLock} → Calls c s → Calls c (get_config {E = E} s).1
    gets_max_packet_size :
        {c : Config} {s : RwLock} → Calls c s → Calls c (get_max_packet_size {E = E} s).1
    gets_compression : {c : Config} {s : RwLock} → Calls c s → Calls c (get_compression {E = E} s).1

  abbrev sound : Config → RwLock
  sound c = record { content = c; poisoned = false }

  Calls-sound : {c : Config} {s : RwLock} → Calls c s → s ≡ sound c
  unfolding config_static set_config get_config get_max_packet_size get_compression
      Config.set_config
  Calls-sound no_calls = refl
  Calls-sound (sets config h) = rw (Calls-sound h) refl
  Calls-sound (gets h) = rw (Calls-sound h) refl
  Calls-sound (gets_max_packet_size h) = rw (Calls-sound h) refl
  Calls-sound (gets_compression h) = rw (Calls-sound h) refl

  -- Let any calls of the four functions be made on `CONFIG`, in any order, from its first use on,
  -- and let `c` be the configuration that was set last, or the default one where none was set. Then
  -- no further call panics: each read gives that configuration or its part, and changes nothing;
  -- and a configuration that is set is what `get_config` returns next.
  pub reads_last_set :
      {c : Config} {s : RwLock}
      → Calls c s
      → (get_config {E = E} s ≡ (ok c, s))
        × (get_max_packet_size {E = E} s ≡ (ok c.max_packet_size, s))
        × (get_compression {E = E} s ≡ (ok c.compression, s))
        × ((config : Config)
            → ((set_config {E = E} config s).0 ≡ ok tt)
              × ((get_config {E = E} (set_config {E = E} config s).1).0 ≡ ok config))
  unfolding set_config get_config get_max_packet_size get_compression Config.set_config
      Config.get_config Config.get_max_packet_size Config.get_compression
  reads_last_set h = rw (Calls-sound h) (refl, refl, refl, λ config. (refl, refl))
