-- ===== src/Tests/Configuration.antt =====
-- The global configuration.
use tcp_handler.Base.{
  ◌≡◌, refl, ok, ℕ, ◌*◌, ◌^◌, ◌==◌, if◌then◌else◌, panic, false, Action, ◌>>=◌, ◌>>◌, pure,
}
use tcp_handler.Config
use tcp_handler.Config.{Config, RwLock, config_static, default}
use tcp_handler.Config.Global.{
  set_config, get_config, get_max_packet_size, get_compression, sets, gets_max_packet_size,
  no_calls, reads_last_set,
}
use tcp_handler.Tests.Setup.{small}

abbrev set_once : RwLock
set_once =
    (get_max_packet_size {E = Unit {0}} (set_config {E = Unit {0}} small (config_static 6)).1).1

reads_last_set_example :
    (get_config {E = Unit {0}} set_once ≡ (ok small, set_once))
    × (get_max_packet_size {E = Unit {0}} set_once ≡ (ok 40, set_once))
    × (get_compression {E = Unit {0}} set_once ≡ (ok 6, set_once))
    × ((config : Config)
        → ((set_config {E = Unit {0}} config set_once).0 ≡ ok tt)
          × ((get_config {E = Unit {0}} (set_config {E = Unit {0}} config set_once).1).0
              ≡ ok config))
reads_last_set_example = reads_last_set (Unit {0}) 6 (gets_max_packet_size (sets small no_calls))

-- `get`, `set` and `set_twice`
unfoldable pub get : Action RwLock (Unit {0}) (Unit {0})
get = do _ ← get_max_packet_size; _ ← get_compression; pure tt

abbrev assert_eq : ℕ → ℕ → Action RwLock (Unit {0}) (Unit {0})
assert_eq a b s = ((if a == b then ok tt else panic), s)

abbrev limited : ℕ → Config
limited limit = record (default 6) { max_packet_size = limit }

unfoldable pub set : Action RwLock (Unit {0}) (Unit {0})
set = do set_config (limited (2 ^ 10)); limit ← get_max_packet_size; assert_eq (2 ^ 10) limit

unfoldable pub set_twice : Action RwLock (Unit {0}) (Unit {0})
set_twice = do
  set_config (limited (2 ^ 10))
  limit ← get_max_packet_size
  assert_eq (2 ^ 10) limit
  set_config (limited (2 * 2 ^ 10))
  limit' ← get_max_packet_size
  assert_eq (2 * 2 ^ 10) limit'

all_pass :
    (do get; set; set_twice) (config_static 6)
    ≡ (ok tt, record { content = limited (2 * 2 ^ 10); poisoned = false })
unfolding get set set_twice set_config get_config get_max_packet_size get_compression config_static
    default Config.set_config Config.get_max_packet_size Config.get_compression ◌>>=◌
all_pass = refl

-- The test runner runs them in parallel: where the whole of `set_twice` falls between the two calls of
-- `set`, the assertion of `set` fails.
set_fails :
    ((do
      set_config (limited (2 ^ 10))
      set_twice
      limit ← get_max_packet_size
      assert_eq (2 ^ 10) limit)
      (config_static 6)).0
    ≡ panic
unfolding set_twice set_config get_max_packet_size config_static default Config.set_config
    Config.get_max_packet_size ◌>>=◌
set_fails = refl
