-- ===== src/Raw/Delivery.antt =====
-- What the calls of the raw protocol pass on to the peer.
use tcp_handler.Base.{◌^◌, ◌≤◌, ◌<◌, ◌≡◌, ◌++◌, Bool, true, length, ok, err}
use tcp_handler.Config.{Config}
use tcp_handler.Transport.{Bytes, Str, Transport, IsLawful}
use tcp_handler.Transport.Delivers.{IsLazy}
use tcp_handler.Common.Variant.{raw}
use tcp_handler.Common.Errors.{StarterError, PacketError}
use tcp_handler.Common.Decision.{accepted}
use tcp_handler.Common.Head.{magic_version}
use tcp_handler.Common.Head.Wire.{head_bytes, head_result, Emits-write_head}
use tcp_handler.Common.Last.Wire.{answer_bytes, Emits-write_last}
use tcp_handler.Common.Last.Refusal.{refusal-held_back}
use tcp_handler.Common.Packet.Wire.{packet_bytes, Emits-write_packet}
use tcp_handler.Common.Exchange.{delivered_all}
use tcp_handler.Raw.{client_init, server_start, send}

module _ {t : Transport} (l : IsLawful t) {w : t.Writer} where
  client_init-delivers :
      (i v : Str)
      → l.Healthy w
      → l.delivered (client_init t true i v w).1 ≡ l.accepted w ++ head_bytes l raw i v
  unfolding client_init
  client_init-delivers i v h =
      delivered_all l StarterError.io _ (λ _. tt) (Emits-write_head l raw i v) h

  server_start-delivers :
      (j u v : Str)
      → l.Healthy w
      → l.delivered (server_start t true j u (ok (magic_version, v)) w).1
        ≡ l.accepted w ++ answer_bytes l raw j u (accepted v)
  unfolding server_start
  server_start-delivers j u v h =
      delivered_all l StarterError.io _ (λ x. x)
        (Emits-write_last l raw j u head_result (accepted v)) h

  send-delivers :
      (c : Config) (m : Bytes)
      → c.max_packet_size < 2 ^ 64
      → length m ≤ c.max_packet_size
      → l.Healthy w
      → l.delivered (send t true c m w).1 ≡ l.accepted w ++ packet_bytes l m
  unfolding send
  send-delivers c m valid fits h =
      delivered_all l PacketError.io _ (λ _. tt) (Emits-write_packet l c m valid fits) h

  -- With the feature `auto_flush`, a healthy writer has passed on all that it accepted when a call
  -- returns: the head at the end after `client_init`, the answer after a `server_start` that accepts
  -- the client, and the packet after a `send` of a message within the limit, a 64-bit number.
  pub all_passed_on :
      (i v j u : Str) (c : Config) (m : Bytes)
      → c.max_packet_size < 2 ^ 64
      → length m ≤ c.max_packet_size
      → l.Healthy w
      → (l.delivered (client_init t true i v w).1 ≡ l.accepted w ++ head_bytes l raw i v)
        × (l.delivered (server_start t true j u (ok (magic_version, v)) w).1
            ≡ l.accepted w ++ answer_bytes l raw j u (accepted v))
        × (l.delivered (send t true c m w).1 ≡ l.accepted w ++ packet_bytes l m)
  all_passed_on i v j u c m valid fits h =
      (client_init-delivers i v h, server_start-delivers j u v h, send-delivers c m valid fits h)

  -- Let a writer hold back what it accepts until it is flushed. Then a `server_start` that refuses
  -- the client makes it pass on nothing, with or without the feature `auto_flush`: the answer stays
  -- in the writer.
  pub server_start-held_back :
      (af : Bool) (j u : Str) (e : StarterError)
      → IsLazy l
      → l.delivered (server_start t af j u (err e) w).1 ≡ l.delivered w
  unfolding server_start
  server_start-held_back af j u e z = refusal-held_back l z raw j u e _ w
