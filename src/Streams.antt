-- ===== src/Streams.antt =====
-- src/streams/mod.rs: the trait `TcpHandler`; the handlers of the four protocols are the modules
-- below. A handler owns its reader and its writer, so what a method does to it is what it does to
-- them.
pub mod Calls
pub mod Raw
pub mod Compress
pub mod Encrypt
pub mod CompressEncrypt
pub mod Net
pub mod Dialogue
pub mod Session
use tcp_handler.Base.{Action, ◌>>=◌, ◌>>◌}
use tcp_handler.Transport.{Bytes}
use tcp_handler.Common.Errors.{PacketError}

-- `handler_send` and `handler_recv`; `D` is what a `send` draws at random.
pub record TcpHandler (D H : Type 0) : Type 0 where
  pub handler_send : D → Bytes → Action H PacketError (Unit {0})
  pub handler_recv : Action H PacketError Bytes

module _ {D H : Type 0} (h : TcpHandler D H) where
  unfoldable pub handler_send_recv : D → Bytes → Action H PacketError Bytes
  handler_send_recv draw message = do h.handler_send draw message; h.handler_recv
