-- ===== src/CompressEncrypt/Conversation.antt =====
-- Conversations over the compress_encrypt protocol, from the end of a handshake.
use tcp_handler.Base.{ℕ}
use tcp_handler.Transport.{Bytes, Transport}
use tcp_handler.Crypto.{Crypto, IsCrypto, Deflate, IsDeflate}
use tcp_handler.Common.Channel.{Side, Reach}
use tcp_handler.Common.Channel.Reached.{fresh, InOrder, in_order}
use tcp_handler.Common.Channel.Drained.{Drains, drains}
use tcp_handler.Common.Channel.Fifo.{unused, IsFifo, fifo}
use tcp_handler.CompressEncrypt.Sealing.{sealer}

module _ (t : Transport) {c : Crypto} (ic : IsCrypto c) {d : Deflate} (id : IsDeflate d) (level : ℕ)
    (q : c.Aes × Bytes) {a b : Side c}
    (r : Reach
      (sealer t ic id level)
      (fresh (sealer t ic id level) q)
      (fresh (sealer t ic id level) q)
      a
      b) where
  -- Let both ends start with the cipher of one handshake, and let each call at an end seal a
  -- message at the given level or open the next packet on the way to it, where an end seals only
  -- when no packet is on the way to it. Then each end has got the first of the messages that the
  -- other one sent, in order, and there are as many more as there are packets on the way.
  pub compress_encrypt-InOrder :
      InOrder (sealer t ic id level) a b × InOrder (sealer t ic id level) b a
  compress_encrypt-InOrder = in_order (sealer t ic id level) q r

  -- Let both ends start with the cipher of one handshake, and let each call at an end seal a
  -- message at the given level or open the next packet on the way to it, where an end seals only
  -- when no packet is on the way to it. Let both ends then open all packets on the way to them, one
  -- after the other. That is reached by such calls too, each end has then got all the messages that
  -- the other one sealed, in order, and both hold the same cipher and nonce.
  pub compress_encrypt-Drains :
      Drains
        (sealer t ic id level)
        (fresh (sealer t ic id level) q)
        (fresh (sealer t ic id level) q)
        a
        b
  compress_encrypt-Drains = drains (sealer t ic id level) q r

  -- Let both ends start with the cipher of one handshake, and let each call at an end seal a
  -- message at the given level or open the next packet on the way to it, where an end seals only
  -- when no packet is on the way to it. Then the two ends are what a pair of message queues, empty
  -- at first, becomes by steps of its own: a step puts any message at the end of the other queue,
  -- if none waits here, or gets the first of the messages that wait here. At each end the messages
  -- sealed are those put, the messages opened are those got, and the packets on the way, opened in
  -- turn, give those that wait.
  pub compress_encrypt-IsFifo : IsFifo (sealer t ic id level) unused unused a b
  compress_encrypt-IsFifo = fifo (sealer t ic id level) q r
