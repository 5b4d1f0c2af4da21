-- ===== src/Encrypt/Conversation.antt =====
-- Conversations over the encrypt protocol, from the end of a handshake.
use tcp_handler.Transport.{Bytes, Transport}
use tcp_handler.Crypto.{Crypto, IsCrypto}
use tcp_handler.Common.Channel.{Side, Reach}
use tcp_handler.Common.Channel.Reached.{fresh, InOrder, in_order}
use tcp_handler.Common.Channel.Drained.{Drains, drains}
use tcp_handler.Common.Channel.Fifo.{unused, IsFifo, fifo}
use tcp_handler.Encrypt.Sealing.{sealer}

module _ (t : Transport) {c : Crypto} (ic : IsCrypto c) (q : c.Aes × Bytes) {a b : Side c}
    (r : Reach (sealer t ic) (fresh (sealer t ic) q) (fresh (sealer t ic) q) a b) where
  -- Let both ends start with the cipher of one handshake, and let each call at an end seal a
  -- message or open the next packet on the way to it, where an end seals only when no packet is on
  -- the way to it. Then each end has got the first of the messages that the other one sent, in
  -- order, and there are as many more as there are packets on the way.
  pub encrypt-InOrder : InOrder (sealer t ic) a b × InOrder (sealer t ic) b a
  encrypt-InOrder = in_order (sealer t ic) q r

  -- Let both ends start with the cipher of one handshake, and let each call at an end seal a message
  -- or open the next packet on the way to it, where an end seals only when no packet is on the way
  -- to it. Let both ends then open all packets on the way to them, one after the other. That is
  -- reached by such calls too, each end has then got all the messages that the other one sealed, in
  -- order, and both hold the same cipher and nonce.
  pub encrypt-Drains : Drains (sealer t ic) (fresh (sealer t ic) q) (fresh (sealer t ic) q) a b
  encrypt-Drains = drains (sealer t ic) q r

  -- Let both ends start with the cipher of one handshake, and let each call at an end seal a
  -- message or open the next packet on the way to it, where an end seals only when no packet is on
  -- the way to it. Then the two ends are what a pair of message queues, empty at first, becomes by
  -- steps of its own: a step puts any message at the end of the other queue, if none waits here, or
  -- gets the first of the messages that wait here. At each end the messages sealed are those put,
  -- the messages opened are those got, and the packets on the way, opened in turn, give those that
  -- wait.
  pub encrypt-IsFifo : IsFifo (sealer t ic) unused unused a b
  encrypt-IsFifo = fifo (sealer t ic) q r
