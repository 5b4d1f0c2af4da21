-- ===== src/Tests/SealedSessions.antt =====
-- Handlers of the encrypt protocol: requests with their replies.
use tcp_handler.Common.Packet.{read_packet, check_bytes_len, write_packet}
use tcp_handler.Base.{◌≡◌, refl, true, List, [], ◌∷◌, ◌++◌, ok, bytes_eq, arith, ◌>>=◌}
use tcp_handler.Transport.{Bytes}
use tcp_handler.Transport.Memory.{memory, read}
use tcp_handler.Transport.Memory.Proofs.{memory-IsLawful}
use tcp_handler.Common.Cipher.{get, reset, read_nonce, guarded}
use tcp_handler.Common.Channel.{holding}
use tcp_handler.Common.Last.{flush}
use tcp_handler.Encrypt
use tcp_handler.Streams.{handler_send_recv}
use tcp_handler.Streams.Dialogue.{request_all, serve_all}
use tcp_handler.Streams.Dialogue.Answered.{Rounds, no_rounds, round}
use tcp_handler.Streams.Encrypt.Server as EncryptServer
use tcp_handler.Streams.Encrypt.Client as EncryptClient
use tcp_handler.Streams.Encrypt.Server.{TcpServerHandlerEncrypt}
use tcp_handler.Streams.Encrypt.Client.{TcpClientHandlerEncrypt}
use tcp_handler.Streams.Encrypt.Dialogue as EncryptDialogue
use tcp_handler.Streams.Encrypt.Session.{encrypt_session}
use tcp_handler.Tests.Sessions.{world, echo}
use tcp_handler.Base.{Outcome}
use tcp_handler.Common.Errors.{StarterError, PacketError}
use tcp_handler.Streams.Session.{session}
use tcp_handler.Streams.Calls.{map_ok}
use tcp_handler.Common.Variant.{variant_eq}
use tcp_handler.Transport.Memory.{MemoryWriter}
use tcp_handler.Transport.Carries.{Carries}
use tcp_handler.Common.Variant.{to_bools, from_bools}
use tcp_handler.Common.Head.{write_head, read_head}
use tcp_handler.Common.Last.{write_last, read_last}
use tcp_handler.Common.Cipher.{new}
use tcp_handler.Common.Keys.{generate_rsa_private, compose_rsa_public}
use tcp_handler.Tests.Setup.{
  test, any, other_end, toy, toy-IsCrypto, fresh_writer, small, hello, one, aes_key, first_nonce,
  second_nonce, third_nonce,
}

abbrev pub sealed_requests : List (Bytes × Bytes)
sealed_requests = (second_nonce, hello) ∷ (second_nonce, world) ∷ []

abbrev pub sealed_draws : List Bytes
sealed_draws = third_nonce ∷ third_nonce ∷ []

abbrev encrypt_up : Bytes
encrypt_up =
    30 ∷ 12 ∷ first_nonce ++ second_nonce ++ hello ++ 30 ∷ 12 ∷ third_nonce ++ second_nonce ++ world

abbrev encrypt_down : Bytes
encrypt_down =
    31 ∷ 12 ∷ second_nonce
    ++ third_nonce
    ++ echo hello
    ++ 31 ∷ 12 ∷ second_nonce
    ++ third_nonce
    ++ echo world

encrypt-Rounds :
    Rounds
      (EncryptDialogue.Sealed memory-IsLawful toy small)
      echo
      (aes_key, first_nonce)
      sealed_requests
      sealed_draws
      (aes_key, third_nonce)
encrypt-Rounds =
    round
      (record {
        sealed = 12 ∷ first_nonce ++ second_nonce ++ hello;
        encrypted = refl;
        nonce_len = refl;
        fits = omega arith;
        packet = refl;
        next = refl;
      })
      (record {
        sealed = 12 ∷ second_nonce ++ third_nonce ++ echo hello;
        encrypted = refl;
        nonce_len = refl;
        fits = omega arith;
        packet = refl;
        next = refl;
      })
      (round
        (record {
          sealed = 12 ∷ third_nonce ++ second_nonce ++ world;
          encrypted = refl;
          nonce_len = refl;
          fits = omega arith;
          packet = refl;
          next = refl;
        })
        (record {
          sealed = 12 ∷ second_nonce ++ third_nonce ++ echo world;
          encrypted = refl;
          nonce_len = refl;
          fits = omega arith;
          packet = refl;
          next = refl;
        })
        no_rounds)

abbrev encrypt_head : MemoryWriter
encrypt_head = (Encrypt.client_init memory toy true 7 test one fresh_writer).1

abbrev encrypt_answer : MemoryWriter
encrypt_answer =
    (Encrypt.server_start memory toy true aes_key first_nonce 9 test one (ok ((1, one), 7))
      fresh_writer).1

abbrev encrypt_client :
    Outcome StarterError (Outcome PacketError (List Bytes) × TcpClientHandlerEncrypt memory toy)
    × MemoryWriter
encrypt_client =
    session (λ (h : TcpClientHandlerEncrypt memory toy). h.writer)
      (request_all (EncryptClient.handler memory toy true small) sealed_requests)
      (EncryptClient.new memory toy true 7 test one)
      (other_end encrypt_answer ++ encrypt_down, fresh_writer)

abbrev encrypt_server :
    Outcome StarterError (Outcome PacketError (List Bytes) × TcpServerHandlerEncrypt memory toy)
    × MemoryWriter
encrypt_server =
    session (λ (h : TcpServerHandlerEncrypt memory toy). h.writer)
      (serve_all (EncryptServer.handler memory toy true small) echo sealed_draws)
      (EncryptServer.new memory toy true aes_key first_nonce 9 test any one)
      (other_end encrypt_head ++ encrypt_up, fresh_writer)

encrypt_up-Carries :
    Carries memory-IsLawful fresh_writer encrypt_client.1 (other_end encrypt_head ++ encrypt_up)
unfolding memory-IsLawful bytes_eq variant_eq to_bools from_bools request_all serve_all
    handler_send_recv EncryptClient.new EncryptClient.handler EncryptClient.send EncryptClient.recv
    EncryptServer.new EncryptServer.handler EncryptServer.send EncryptServer.recv
    Encrypt.client_init Encrypt.server_init Encrypt.client_start Encrypt.server_start Encrypt.send
    Encrypt.recv ◌>>=◌ write_head read_head write_last read_last write_packet check_bytes_len flush
    read_packet read Encrypt.seal Encrypt.unseal Encrypt.open_key get reset guarded read_nonce new
    generate_rsa_private compose_rsa_public
encrypt_up-Carries = record {
  sent = other_end encrypt_head ++ encrypt_up;
  rest = [];
  wrote = refl;
  gets = refl;
}

encrypt_down-Carries :
    Carries memory-IsLawful fresh_writer encrypt_server.1 (other_end encrypt_answer ++ encrypt_down)
unfolding memory-IsLawful bytes_eq variant_eq to_bools from_bools request_all serve_all
    handler_send_recv EncryptClient.new EncryptClient.handler EncryptClient.send EncryptClient.recv
    EncryptServer.new EncryptServer.handler EncryptServer.send EncryptServer.recv
    Encrypt.client_init Encrypt.server_init Encrypt.client_start Encrypt.server_start Encrypt.send
    Encrypt.recv ◌>>=◌ write_head read_head write_last read_last write_packet check_bytes_len flush
    read_packet read Encrypt.seal Encrypt.unseal Encrypt.open_key get reset guarded read_nonce new
    generate_rsa_private compose_rsa_public
encrypt_down-Carries = record {
  sent = other_end encrypt_answer ++ encrypt_down;
  rest = [];
  wrote = refl;
  gets = refl;
}

encrypt_session_example :
    (map_ok (λ r. r.0) encrypt_client.0 ≡ ok (ok (echo hello ∷ echo world ∷ [])))
    × (map_ok (λ r. r.0) encrypt_server.0 ≡ ok (ok (hello ∷ world ∷ [])))
    × (map_ok (λ r. r.1.cipher) encrypt_client.0 ≡ ok (holding (aes_key, third_nonce)))
    × (map_ok (λ r. r.1.cipher) encrypt_server.0 ≡ ok (holding (aes_key, third_nonce)))
unfolding memory-IsLawful variant_eq bytes_eq
encrypt_session_example =
    encrypt_session memory-IsLawful toy-IsCrypto true small (omega arith) 7 refl aes_key first_nonce
      {seed' = 9} refl refl refl test one one any refl echo (aes_key, third_nonce) sealed_requests
      sealed_draws {cw = fresh_writer} {sw = fresh_writer} tt tt encrypt-Rounds encrypt_up-Carries
      encrypt_down-Carries
