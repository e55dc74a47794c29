-- ===== src/Examples/Wires.antt =====
-- Sending at concrete values: the kernel takes a few bytes at a time.
use ruby_zookeeper.Prelude.{replicate, ok, ℕ, ◌≡◌, refl, true, some, List, [], ◌∷◌, ◌++◌, arith}
use ruby_zookeeper.Jute.Format.{connect_request_bytes}
use ruby_zookeeper.RecordIo.{little, big, to_memory, of_memory, htonl}
use ruby_zookeeper.Session.{Env, flush_loop}
use ruby_zookeeper.Session.Stream.{IsQueued, pending, Flushed, flush_loop-Flushed}
use ruby_zookeeper.Wire.{again, moves, Socket, BufferList, answered, send, length_sent, send_buffer}
use ruby_zookeeper.Wire.Prime.{
  ConnectReq, PrimeStruct, serialize_prime_connect, deserialize_prime_response,
  serialize_prime_connect-bytes, prime_bytes, deserialize_prime_response-bytes,
}
use ruby_zookeeper.Wire.Send.{AfterSend, send_buffer-After}

abbrev packet : BufferList
packet = record { buffer = some (1 ∷ 2 ∷ 3 ∷ []); len = 3; curr_offset = 2 }

abbrev later : BufferList
later = record { buffer = some (7 ∷ []); len = 1; curr_offset = 0 }

abbrev slow : Socket
slow = record { answers = moves 1 ∷ moves 1 ∷ moves 5 ∷ moves 9 ∷ again ∷ []; line = 9 ∷ [] }

-- The first call ends in the middle of the length.
partial_send :
    send_buffer little (packet, slow)
    ≡ ok 0 (
      record packet { curr_offset = 3 },
      record { answers = moves 1 ∷ moves 5 ∷ moves 9 ∷ again ∷ []; line = 9 ∷ 0 ∷ [] },
    )
unfolding send_buffer length_sent send answered to_memory htonl of_memory
partial_send = refl

abbrev total : List ℕ
total = 9 ∷ 0 ∷ 3 ∷ 1 ∷ 2 ∷ 3 ∷ []

send_buffer-After_example : AfterSend total (1 ∷ 2 ∷ 3 ∷ []) 3 2 (send_buffer little (packet, slow))
send_buffer-After_example =
    send_buffer-After total (1 ∷ 2 ∷ 3 ∷ []) 3 (omega arith) (omega arith) little packet slow
      (record { allocated = refl; same_len = refl; sent = omega arith; line = refl })

abbrev granting : Env
granting = record {
  host = little;
  realloc = λ n. true;
  entry_granted = λ n. true;
  buffer_granted = λ n. true;
  time = 1000;
  now = 5;
  synchronous_marker = 99;
}

packet-IsQueued : IsQueued packet
packet-IsQueued = record {
  cells = 1 ∷ 2 ∷ 3 ∷ [];
  allocated = refl;
  small = omega arith;
  fits = omega arith;
  sent = omega arith;
}

later-IsQueued : IsQueued later
later-IsQueued = record {
  cells = 7 ∷ [];
  allocated = refl;
  small = omega arith;
  fits = omega arith;
  sent = omega arith;
}

flush_loop-Flushed_example :
    Flushed
      (slow.line ++ pending (packet ∷ later ∷ []))
      (flush_loop granting true (packet ∷ later ∷ []) slow 0)
flush_loop-Flushed_example =
    flush_loop-Flushed granting true (packet ∷ later ∷ []) slow 0
      (packet-IsQueued, (later-IsQueued, tt))

abbrev secret : List ℕ
secret = replicate 16 9

abbrev hello : ConnectReq
hello = record {
  protocol_version = 0;
  last_zxid_seen = 77;
  time_out = 10000;
  session_id = 5;
  passwd_len = 16;
  passwd = secret;
}

serialize_prime_connect-bytes_example :
    serialize_prime_connect little hello (replicate 44 0)
    ≡ some (
        connect_request_bytes (record {
          protocol_version = 0;
          last_zxid_seen = 77;
          time_out = 10000;
          session_id = 5;
          passwd = record { len = 16; buff = some secret };
        }))
serialize_prime_connect-bytes_example =
    serialize_prime_connect-bytes little hello (replicate 44 0) (omega arith) (omega arith) refl
      refl refl

abbrev welcome : PrimeStruct
welcome = record {
  len = 36;
  protocol_version = 0;
  time_out = 10000;
  session_id = 5;
  passwd_len = 16;
  passwd = secret;
}

deserialize_prime_response-bytes_example :
    deserialize_prime_response big (prime_bytes welcome) ≡ some welcome
deserialize_prime_response-bytes_example =
    deserialize_prime_response-bytes big welcome (omega arith) (omega arith) (omega arith)
      (omega arith) (omega arith) refl
