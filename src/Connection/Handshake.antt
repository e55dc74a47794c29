-- ===== src/Connection/Handshake.antt =====
-- The two halves of the handshake: `prime_connection`, and what `check_events` does with the answer.
use ruby_zookeeper.Prelude.{
  length, replicate, Outcome, ok, fail, fault, ◌>>◌, Void, ◌==◌, if◌then◌else◌, ℕ, Bool, ◌&&◌, not,
  Option, none, some, List, map,
}
use ruby_zookeeper.Auth.{associating_state, queue_front_buffer_bytes, send_auth_info}
use ruby_zookeeper.Connection.{expired_session_state, zsessionexpired, setwatches_op, socket_error}
use ruby_zookeeper.Jute.Serialize.{serialize_set_watches, serialize_request_header}
use ruby_zookeeper.Jute.Types.{CString}
use ruby_zookeeper.Jute.Vector.{Vector}
use ruby_zookeeper.RecordIo.{to_memory, htonl}
use ruby_zookeeper.RecordIo.Archive.{OArchive, create_buffer_oarchive, get_buffer, get_buffer_len}
use ruby_zookeeper.Replies.{set_watches_xid, no_input, primer_input, Handle}
use ruby_zookeeper.Replies.Release.{queue_session_event}
use ruby_zookeeper.Session.{zconnectionloss, connected_state, Env}
use ruby_zookeeper.Watchers.{HashTable}
use ruby_zookeeper.Wire.{Answer, error, again, moves, Socket, BufferList, send}
use ruby_zookeeper.Wire.Prime.{
  ConnectReq, PrimeStruct, serialize_prime_connect, deserialize_prime_response,
}

-- The keys of a table, each copied; memory for them is granted.
unfoldable pub collect_keys : (H : HashTable) → H.Table → Vector CString
collect_keys H ht =
    let keys = H.keys ht in record { count = length keys; elements = map (λ key. some key) keys }

module _ (env : Env) {H : HashTable} where
  unfoldable pub marshal_watches : Handle H → Outcome OArchive Void
  marshal_watches h =
      (serialize_request_header env.host env.realloc
            (record { xid = set_watches_xid; type = setwatches_op })
          >> serialize_set_watches env.host env.realloc (record {
            relative_zxid = h.last_zxid;
            data_watches = collect_keys H h.active_node_watchers;
            exist_watches = collect_keys H h.active_exist_watchers;
            child_watches = collect_keys H h.active_child_watchers;
          }))
        create_buffer_oarchive

  abbrev pub with_queue : Handle H → Outcome (List BufferList) ℕ → Option (Handle H)
  with_queue h (ok rc queue) = some (record h { zh = record h.zh { to_send = queue } })
  with_queue h (fail rc queue) = some (record h { zh = record h.zh { to_send = queue } })
  with_queue h fault = none

  -- To the front of the queue; the caller does not look at the return code.
  unfoldable pub send_set_watches : Handle H → Option (Handle H)
  send_set_watches h = elim (marshal_watches h) [
    | fault ↦ none
    | fail _ _ ↦ some h
    | ok _ oa ↦
        with_queue h (queue_front_buffer_bytes env (get_buffer oa) (get_buffer_len oa) h.zh.to_send)
  ]

  unfoldable pub resend_auth : Handle H → Option (Handle H)
  resend_auth h = with_queue h (send_auth_info env h.auth_h h.zh.to_send)

module _ (env : Env) (malloc : ℕ → ℕ → Bool) {H : HashTable} where
  unfoldable pub connect_request : Handle H → ConnectReq
  connect_request h = record {
    protocol_version = 0;
    last_zxid_seen = h.last_zxid;
    time_out = h.recv_timeout;
    session_id = h.client_id.client_id;
    passwd_len = 16;
    passwd = h.client_id.passwd;
  }

  -- What is sent first and second; a call that does not move a byte returns -1, whatever `errno` is,
  -- and one that moves fewer than all is not repeated.
  unfoldable pub primed : Handle H → Answer × Socket → Outcome (Handle H) Void
  primed h (moves n, s) = ok tt (record h {
    zh = record h.zh { state = associating_state; socket = s };
    input_buffer = primer_input;
    primer_buffer = record h.primer_buffer { curr_offset = 4 };
  })
  primed h (error, s) =
      socket_error env malloc zconnectionloss (record h { zh = record h.zh { socket = s } })
  primed h (again, s) =
      socket_error env malloc zconnectionloss (record h { zh = record h.zh { socket = s } })

  unfoldable pub length_primed : Handle H → List ℕ → Answer × Socket → Outcome (Handle H) Void
  length_primed h bytes (moves n, s) = primed h (send bytes s)
  length_primed h bytes (error, s) =
      socket_error env malloc zconnectionloss (record h { zh = record h.zh { socket = s } })
  length_primed h bytes (again, s) =
      socket_error env malloc zconnectionloss (record h { zh = record h.zh { socket = s } })

  -- The buffer on the stack has 44 cells, all of which are written.
  unfoldable pub prime_connection : Handle H → Outcome (Handle H) Void
  prime_connection h =
      elim (serialize_prime_connect env.host (connect_request h) (replicate 44 0)) [
        | none ↦ fault
        | some bytes ↦
            length_primed h bytes (send (to_memory env.host 4 (htonl env.host 44)) h.zh.socket)
      ]

  -- The session goes on: the watches and the authentication are sent again, in front of the queue.
  unfoldable pub established : PrimeStruct → Handle H → Option (Handle H)
  established r h =
      let joined = record h {
        zh = record h.zh { state = connected_state };
        recv_timeout = r.time_out;
        client_id = record { client_id = r.session_id; passwd = r.passwd };
      } in
      elim (send_set_watches env joined) [
        | none ↦ none
        | some watching ↦ elim (resend_auth env watching) [
          | none ↦ none
          | some known ↦
              queue_session_event env malloc connected_state
                (record known { input_buffer = no_input })
        ]
      ]

  unfoldable pub handshake : PrimeStruct → Handle H → Outcome (Handle H) Void
  handshake r h =
      if not (h.client_id.client_id == 0) && not (h.client_id.client_id == r.session_id)
      then socket_error env malloc zsessionexpired
          (record h { zh = record h.zh { state = expired_session_state } })
      else (elim (established r h) [
        | none ↦ fault
        | some h' ↦ ok tt (record h' { input_buffer = no_input })
      ])

  unfoldable pub finish_handshake : Handle H → Outcome (Handle H) Void
  finish_handshake h = elim h.primer_buffer.buffer [
    | none ↦ fault
    | some cells ↦ elim (deserialize_prime_response env.host cells) [
      | none ↦ fault
      | some r ↦ handshake r h
    ]
  ]
