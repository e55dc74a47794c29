-- ===== src/Connection/Worked.antt =====
-- The handshake leaves the count of the calls under way, the request to close and the memory of the
-- handle alone.
use ruby_zookeeper.Prelude.{
  replicate, Outcome, ok, fail, fault, Outcome-cases, ◌==◌, Bool-cases, Option-cases, ℕ, refl, inl,
  inr, Bool, ◌&&◌, not, List,
}
use ruby_zookeeper.Connection.{expired_session_state, zsessionexpired, socket_error}
use ruby_zookeeper.Connection.Counted.{Steady, SteadyAfter}
use ruby_zookeeper.Connection.Handshake.{
  marshal_watches, with_queue, send_set_watches, resend_auth, connect_request, primed,
  length_primed, prime_connection, established, handshake, finish_handshake,
}
use ruby_zookeeper.Connection.Kept.{
  SteadyRun, later_option, later_run, then_option, each_some, queue_session_event-Steady,
  socket_error-Steady,
}
use ruby_zookeeper.Path.Scan.{same}
use ruby_zookeeper.Replies.{no_input, Handle}
use ruby_zookeeper.Session.{zconnectionloss, connected_state, Env}
use ruby_zookeeper.Watchers.{HashTable}
use ruby_zookeeper.Wire.{Answer, error, again, moves, Socket, BufferList, send}
use ruby_zookeeper.Wire.Prime.{PrimeStruct, serialize_prime_connect, deserialize_prime_response}

module _ (env : Env) (malloc : ℕ → ℕ → Bool) {H : HashTable} where
  primed-Steady : (h : Handle H) (r : Answer × Socket) → SteadyRun h (primed env malloc h r)
  unfolding primed
  primed-Steady h (moves n, s) = record { counter = refl; requested = refl; in_use = refl }
  primed-Steady h (error, s) =
      let h1 = record h { zh = record h.zh { socket = s } } in
      later_run {h = h} {h1 = h1} (socket_error env malloc zconnectionloss h1)
        (record { counter = refl; requested = refl; in_use = refl })
        (socket_error-Steady env malloc zconnectionloss h1)
  primed-Steady h (again, s) =
      let h1 = record h { zh = record h.zh { socket = s } } in
      later_run {h = h} {h1 = h1} (socket_error env malloc zconnectionloss h1)
        (record { counter = refl; requested = refl; in_use = refl })
        (socket_error-Steady env malloc zconnectionloss h1)

  length_primed-Steady :
      (h : Handle H) (bytes : List ℕ) (r : Answer × Socket)
      → SteadyRun h (length_primed env malloc h bytes r)
  unfolding length_primed
  length_primed-Steady h bytes (moves n, s) = primed-Steady h (send bytes s)
  length_primed-Steady h bytes (error, s) =
      let h1 = record h { zh = record h.zh { socket = s } } in
      later_run {h = h} {h1 = h1} (socket_error env malloc zconnectionloss h1)
        (record { counter = refl; requested = refl; in_use = refl })
        (socket_error-Steady env malloc zconnectionloss h1)
  length_primed-Steady h bytes (again, s) =
      let h1 = record h { zh = record h.zh { socket = s } } in
      later_run {h = h} {h1 = h1} (socket_error env malloc zconnectionloss h1)
        (record { counter = refl; requested = refl; in_use = refl })
        (socket_error-Steady env malloc zconnectionloss h1)

  pub prime_connection-Steady : (h : Handle H) → SteadyRun h (prime_connection env malloc h)
  unfolding prime_connection
  prime_connection-Steady h =
      elim (Option-cases
        (serialize_prime_connect env.host (connect_request env malloc h) (replicate 44 0))) [
          | inl e ↦ rw (e, prime_connection) tt
          | inr (bytes, e) ↦ rw (e, prime_connection) (length_primed-Steady h bytes _)
        ]

  with_queue-Steady :
      (h : Handle H) (o : Outcome (List BufferList) ℕ) → SteadyAfter h (with_queue env h o)
  with_queue-Steady h (ok rc queue) = record { counter = refl; requested = refl; in_use = refl }
  with_queue-Steady h (fail rc queue) = record { counter = refl; requested = refl; in_use = refl }
  with_queue-Steady h fault = tt

  send_set_watches-Steady : (h : Handle H) → SteadyAfter h (send_set_watches env h)
  unfolding send_set_watches
  send_set_watches-Steady h = elim (Outcome-cases (marshal_watches env h)) [
    | inl (u, oa, e) ↦ rw (e, send_set_watches) (with_queue-Steady h _)
    | inr (inl (rc, oa, e)) ↦
        rw (e, send_set_watches) (record { counter = refl; requested = refl; in_use = refl })
    | inr (inr e) ↦ rw (e, send_set_watches) tt
  ]

  resend_auth-Steady : (h : Handle H) → SteadyAfter h (resend_auth env h)
  unfolding resend_auth
  resend_auth-Steady h = with_queue-Steady h _

  established-Steady : (r : PrimeStruct) (h : Handle H) → SteadyAfter h (established env malloc r h)
  unfolding established
  established-Steady r h =
      let joined = record h {
        zh = record h.zh { state = connected_state };
        recv_timeout = r.time_out;
        client_id = record { client_id = r.session_id; passwd = r.passwd };
      } in
      later_option {h = h} {h1 = joined} _
        (record { counter = refl; requested = refl; in_use = refl })
        (then_option joined (send_set_watches env joined) _ (send_set_watches-Steady joined) (λ h1.
          then_option h1 (resend_auth env h1) _ (resend_auth-Steady h1) (λ h2.
            let h3 = record h2 { input_buffer = no_input } in
            later_option {h = h2} {h1 = h3} _
              (record { counter = refl; requested = refl; in_use = refl })
              (queue_session_event-Steady env malloc connected_state h3))))

  handshake-Steady : (r : PrimeStruct) (h : Handle H) → SteadyRun h (handshake env malloc r h)
  unfolding handshake
  handshake-Steady r h =
      elim (Bool-cases
        (not (h.client_id.client_id == 0) && not (h.client_id.client_id == r.session_id))) [
          | inl other ↦
              let gone = record h { zh = record h.zh { state = expired_session_state } } in
              rw other (
                later_run {h = h} {h1 = gone} (socket_error env malloc zsessionexpired gone)
                  (record { counter = refl; requested = refl; in_use = refl })
                  (socket_error-Steady env malloc zsessionexpired gone))
          | inr same ↦ elim (Option-cases (established env malloc r h)) [
            | inl e ↦ rw same (rw (e, SteadyRun) tt)
            | inr (h', e) ↦
                let s : Steady h h' = rw e at (established-Steady r h) in
                rw same (
                  rw (e, SteadyRun)
                    (record { counter = s.counter; requested = s.requested; in_use = s.in_use }))
          ]
        ]

  pub finish_handshake-Steady : (h : Handle H) → SteadyRun h (finish_handshake env malloc h)
  unfolding finish_handshake
  finish_handshake-Steady h = each_some h h.primer_buffer.buffer _ (λ cells.
      each_some h (deserialize_prime_response env.host cells) _ (λ r. handshake-Steady r h))
