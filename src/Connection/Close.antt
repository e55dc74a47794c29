-- ===== src/Connection/Close.antt =====
-- The calls that are counted, `zookeeper_close` and `destroy`, and the sending that waits.
use ruby_zookeeper.Prelude.{
  Outcome, ok, fail, fault, Void, ◌==◌, if◌then◌else◌, neg, is_neg, lt_int, ℕ, zero, suc, ◌+◌, ◌-◌,
  Bool, true, ◌&&◌, not, Option, none, some, List, [], ◌∷◌,
}
use ruby_zookeeper.Connection.{Net, zoperationtimeout, zclosing, close_op}
use ruby_zookeeper.Connection.Check.{process_events}
use ruby_zookeeper.Connection.Interest.{Interest, no_interest, find_interest}
use ruby_zookeeper.Jute.Serialize.{serialize_request_header}
use ruby_zookeeper.RecordIo.Archive.{OArchive, create_buffer_oarchive, get_buffer, get_buffer_len}
use ruby_zookeeper.Replies.{zruntimeinconsistency, Handle}
use ruby_zookeeper.Replies.Release.{cleanup_bufs}
use ruby_zookeeper.Session.{
  zok, zsystemerror, zconnectionloss, zmarshallingerror, zinvalidstate, connected_state, Env,
  is_unrecoverable, get_xid, queue_buffer_bytes,
}
use ruby_zookeeper.Watchers.{HashTable}
use ruby_zookeeper.Wire.{Socket, BufferList, send_buffer}

-- What the code sees before it sends in a round: the milliseconds since it began, and the result of
-- `poll`. Behind the end of the list `poll` times out.
pub record Round : Type 0 where
  pub elapsed : ℕ
  pub polled : ℕ

-- The loop of `flush_send_queue` with a timeout. A round that sends a part of a packet goes on with it.
unfoldable pub flush_waiting :
    Env → ℕ → List Round → List BufferList → Socket → ℕ → Option (ℕ × List BufferList × Socket × ℕ)
flush_waiting env timeout rounds [] s last_send = some (zok, [], s, last_send)
flush_waiting env timeout [] (b ∷ queue) s last_send =
    some (zoperationtimeout, b ∷ queue, s, last_send)
flush_waiting env timeout (r ∷ rounds) (b ∷ queue) s last_send =
    if lt_int timeout r.elapsed
    then some (zoperationtimeout, b ∷ queue, s, last_send)
    else if not (lt_int 0 r.polled)
    then some (if r.polled == 0 then zoperationtimeout else zsystemerror, b ∷ queue, s, last_send)
    else (elim (send_buffer env.host (b, s)) [
      | ok zero (b', s') ↦ flush_waiting env timeout rounds (b' ∷ queue) s' env.now
      | ok (suc n) (b', s') ↦ flush_waiting env timeout rounds queue s' env.now
      | fail rc (b', s') ↦ some (zconnectionloss, b' ∷ queue, s', last_send)
      | fault ↦ none
    ])

unfoldable pub marshal_close : Env → ℕ → Outcome OArchive Void
marshal_close env xid =
    serialize_request_header env.host env.realloc (record { xid = xid; type = close_op })
      create_buffer_oarchive

module _ (env : Env) (malloc : ℕ → ℕ → Bool) (rounds : List Round) {H : HashTable} where
  -- The completions that `cleanup_bufs` makes up stay on the queue, and the handle is given back.
  unfoldable pub destroy : Handle H → Option (Handle H)
  destroy h = elim (cleanup_bufs env true zclosing h) [
    | none ↦ none
    | some clean ↦
        let state = if clean.fd == neg 1 then clean.zh.state else 0 in
        some (record clean {
          zh = record clean.zh { state = state; chroot = none };
          fd = neg 1;
          auth_h = [];
          freed = true;
        })
  ]

  unfoldable pub destroyed_with : ℕ → Handle H → Option (ℕ × Handle H)
  destroyed_with rc h = elim (destroy h) [ none ↦ none | some gone ↦ some (rc, gone) ]

  -- The request to close, sent within 3000 milliseconds; the handle is connected.
  unfoldable pub queue_close : OArchive → Handle H → Option (ℕ × Handle H)
  queue_close oa h =
      let queued = queue_buffer_bytes env (get_buffer oa) (get_buffer_len oa) h.zh in
      if is_neg queued.0
      then destroyed_with zmarshallingerror (record h { zh = queued.1 })
      else (elim (flush_waiting env 3000 rounds (queued.1).to_send (queued.1).socket
          (queued.1).last_send) [
            | none ↦ none
            | some r ↦
                destroyed_with r.0 (record h {
                  zh = record queued.1 { to_send = r.1; socket = r.2; last_send = r.3 };
                })
          ])

  unfoldable pub close_session : Handle H → Option (ℕ × Handle H)
  close_session h =
      let xid = get_xid env h.zh.xid in
      let numbered = record h { zh = record h.zh { xid = xid.1 } } in
      elim (marshal_close env xid.0) [
        | ok _ oa ↦ queue_close oa numbered
        | fail rc _ ↦ destroyed_with zmarshallingerror numbered
        | fault ↦ none
      ]

  -- While a call of the API is under way, the handle is only marked.
  unfoldable pub zookeeper_close : Handle H → Option (ℕ × Handle H)
  zookeeper_close h =
      let asked = record h { close_requested = 1 } in
      if not (asked.ref_counter == 0)
      then some (zok, asked)
      else if asked.zh.state == connected_state
      then close_session asked
      else destroyed_with zok asked

  unfoldable pub api_prolog : Handle H → Handle H
  api_prolog h = record h { ref_counter = h.ref_counter + 1 }

  -- The last call to end carries out the close that was asked for; the return code is the call's.
  unfoldable pub api_epilog : ℕ → Handle H → Option (ℕ × Handle H)
  api_epilog rc h =
      let left = record h { ref_counter = h.ref_counter - 1 } in
      if left.ref_counter == 0 && not (left.close_requested == 0)
      then (elim (zookeeper_close left) [ none ↦ none | some r ↦ some (rc, r.1) ])
      else some (rc, left)

  -- The return for an answer that is out of order, the only one with its code, leaves `api_epilog` out.
  abbrev pub finished : Outcome (Handle H) Void → Option (ℕ × Handle H)
  finished (ok _ h) = api_epilog zok h
  finished (fail rc h) = if rc == zruntimeinconsistency then some (rc, h) else api_epilog rc h
  finished fault = none

  unfoldable pub zookeeper_process : Net → Bool → Bool → Handle H → Option (ℕ × Handle H)
  zookeeper_process net readable writable h =
      if not (is_unrecoverable h.zh == 0)
      then some (zinvalidstate, h)
      else finished (process_events env malloc net readable writable (api_prolog h))

  -- The return code, the handle, and what the caller is told.
  unfoldable pub zookeeper_interest : Net → Handle H → Option (ℕ × Handle H × Interest)
  zookeeper_interest net h =
      if not (is_unrecoverable h.zh == 0)
      then some (zinvalidstate, h, no_interest (neg 1))
      else (elim (find_interest env malloc net (api_prolog h)) [
        | fault ↦ none
        | fail rc (h', i) ↦ elim (api_epilog rc h') [ none ↦ none | some r ↦ some (r.0, r.1, i) ]
        | ok _ (h', i) ↦ elim (api_epilog zok h') [ none ↦ none | some r ↦ some (r.0, r.1, i) ]
      ])
