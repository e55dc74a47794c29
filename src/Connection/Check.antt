-- ===== src/Connection/Check.antt =====
-- `check_events` and `zookeeper_process`. The two bits of the events are Booleans.
use ruby_zookeeper.Prelude.{
  Outcome, ok, fail, fault, Void, ◌==◌, if◌then◌else◌, neg, is_neg, ℕ, zero, suc, Bool, true, false,
  ◌&&◌, not, none, some, List, [], ◌∷◌, ◌++◌,
}
use ruby_zookeeper.Connection.{Net, znothing, socket_error}
use ruby_zookeeper.Connection.Handshake.{prime_connection, finish_handshake}
use ruby_zookeeper.Replies.{connecting_state, no_input, primer_input, own_input, Handle}
use ruby_zookeeper.Replies.Deliver.{process_if_async}
use ruby_zookeeper.Replies.Process.{process_buffers}
use ruby_zookeeper.Session.{
  zconnectionloss, zinvalidstate, Env, Zhandle, allocate_buffer, flush_send_queue,
}
use ruby_zookeeper.Watchers.{HashTable}
use ruby_zookeeper.Wire.{BufferList}
use ruby_zookeeper.Wire.Receive.{Inlet, recv_buffer}

abbrev pub is_nil : List BufferList → Bool
is_nil [] = true
is_nil (b ∷ bs) = false

module _ (env : Env) (malloc : ℕ → ℕ → Bool) (net : Net) {H : HashTable} where
  -- What the sending of the queue comes to.
  unfoldable pub flushed : Handle H → Outcome Zhandle ℕ → Outcome (Handle H) Void
  flushed h (ok rc zh) =
      if is_neg rc
      then socket_error env malloc zconnectionloss (record h { zh = zh })
      else ok tt (record h { zh = zh })
  flushed h (fail rc zh) = socket_error env malloc zconnectionloss (record h { zh = zh })
  flushed h fault = fault

  unfoldable pub flush_events : Bool → Handle H → Outcome (Handle H) Void
  flush_events writable h =
      if not (is_nil h.zh.to_send) && writable
      then flushed h (flush_send_queue env h.zh)
      else ok tt h

  -- A message goes to the queue of those to process.
  unfoldable pub own_received : Handle H → Outcome (BufferList × Inlet) ℕ → Outcome (Handle H) Void
  own_received h (ok zero (b, s)) =
      fail znothing (record h { input_buffer = own_input b; inlet = s })
  own_received h (ok (suc n) (b, s)) = ok tt (record h {
    input_buffer = no_input;
    inlet = s;
    last_recv = env.now;
    to_process = h.to_process ++ (b ∷ []);
  })
  own_received h (fail rc (b, s)) =
      socket_error env malloc zconnectionloss (record h { input_buffer = own_input b; inlet = s })
  own_received h fault = fault

  unfoldable pub primer_received :
      Handle H → Outcome (BufferList × Inlet) ℕ → Outcome (Handle H) Void
  primer_received h (ok zero (b, s)) = fail znothing (record h { primer_buffer = b; inlet = s })
  primer_received h (ok (suc n) (b, s)) =
      finish_handshake env malloc (record h { primer_buffer = b; inlet = s; last_recv = env.now })
  primer_received h (fail rc (b, s)) =
      socket_error env malloc zconnectionloss (record h { primer_buffer = b; inlet = s })
  primer_received h fault = fault

  -- A new buffer has no memory for a message yet; without memory for itself the code goes on with null.
  unfoldable pub read_event : Handle H → Outcome (Handle H) Void
  read_event h = elim h.input_buffer [
    | no_input ↦ elim (allocate_buffer env none 0) [
      | none ↦ fault
      | some b ↦ own_received h (recv_buffer env.host net.granted (b, h.inlet))
    ]
    | own_input b ↦ own_received h (recv_buffer env.host net.granted (b, h.inlet))
    | primer_input ↦ primer_received h (recv_buffer env.host net.granted (h.primer_buffer, h.inlet))
  ]

  unfoldable pub exchange : Bool → Bool → Handle H → Outcome (Handle H) Void
  exchange readable writable h = elim (flush_events writable h) [
    | ok _ h' ↦ if readable then read_event h' else ok tt h'
    | fail rc h' ↦ fail rc h'
    | fault ↦ fault
  ]

  unfoldable pub check_events : Bool → Bool → Handle H → Outcome (Handle H) Void
  check_events readable writable h =
      if h.fd == neg 1
      then fail zinvalidstate h
      else if writable && h.zh.state == connecting_state
      then (if net.sound
          then prime_connection env malloc h
          else socket_error env malloc zconnectionloss h)
      else exchange readable writable h

  -- `zookeeper_process` between `api_prolog` and `api_epilog`.
  unfoldable pub process_events : Bool → Bool → Handle H → Outcome (Handle H) Void
  process_events readable writable h = elim (check_events readable writable h) [
    | fail rc h' ↦ fail rc h'
    | fault ↦ fault
    | ok _ h' ↦ elim (process_buffers env malloc h'.to_process h') [
      | fail rc h'' ↦ fail rc h''
      | fault ↦ fault
      | ok _ h'' ↦ elim (process_if_async env malloc H h'') [
        | none ↦ fault
        | some done ↦ ok tt done
      ]
    ]
  ]
