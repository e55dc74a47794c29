-- ===== src/Connection/Interest.antt =====
-- `zookeeper_interest` and `send_ping`. An int is its bit pattern; the difference of two wraps, but
-- the product that is out of range is a fault.
use ruby_zookeeper.Prelude.{
  Outcome, ok, fail, fault, Void, ltb, leb, ◌==◌, if◌then◌else◌, neg, is_neg, lt_int, sub_int, ℕ,
  ◌-◌, ◌*◌, ◌/◌, ◌^◌, Bool, true, false, ◌&&◌, ◌||◌, not, Option, none, some, List, [], ◌∷◌,
}
use ruby_zookeeper.Clock.{Timeval, timeval_at, calculate_interval, get_timeval, deadline_after}
use ruby_zookeeper.Connection.{
  connected, in_progress, refused, Net, zoperationtimeout, ping_op, socket_error,
}
use ruby_zookeeper.Connection.Handshake.{prime_connection}
use ruby_zookeeper.Jute.Serialize.{serialize_request_header}
use ruby_zookeeper.RecordIo.Archive.{OArchive, create_buffer_oarchive, get_buffer, get_buffer_len}
use ruby_zookeeper.Replies.{ping_xid, connecting_state, Handle}
use ruby_zookeeper.Replies.Release.{handle_error}
use ruby_zookeeper.Session.{
  zconnectionloss, connected_state, Env, completion_void, add_completion, queue_buffer_bytes,
  flush_send_queue,
}
use ruby_zookeeper.Watchers.{HashTable}

-- What the caller is told: the descriptor, the two bits of the interest, and how long to wait.
pub record Interest : Type 0 where
  pub fd : ℕ
  pub readable : Bool
  pub writable : Bool
  pub tv : Timeval

abbrev pub no_interest : ℕ → Interest
no_interest fd = record {
  fd = fd;
  readable = false;
  writable = false;
  tv = record { tv_sec = 0; tv_usec = 0 };
}

-- `a / 3`, cut off towards 0, and `a * 2`.
unfoldable pub third : ℕ → ℕ
third a = if is_neg a then 2 ^ 32 - (2 ^ 32 - a) / 3 else a / 3

unfoldable pub twice : ℕ → Option ℕ
twice a =
    if is_neg a
    then (if ltb (2 ^ 31) ((2 ^ 32 - a) * 2) then none else some (2 ^ 32 - (2 ^ 32 - a) * 2))
    else (if leb (2 ^ 31) (a * 2) then none else some (a * 2))

abbrev pub is_empty : {A : Type 0} → List A → Bool
is_empty [] = true
is_empty (x ∷ xs) = false

unfoldable pub marshal_ping : Env → Outcome OArchive Void
marshal_ping env =
    serialize_request_header env.host env.realloc (record { xid = ping_xid; type = ping_op })
      create_buffer_oarchive

module _ (env : Env) {H : HashTable} where
  -- `rc < 0` behind each step returns it.
  unfoldable pub queue_ping : OArchive → Handle H → Outcome (Handle H) ℕ
  queue_ping oa h =
      let added = add_completion env ping_xid completion_void 0 0 none h.zh in
      let queued = queue_buffer_bytes env (get_buffer oa) (get_buffer_len oa) added.1 in
      if is_neg added.0
      then fail added.0 (record h { zh = added.1 })
      else if is_neg queued.0
      then fail queued.0 (record h { zh = queued.1 })
      else (elim (flush_send_queue env queued.1) [
        | ok rc zh ↦
            if is_neg rc then fail rc (record h { zh = zh }) else ok rc (record h { zh = zh })
        | fail rc zh ↦ fail rc (record h { zh = zh })
        | fault ↦ fault
      ])

  unfoldable pub send_ping : Handle H → Outcome (Handle H) ℕ
  send_ping h =
      let pinged = record h { last_ping = env.now } in
      elim (marshal_ping env) [
        | ok _ oa ↦ queue_ping oa pinged
        | fail rc _ ↦ fail rc pinged
        | fault ↦ fault
      ]

  unfoldable pub recv_left : ℕ → Handle H → ℕ
  recv_left doubled h =
      sub_int (third doubled) (calculate_interval (timeval_at h.last_recv) (timeval_at env.now))

  unfoldable pub send_left : Handle H → ℕ
  send_left h =
      sub_int (third h.recv_timeout)
        (calculate_interval (timeval_at h.zh.last_send) (timeval_at env.now))

  -- A ping goes out when nothing was sent for a third of the timeout and no answer is waited for; the
  -- number is what is left until the next one.
  unfoldable pub keep_alive : Handle H → Outcome (Handle H) ℕ
  keep_alive h =
      if h.zh.state == connected_state
      then (if not (lt_int 0 (send_left h)) && is_empty h.zh.sent_requests
          then (elim (send_ping h) [
            | ok _ h' ↦ ok (third h.recv_timeout) h'
            | fail rc h' ↦ fail rc h'
            | fault ↦ fault
          ])
          else ok (send_left h) h)
      else ok (third h.recv_timeout) h

  -- The shorter of the two waits, and the deadline that it gives.
  unfoldable pub wait_for : ℕ → ℕ → Handle H → Handle H × Interest
  wait_for recv_to send_to h =
      let tv = get_timeval (if lt_int recv_to send_to then recv_to else send_to) in
      (
        record h { deadline = deadline_after (timeval_at env.now) tv },
        record {
          fd = h.fd;
          readable = true;
          writable = not (is_empty h.zh.to_send) || h.zh.state == connecting_state;
          tv = tv;
        },
      )

module _ (env : Env) (malloc : ℕ → ℕ → Bool) (net : Net) {H : HashTable} where
  unfoldable pub open_connection : Handle H → Outcome (Handle H) Void
  open_connection h =
      let opened = record h {
        zh = record h.zh { socket = net.new_socket };
        fd = net.new_fd;
        inlet = net.new_inlet;
      } in
      elim (net.connect h.connect_index) [
        | in_progress ↦ ok tt (record opened { zh = record opened.zh { state = connecting_state } })
        | refused ↦ socket_error env malloc zconnectionloss opened
        | connected ↦ prime_connection env malloc opened
      ]

  -- When all servers had their turn, the first is next, and nothing is opened in this call.
  unfoldable pub next_server : Handle H → Outcome (Handle H) Void
  next_server h =
      if h.connect_index == h.addrs_count
      then ok tt (record h { connect_index = 0 })
      else open_connection h

  abbrev clocks_set : Handle H → Handle H
  clocks_set h = record h {
    zh = record h.zh { last_send = env.now };
    last_recv = env.now;
    last_ping = env.now;
  }

  -- With a connection: it is given up when nothing came for two thirds of the timeout.
  unfoldable pub watch_connection : Handle H → Outcome (Handle H × Interest) Void
  watch_connection h = elim (twice h.recv_timeout) [
    | none ↦ fault
    | some doubled ↦
        if not (lt_int 0 (recv_left env doubled h))
        then (elim (handle_error env malloc zoperationtimeout h) [
          | none ↦ fault
          | some h' ↦ fail zoperationtimeout (h', no_interest (neg 1))
        ])
        else (elim (keep_alive env h) [
          | fault ↦ fault
          | fail rc h' ↦ fail rc (h', no_interest h.fd)
          | ok send_to h' ↦ ok tt (wait_for env (recv_left env doubled h) send_to h')
        ])
  ]

  -- `zookeeper_interest` between `api_prolog` and `api_epilog`.
  unfoldable pub find_interest : Handle H → Outcome (Handle H × Interest) Void
  find_interest h =
      if h.fd == neg 1
      then (elim (next_server h) [
        | fault ↦ fault
        | fail rc h' ↦ fail rc (h', no_interest (neg 1))
        | ok _ h' ↦
            if h'.fd == neg 1
            then ok tt (
              clocks_set h',
              record (no_interest h'.fd) { tv = get_timeval (third h.recv_timeout) },
            )
            else watch_connection (clocks_set h')
      ])
      else watch_connection h
