-- ===== src/Connection/Expired.antt =====
-- The end of the handshake when the server has given up the session.
use ruby_zookeeper.Prelude.{
  length, All, fail, ◌==◌, ℕ, ◌^◌, ◌<◌, ◌≡◌, refl, Bool, true, false, Option, some, List, [], arith,
}
use ruby_zookeeper.Auth.Completions.{waiting}
use ruby_zookeeper.Connection.{Net, expired_session_state, zsessionexpired, socket_error}
use ruby_zookeeper.Connection.Close.{Round, zookeeper_process}
use ruby_zookeeper.Connection.Handshake.{handshake}
use ruby_zookeeper.Replies.{Event, Handle}
use ruby_zookeeper.Replies.Deliver.{client_path, process_replies}
use ruby_zookeeper.Replies.Faked.{told, IsRequest}
use ruby_zookeeper.Replies.Lost.{Lost, handle_error-Lost}
use ruby_zookeeper.Session.{zinvalidstate, Env, is_unrecoverable}
use ruby_zookeeper.Session.Stream.{pending}
use ruby_zookeeper.Session.Submit.{Grants}
use ruby_zookeeper.Watchers.{HashTable}
use ruby_zookeeper.Wire.Prime.{PrimeStruct}

-- Suppose that memory is granted, and that the server answers the handshake with another session
-- than the client had, which is not 0; that the queue holds requests of the API, that is, with
-- 32-bit xids other than the one of notifications and not of the type of watchers; that the count of
-- synchronous callers is that of the synchronous requests in the queue, and below 2^32; that the
-- completions that wait to be processed can be delivered without a fault, which makes the calls
-- `pending`; and that the path of a session event is `p` for the watchers. Then the session has
-- expired: every request that waits ends exactly once with ZSESSIONEXPIRED, as `handle_error` ends
-- them, the watchers hear of the state, which stays, and no call of `zookeeper_process` does
-- anything any more but return ZINVALIDSTATE.
pub handshake-expired :
    (env : Env) (malloc : ℕ → ℕ → Bool) (grants : Grants env)
    (granted : (off n : ℕ) → malloc off n ≡ true) (rounds : List Round) (net : Net) {H : HashTable}
    (r : PrimeStruct) (h : Handle H) (pending : List Event) (p : Option (List ℕ))
    → (h.client_id.client_id == 0) ≡ false
    → (h.client_id.client_id == r.session_id) ≡ false
    → client_path h.zh.chroot (some []) ≡ some p
    → process_replies env malloc h.zh.chroot h.completions_to_process ≡ some pending
    → All IsRequest h.zh.sent_requests
    → h.zh.outstanding_sync ≡ length (told env h.zh.sent_requests)
    → h.zh.outstanding_sync < 2 ^ 32
    → (h' : Handle H) × (handshake env malloc r h ≡ fail zsessionexpired h')
      × Lost env zsessionexpired
          (record h { zh = record h.zh { state = expired_session_state } })
          pending
          p
          h'
      × (h'.zh.state ≡ expired_session_state)
      × ((readable writable : Bool)
          → zookeeper_process env malloc rounds net readable writable h' ≡ some (zinvalidstate, h'))
unfolding handshake socket_error zookeeper_process is_unrecoverable
handshake-expired env malloc grants granted rounds net r h pending p known other at waiting are
      count few =
    let gone = record h { zh = record h.zh { state = expired_session_state } } in
    let (h', run, lost) =
      handle_error-Lost env malloc grants granted zsessionexpired gone pending p (omega arith) refl
        (omega arith) at waiting are count few in
    (
      h',
      rw (known, other) (rw (run, socket_error) refl),
      lost,
      lost.state,
      λ readable writable. rw lost.state refl,
    )
