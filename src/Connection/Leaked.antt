-- ===== src/Connection/Leaked.antt =====
-- `zookeeper_process` when an answer comes out of order: what it returns, and what stays behind.
use ruby_zookeeper.Prelude.{
  length, All, ok, fail, ◌==◌, ℕ, ◌+◌, ◌^◌, ◌<◌, ◌≡◌, refl, ap, ◌∙◌, Bool, true, false, Option,
  some, List, [], ◌∷◌, arith,
}
use ruby_zookeeper.Auth.Completions.{waiting}
use ruby_zookeeper.Connection.{Net}
use ruby_zookeeper.Connection.Check.{check_events, process_events}
use ruby_zookeeper.Connection.Counted.{Steady}
use ruby_zookeeper.Connection.Steps.{check_events-Steady}
use ruby_zookeeper.Connection.Close.{Round, zookeeper_close, api_prolog, zookeeper_process}
use ruby_zookeeper.Jute.Types.{ReplyHeader}
use ruby_zookeeper.Replies.{zruntimeinconsistency, Event, Handle}
use ruby_zookeeper.Replies.Deliver.{client_path, process_replies}
use ruby_zookeeper.Replies.Faked.{told, IsRequest}
use ruby_zookeeper.Replies.InOrder.{process_buffers-out_of_order}
use ruby_zookeeper.Replies.Packet.{IsPacket, IsOrdinary}
use ruby_zookeeper.Replies.Process.{see_zxid, process_buffers}
use ruby_zookeeper.Session.{zok, Env, Completion, is_unrecoverable}
use ruby_zookeeper.Session.Submit.{Grants}
use ruby_zookeeper.Watchers.{HashTable}
use ruby_zookeeper.Wire.{BufferList}

-- Suppose that memory is granted, and that the handle is not beyond recovery; that `check_events`
-- passes, and in the handle that it leaves the first buffer that has been received is a packet with
-- the header of an answer, while the first request that waits has another xid; that there the state
-- is an int; the queue holds requests of the API, that is, with 32-bit xids other than the one of
-- notifications and not of the type of watchers; the count of synchronous callers is that of the
-- synchronous requests in the queue, and below 2^32; and the completions that wait to be processed
-- can be delivered without a fault, which makes the calls `pending`; and that the path of a session
-- event is `p` for the watchers. Then `zookeeper_process` returns ZRUNTIMEINCONSISTENCY without
-- taking its call off the count of the calls under way. With no call under way any more,
-- `zookeeper_close` then only marks the handle.
pub zookeeper_process-leaks :
    (env : Env) (malloc : ℕ → ℕ → Bool) (grants : Grants env)
    (granted : (off n : ℕ) → malloc off n ≡ true) (rounds : List Round) (net : Net) {H : HashTable}
    (readable writable : Bool) (h h1 : Handle H) (b : BufferList) (bs : List BufferList)
    (header : ReplyHeader) (c : Completion) (rest : List Completion) (pending : List Event)
    (p : Option (List ℕ))
    → (is_unrecoverable h.zh == 0) ≡ true
    → check_events env malloc net readable writable (api_prolog env malloc rounds h) ≡ ok tt h1
    → h1.to_process ≡ b ∷ bs
    → IsPacket b header
    → IsOrdinary header.xid
    → (c.xid == header.xid) ≡ false
    → h1.zh.sent_requests ≡ c ∷ rest
    → h1.zh.state < 2 ^ 32
    → client_path h1.zh.chroot (some []) ≡ some p
    → process_replies env malloc h1.zh.chroot h1.completions_to_process ≡ some pending
    → All IsRequest h1.zh.sent_requests
    → h1.zh.outstanding_sync ≡ length (told env h1.zh.sent_requests)
    → h1.zh.outstanding_sync < 2 ^ 32
    → (h' : Handle H) × (zookeeper_process env malloc rounds net readable writable h
        ≡ some (zruntimeinconsistency, h'))
      × (h'.ref_counter ≡ h.ref_counter + 1)
      × (zookeeper_close env malloc rounds h' ≡ some (zok, record h' { close_requested = 1 }))
unfolding zookeeper_process api_prolog process_events zookeeper_close see_zxid
zookeeper_process-leaks env malloc grants granted rounds net readable writable h h1 b bs header c
      rest pending p usable checked received packet plain other first wide at waiting are count
      few =
    let within : Steady (api_prolog env malloc rounds h) h1 =
      rw checked at
        (check_events-Steady env malloc net readable writable (api_prolog env malloc rounds h)) in
    let counted : h1.ref_counter ≡ h.ref_counter + 1 = within.counter in
    let (h', run, lost) =
      process_buffers-out_of_order env malloc granted grants b bs header c rest h1 pending p packet
        plain other first wide at waiting are count few in
    let run' : process_buffers env malloc h1.to_process h1 ≡ fail zruntimeinconsistency h' =
      ap (λ t. process_buffers env malloc t h1) received ∙ run in
    let work : process_events env malloc net readable writable (api_prolog env malloc rounds h)
        ≡ fail zruntimeinconsistency h' =
      rw (checked, process_events) (rw (run', process_events) refl) in
    let busy : (h'.ref_counter == 0) ≡ false = rw (lost.counted, counted) (ground arith) in
    (
      h',
      rw (usable, work, zookeeper_process) refl,
      lost.counted ∙ counted,
      rw (busy, zookeeper_close) refl,
    )
