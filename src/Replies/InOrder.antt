-- ===== src/Replies/InOrder.antt =====
-- The loop of `zookeeper_process` over answers to requests.
use ruby_zookeeper.Prelude.{
  length, All, ok, fail, ◌==◌, if◌then◌else◌, ==_refl, Bool-cases, ℕ, ◌^◌, ◌<◌, ◌≡◌, refl, sym, ap,
  ◌∙◌, inl, inr, Bool, true, false, Option, some, List, [], ◌∷◌, ◌++◌, map, arith,
}
use ruby_zookeeper.Jute.Types.{ReplyHeader}
use ruby_zookeeper.Replies.{
  ping_xid, zruntimeinconsistency, Event, Reply, response, Handle, watches, with_watches,
}
use ruby_zookeeper.Replies.Deliver.{client_path, process_replies}
use ruby_zookeeper.Replies.Faked.{told, IsRequest}
use ruby_zookeeper.Replies.Lost.{Lost, handle_error-Lost}
use ruby_zookeeper.Replies.Packet.{IsPacket, IsOrdinary, packet-read, process_buffer-packet}
use ruby_zookeeper.Replies.Process.{
  see_zxid, finish_request, process_response, process_buffer, process_buffers,
}
use ruby_zookeeper.Replies.Release.{handle_error}
use ruby_zookeeper.Session.{Env, Completion}
use ruby_zookeeper.Session.Submit.{Grants}
use ruby_zookeeper.Watchers.{HashTable, activate_watcher}
use ruby_zookeeper.Wire.{BufferList}
use ruby_zookeeper.Wire.Receive.{taken}
use mathlib.Core.List.{append-nil, append_assoc}

-- An answer to an asynchronous request that its header names.
pub record IsAnswer (env : Env) (c : Completion) (b : BufferList) : Type 0 where
  pub header : ReplyHeader
  pub packet : IsPacket b header
  pub same : header.xid ≡ c.xid
  pub plain : IsOrdinary header.xid
  pub asynchronous : (c.c == env.synchronous_marker) ≡ false

abbrev pub AreAnswers : Env → List (Completion × BufferList) → Type 0
AreAnswers env pairs = All (λ a. IsAnswer env a.0 a.1) pairs

abbrev pub requests : List (Completion × BufferList) → List Completion
requests pairs = map (λ a. a.0) pairs

abbrev pub buffers : List (Completion × BufferList) → List BufferList
buffers pairs = map (λ a. a.1) pairs

-- The responses for the user: all but those to pings.
abbrev pub responses : List (Completion × BufferList) → List Reply
responses [] = []
responses ((c, b) ∷ rest) =
    let more = responses rest in if c.xid == ping_xid then more else response c b ∷ more

responses-cons :
    (c : Completion) (b : BufferList) (pairs : List (Completion × BufferList))
    → responses ((c, b) ∷ []) ++ responses pairs ≡ responses ((c, b) ∷ pairs)
responses-cons c b pairs = elim (Bool-cases (c.xid == ping_xid)) [
  | inl ping ↦ rw ping refl
  | inr no_ping ↦ rw no_ping refl
]

pub record Answered {H : HashTable} (h : Handle H) (pairs : List (Completion × BufferList))
    (rest : List Completion) (h' : Handle H) : Type 0 where
  pub left : h'.zh.sent_requests ≡ rest
  pub queued : h'.completions_to_process ≡ h.completions_to_process ++ responses pairs
  pub quiet : h'.events ≡ h.events
  pub syncs : h'.syncs ≡ h.syncs
  pub outstanding : h'.zh.outstanding_sync ≡ h.zh.outstanding_sync
  pub state : h'.zh.state ≡ h.zh.state
  pub to_send : h'.zh.to_send ≡ h.zh.to_send
  pub chroot : h'.zh.chroot ≡ h.zh.chroot
  pub counted : h'.ref_counter ≡ h.ref_counter
  pub requested : h'.close_requested ≡ h.close_requested

module _ (env : Env) (malloc : ℕ → ℕ → Bool) (granted : (off n : ℕ) → malloc off n ≡ true)
    {H : HashTable} where
  answer-step :
      (c : Completion) (b : BufferList) (rest : List Completion) (h : Handle H)
      → IsAnswer env c b
      → h.zh.sent_requests ≡ c ∷ rest
      → (h' : Handle H) × (process_buffer env malloc b h ≡ ok tt h')
        × Answered h ((c, b) ∷ []) rest h'
  unfolding process_response see_zxid finish_request with_watches
  answer-step c b rest h is first =
      let hdr = is.header in
      let (ia, read) = packet-read env malloc granted b hdr is.packet in
      let h0 = see_zxid hdr h in
      let dequeued = record h0 { zh = record h0.zh { sent_requests = rest } } in
      let activated =
        with_watches H dequeued (activate_watcher H (watches H dequeued) c.watcher hdr.err) in
      let own : (c.xid == hdr.xid) ≡ true = rw is.same (==_refl c.xid) in
      let round : process_buffer env malloc b h
          ≡ process_response env malloc hdr b ia h0 (c ∷ rest) =
        process_buffer-packet env malloc granted b hdr h is.packet is.plain
        ∙ ap (process_response env malloc hdr b ia h0) first in
      elim (Bool-cases (c.xid == ping_xid)) [
        | inl ping ↦
            let ping' : (hdr.xid == ping_xid) ≡ true = rw is.same ping in
            let done : finish_request env malloc c hdr b ia activated ≡ some activated =
              rw (is.asynchronous, ping') refl in
            (
              activated,
              round ∙ rw own (rw (done, process_response) refl),
              record {
                left = refl;
                queued = rw ping (sym (append-nil h.completions_to_process));
                quiet = refl;
                syncs = refl;
                outstanding = refl;
                state = refl;
                to_send = refl;
                chroot = refl;
                counted = refl;
                requested = refl;
              },
            )
        | inr no_ping ↦
            let no_ping' : (hdr.xid == ping_xid) ≡ false = rw is.same no_ping in
            let h' = record activated {
              completions_to_process = activated.completions_to_process ++ (response c b ∷ []);
            } in
            let done : finish_request env malloc c hdr b ia activated ≡ some h' =
              rw (is.asynchronous, no_ping') refl in
            (
              h',
              round ∙ rw own (rw (done, process_response) refl),
              record {
                left = refl;
                queued = rw no_ping refl;
                quiet = refl;
                syncs = refl;
                outstanding = refl;
                state = refl;
                to_send = refl;
                chroot = refl;
                counted = refl;
                requested = refl;
              },
            )
      ]

  -- If memory is granted: when the buffers that were received are answers to the first asynchronous
  -- requests in their order, the loop takes each of these requests off the queue, and no other. It puts
  -- them with their answers, in this order and behind what waits there, on the queue for the user,
  -- answers to pings excepted; it calls nobody, returns no error, and takes all the buffers.
  pub process_buffers-Answered :
      (pairs : List (Completion × BufferList)) (rest : List Completion) (h : Handle H)
      → AreAnswers env pairs
      → h.zh.sent_requests ≡ requests pairs ++ rest
      → (h' : Handle H) × (process_buffers env malloc (buffers pairs) h ≡ ok tt h')
        × Answered h pairs rest h'
        × (h'.to_process ≡ [])
  unfolding process_buffers
  process_buffers-Answered [] rest h are e = (
    record h { to_process = [] },
    refl,
    record {
      left = e;
      queued = sym (append-nil h.completions_to_process);
      quiet = refl;
      syncs = refl;
      outstanding = refl;
      state = refl;
      to_send = refl;
      chroot = refl;
      counted = refl;
      requested = refl;
    },
    refl,
  )
  process_buffers-Answered ((c, b) ∷ pairs) rest h are e =
      let h0 = record h { to_process = buffers pairs } in
      let (h1, run, one) = answer-step c b (requests pairs ++ rest) h0 are.0 e in
      let (h', runs, more, taken) = process_buffers-Answered pairs rest h1 are.1 one.left in
      (
        h',
        rw (run, process_buffers) runs,
        record {
          left = more.left;
          queued =
              more.queued
              ∙ ap (λ t. t ++ responses pairs) one.queued
              ∙ append_assoc h.completions_to_process (responses ((c, b) ∷ [])) (responses pairs)
              ∙ ap (λ t. h.completions_to_process ++ t) (responses-cons c b pairs);
          quiet = more.quiet ∙ one.quiet;
          syncs = more.syncs ∙ one.syncs;
          outstanding = more.outstanding ∙ one.outstanding;
          state = more.state ∙ one.state;
          to_send = more.to_send ∙ one.to_send;
          chroot = more.chroot ∙ one.chroot;
          counted = more.counted ∙ one.counted;
          requested = more.requested ∙ one.requested;
        },
        taken,
      )

  -- Suppose that memory is granted, that the next buffer is a packet with the header of an answer to
  -- a request, and that the first request that waits has another xid; that the handle's state is an
  -- int; its queue holds requests of the API, that is, with 32-bit xids other than the one of
  -- notifications and not of the type of watchers; its count of synchronous callers is that of the
  -- synchronous requests in the queue, and below 2^32; and the completions that wait to be processed
  -- can be delivered without a fault, which makes the calls `pending`; and that the path of a
  -- session event is `p` for the watchers. Then the loop returns ZRUNTIMEINCONSISTENCY, and the
  -- connection is lost with this reason: what `handle_error` does to the requests that wait, the
  -- first one among them, is what happens here.
  pub process_buffers-out_of_order :
      (grants : Grants env) (b : BufferList) (bs : List BufferList) (header : ReplyHeader)
      (c : Completion) (rest : List Completion) (h : Handle H) (pending : List Event)
      (p : Option (List ℕ))
      → IsPacket b header
      → IsOrdinary header.xid
      → (c.xid == header.xid) ≡ false
      → h.zh.sent_requests ≡ c ∷ rest
      → h.zh.state < 2 ^ 32
      → client_path h.zh.chroot (some []) ≡ some p
      → process_replies env malloc h.zh.chroot h.completions_to_process ≡ some pending
      → All IsRequest h.zh.sent_requests
      → h.zh.outstanding_sync ≡ length (told env h.zh.sent_requests)
      → h.zh.outstanding_sync < 2 ^ 32
      → (h' : Handle H) × (process_buffers env malloc (b ∷ bs) h ≡ fail zruntimeinconsistency h')
        × Lost env zruntimeinconsistency
            (see_zxid header (record h { to_process = bs }))
            pending
            p
            h'
  unfolding process_buffers process_response see_zxid
  process_buffers-out_of_order grants b bs header c rest h pending p packet plain other first wide
        at waiting are count few =
      let h0 = see_zxid header (record h { to_process = bs }) in
      let first' : h0 ≡ record h0 { zh = record h0.zh { sent_requests = c ∷ rest } } =
        λ i. record h0 { zh = record h0.zh { sent_requests = first i } } in
      let (h', run, lost) =
        handle_error-Lost env malloc grants granted zruntimeinconsistency h0 pending p (omega arith)
          refl wide at waiting are count few in
      let run' : handle_error env malloc zruntimeinconsistency
            (record h0 { zh = record h0.zh { sent_requests = c ∷ rest } })
          ≡ some h' =
        ap (handle_error env malloc zruntimeinconsistency) (sym first') ∙ run in
      let (ia, read) = packet-read env malloc granted b header packet in
      let round : process_buffer env malloc b (record h { to_process = bs })
          ≡ fail zruntimeinconsistency h' =
        process_buffer-packet env malloc granted b header (record h { to_process = bs }) packet
          plain
        ∙ ap (process_response env malloc header b ia h0) first
        ∙ rw other (rw (run', process_response) refl) in
      (h', rw (round, process_buffers) refl, lost)
