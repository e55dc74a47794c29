-- ===== src/Session/Submit.antt =====
-- What a request leaves behind in the handle.
use ruby_zookeeper.Prelude.{
  length, take, All, length-append, All-append, length-take, Outcome, ok, Run, ◌>>◌, return,
  bind-ok, ◌==◌, if◌then◌else◌, is_neg, ℕ, ◌+◌, ◌^◌, ◌≤◌, ◌<◌, ◌≡◌, refl, sym, ap, ◌∙◌, true, false,
  none, some, List, [], ◌∷◌, ◌++◌, arith,
}
use ruby_zookeeper.Jute.Format.{IsRequestHeader, request_header_bytes}
use ruby_zookeeper.Jute.Serialize.{serialize_request_header}
use ruby_zookeeper.Jute.Types.{CString, RequestHeader}
use ruby_zookeeper.Jute.Writers.{write_request_header}
use ruby_zookeeper.Path.{is_valid_path}
use ruby_zookeeper.RecordIo.{be}
use ruby_zookeeper.RecordIo.Grow.{max_message}
use ruby_zookeeper.RecordIo.RoundTrip.{Packs, Writes-Packs}
use ruby_zookeeper.RecordIo.Write.{Writes, Writes-then}
use ruby_zookeeper.Session.{
  zok, zmarshallingerror, connected_state, Env, Completion, Zhandle, is_unrecoverable, get_xid,
  create_completion_entry, add_completion, allocate_buffer, queue_buffer_bytes, flush_send_queue,
}
use ruby_zookeeper.Session.Requests.{
  server_path, Request, finish, enqueue, marshal, write_request, submit,
}
use ruby_zookeeper.Session.Stream.{IsQueued, unsent, pending, flush_loop-Flushed}
use ruby_zookeeper.Wire.{BufferList}
use mathlib.Core.List.{append_assoc, append-nil}

-- The bytes on the line and in the send queue.
abbrev pub stream : Zhandle → List ℕ
stream zh = zh.socket.line ++ pending zh.to_send

-- Everything but the queue to send, the socket and the time of the last send.
abbrev pub SameBut : Zhandle → Zhandle → Type 0
SameBut zh zh' =
    (zh'.state ≡ zh.state)
    × (zh'.chroot ≡ zh.chroot)
    × (zh'.watcher ≡ zh.watcher)
    × (zh'.context ≡ zh.context)
    × (zh'.sent_requests ≡ zh.sent_requests)
    × (zh'.outstanding_sync ≡ zh.outstanding_sync)
    × (zh'.xid ≡ zh.xid)

-- `m` returns `rc`, with the same bytes in the stream and no other change.
pub record Flushes (m : Run Zhandle ℕ) (rc : ℕ) (zh : Zhandle) : Type 0 where
  pub after : Zhandle
  pub run : m zh ≡ ok rc after
  pub queued : All IsQueued after.to_send
  pub same_stream : stream after ≡ stream zh
  pub same : SameBut zh after

pub flush_send_queue-Flushes :
    (env : Env) (zh : Zhandle)
    → All IsQueued zh.to_send
    → (rc : ℕ) × Flushes (flush_send_queue env) rc zh
unfolding flush_send_queue
flush_send_queue-Flushes env zh h =
    let f =
      flush_loop-Flushed env (zh.state == connected_state) zh.to_send zh.socket zh.last_send h in
    (
      f.rc,
      record {
        after = record zh { to_send = f.queue; socket = f.socket; last_send = f.last_send };
        run = rw (f.run, flush_send_queue) refl;
        queued = f.queued;
        same_stream = f.stream;
        same = (refl, refl, refl, refl, refl, refl, refl);
      },
    )

pub finish-Flushes :
    (env : Env) (rc : ℕ) (zh : Zhandle)
    → All IsQueued zh.to_send
    → Flushes (finish env rc) (if is_neg rc then zmarshallingerror else zok) zh
unfolding finish
finish-Flushes env rc zh h =
    let (_, f) = flush_send_queue-Flushes env zh h in
    record {
      after = f.after;
      run =
          bind-ok (flush_send_queue env)
            (λ _. return (if is_neg rc then zmarshallingerror else zok)) f.run;
      queued = f.queued;
      same_stream = f.same_stream;
      same = f.same;
    }

-- A packet of the bytes `bs` that no part of is sent.
pub packet-IsQueued :
    (cells : List ℕ) (bs : List ℕ)
    → take (length bs) cells ≡ bs
    → length bs ≤ max_message
    → IsQueued (record { buffer = some cells; len = length bs; curr_offset = 0 })
packet-IsQueued cells bs e small = record {
  cells = cells;
  allocated = refl;
  small = omega arith;
  fits = omega (arith, ap (λ (l : List ℕ). length l) e, length-take cells (length bs));
  sent = omega arith;
}

-- A packet on the wire: its length in network order and its bytes.
abbrev pub framed : List ℕ → List ℕ
framed bs = be 4 (length bs) ++ bs

pending-append :
    (queue : List BufferList) (b : BufferList)
    → pending (queue ++ (b ∷ [])) ≡ pending queue ++ unsent b
pending-append [] b = append-nil (unsent b)
pending-append (a ∷ queue) b =
    ap (λ t. unsent a ++ t) (pending-append queue b)
    ∙ sym (append_assoc (unsent a) (pending queue) (unsent b))

-- The archive of a message that is written, as a packet.
abbrev pub Written : Env → Request → ℕ → CString → List ℕ → Type 0
Written env r xid path bs =
    Packs
      (serialize_request_header env.host env.realloc (record { xid = xid; type = r.op })
        >> r.serialize path)
      bs

-- The completion that waits for the reply to a request.
abbrev pub awaited : Request → ℕ → CString → Completion
awaited r xid path = record {
  xid = xid;
  completion_type = r.completion_type;
  c = r.completion;
  data_pointer = r.data_pointer;
  watcher = elim path [ none ↦ none | some p ↦ r.registration p ];
}

-- The request stands behind all bytes of the stream, and its completion behind those that wait.
pub record Sent (env : Env) (r : Request) (xid : ℕ) (path : CString) (bs : List ℕ) (zh : Zhandle)
    (o : Outcome Zhandle ℕ) : Type 0 where
  pub after : Zhandle
  pub run : o ≡ ok zok after
  pub queued : All IsQueued after.to_send
  pub grown : stream after ≡ stream zh ++ framed bs
  pub waits : after.sent_requests ≡ zh.sent_requests ++ (awaited r xid path ∷ [])
  pub sync : after.outstanding_sync ≡ (
      if r.completion == env.synchronous_marker
      then zh.outstanding_sync + 1
      else zh.outstanding_sync)
  pub same_state : after.state ≡ zh.state
  pub same_chroot : after.chroot ≡ zh.chroot

add_completion-granted :
    (env : Env) (r : Request) (xid : ℕ) (path : CString) (zh : Zhandle)
    → env.entry_granted xid ≡ true
    → add_completion env xid r.completion_type r.completion r.data_pointer
        (awaited r xid path).watcher
        zh
      ≡ (
        zok,
        record zh {
          sent_requests = zh.sent_requests ++ (awaited r xid path ∷ []);
          outstanding_sync =
              if r.completion == env.synchronous_marker
              then zh.outstanding_sync + 1
              else zh.outstanding_sync;
        },
      )
unfolding add_completion create_completion_entry
add_completion-granted env r xid path zh e =
    let created : create_completion_entry env xid r.completion_type r.completion r.data_pointer
          (awaited r xid path).watcher
        ≡ some (awaited r xid path) =
      rw e refl in
    rw (created, add_completion) refl

queue_buffer_bytes-granted :
    (env : Env) (cells : List ℕ) (len : ℕ) (zh : Zhandle)
    → env.buffer_granted len ≡ true
    → 0 < len
    → queue_buffer_bytes env (some cells) len zh ≡ (
      zok,
      record zh {
        to_send = zh.to_send ++ (record { buffer = some cells; len = len; curr_offset = 0 } ∷ []);
      },
    )
unfolding queue_buffer_bytes allocate_buffer
queue_buffer_bytes-granted env cells len zh e some_bytes =
    let nonempty : (len == 0) ≡ false = ground arith in
    let allocated : allocate_buffer env (some cells) len
        ≡ some (record { buffer = some cells; len = len; curr_offset = 0 }) =
      rw (e, nonempty) refl in
    rw (allocated, queue_buffer_bytes) refl

enqueue-Sent :
    (env : Env) (r : Request) (xid : ℕ) (path : CString) (bs : List ℕ) (zh : Zhandle)
    → ((n : ℕ) → env.entry_granted n ≡ true)
    → ((n : ℕ) → env.buffer_granted n ≡ true)
    → All IsQueued zh.to_send
    → 0 < length bs
    → length bs ≤ max_message
    → (w : Written env r xid path bs)
    → Sent env r xid path bs zh (enqueue env r xid path w.archive zh)
unfolding enqueue
enqueue-Sent env r xid path bs zh entries buffers h some_bytes small w =
    let b : BufferList = record { buffer = some w.cells; len = length bs; curr_offset = 0 } in
    let content : take (length bs) w.cells ≡ bs =
      ap (λ n. take n w.cells) (sym w.size) ∙ w.packet in
    let zh' : Zhandle = record zh {
      sent_requests = zh.sent_requests ++ (awaited r xid path ∷ []);
      outstanding_sync =
          if r.completion == env.synchronous_marker
          then zh.outstanding_sync + 1
          else zh.outstanding_sync;
      to_send = zh.to_send ++ (b ∷ []);
    } in
    let queued =
      All-append IsQueued zh.to_send (b ∷ []) h (packet-IsQueued w.cells bs content small, tt) in
    let f = finish-Flushes env zok zh' queued in
    let added = add_completion-granted env r xid path zh (entries xid) in
    let packed =
      queue_buffer_bytes-granted env w.cells (length bs)
        (record zh {
          sent_requests = zh.sent_requests ++ (awaited r xid path ∷ []);
          outstanding_sync =
              if r.completion == env.synchronous_marker
              then zh.outstanding_sync + 1
              else zh.outstanding_sync;
        })
        (buffers (length bs)) some_bytes in
    record {
      after = f.after;
      run = rw (added, w.buffer, w.size, packed, enqueue) f.run;
      queued = f.queued;
      grown =
          f.same_stream
          ∙ ap (λ t. zh.socket.line ++ t)
              (pending-append zh.to_send b
                ∙ ap (λ t. pending zh.to_send ++ (be 4 (length bs) ++ t)) content)
          ∙ sym (append_assoc zh.socket.line (pending zh.to_send) (framed bs));
      waits = f.same.4;
      sync = f.same.5;
      same_state = f.same.0;
      same_chroot = f.same.1;
    }

-- The handle with the next xid taken.
abbrev pub with_next_xid : Env → Zhandle → Zhandle
with_next_xid env zh = record zh { xid = (get_xid env zh.xid).1 }

submit-accepted :
    (env : Env) (r : Request) (path : CString) (p : List ℕ) (zh : Zhandle)
    → server_path zh.chroot path ≡ some (some p)
    → is_valid_path (some p) r.flags ≡ some true
    → is_neg zh.state ≡ false
    → submit env r path zh
      ≡ write_request env r (get_xid env zh.xid).0 (some p) (with_next_xid env zh)
unfolding submit is_unrecoverable
submit-accepted env r path p zh e valid alive = rw (e, submit) (rw (valid, submit) (rw alive refl))

-- Memory is granted.
pub record Grants (env : Env) : Type 0 where
  pub realloc_ok : (n : ℕ) → env.realloc n ≡ true
  pub entry_ok : (n : ℕ) → env.entry_granted n ≡ true
  pub buffer_ok : (n : ℕ) → env.buffer_granted n ≡ true

-- The packets of a handle hold their bytes, and the xid and the clock are machine integers.
pub record IsHandle (env : Env) (zh : Zhandle) : Type 0 where
  pub queued : All IsQueued zh.to_send
  pub xid_ok : zh.xid < 2 ^ 32
  pub time_ok : env.time < 2 ^ 32

get_xid-IsRequestHeader :
    (env : Env) (op : ℕ) (zh : Zhandle)
    → IsHandle env zh
    → op < 2 ^ 32
    → IsRequestHeader (record { xid = (get_xid env zh.xid).0; type = op })
unfolding get_xid
get_xid-IsRequestHeader env op zh h lt = record {
  xid_ok = ground (arith, h.xid_ok, h.time_ok);
  type_ok = lt;
}

-- For every request: if memory is granted, the handle is well-formed, the path is valid under the
-- chroot of the handle, the state of the handle is not one that it cannot leave, and the message has
-- the bytes `bs`, at most 2^28 with the header, then `submit` returns ZOK; the bytes on the
-- line and in the queue grow by exactly one packet, of a header with the next xid and `bs`, whatever
-- part of it the kernel takes; and the completion of the request is the last one that waits.
pub submit-Sent :
    (env : Env) (r : Request) (path : CString) (p bs : List ℕ) (zh : Zhandle)
    → Grants env
    → IsHandle env zh
    → r.op < 2 ^ 32
    → server_path zh.chroot path ≡ some (some p)
    → is_valid_path (some p) r.flags ≡ some true
    → is_neg zh.state ≡ false
    → Writes (r.serialize (some p)) bs
    → 8 + length bs ≤ max_message
    → Sent env r
        (get_xid env zh.xid).0
        (some p)
        (request_header_bytes (record { xid = (get_xid env zh.xid).0; type = r.op }) ++ bs)
        zh
        (submit env r path zh)
unfolding write_request marshal
submit-Sent env r path p bs zh g h lt e valid alive w small =
    let header : RequestHeader = record { xid = (get_xid env zh.xid).0; type = r.op } in
    let whole = request_header_bytes header ++ bs in
    let size = length-append (request_header_bytes header) bs in
    let long : 0 < length whole = omega arith in
    let short : length whole ≤ max_message = omega arith in
    let is_header = get_xid-IsRequestHeader env r.op zh h lt in
    let packed =
      Writes-Packs
        (Writes-then (write_request_header env.realloc g.realloc_ok env.host header is_header) w)
        short in
    let s =
      enqueue-Sent env r header.xid (some p) whole (with_next_xid env zh) g.entry_ok g.buffer_ok
        h.queued long short packed in
    record {
      after = s.after;
      run = submit-accepted env r path p zh e valid alive ∙ rw (packed.run, write_request) s.run;
      queued = s.queued;
      grown = s.grown;
      waits = s.waits;
      sync = s.sync;
      same_state = s.same_state;
      same_chroot = s.same_chroot;
    }
