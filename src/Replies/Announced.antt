-- ===== src/Replies/Announced.antt =====
-- The session event that the watchers hear of when the connection is lost or made.
use ruby_zookeeper.Prelude.{
  drop, take-append-drop, ok, ◌==◌, Bool-cases, ℕ, ◌^◌, ◌<◌, ◌≡◌, refl, sym, ap, ◌∙◌, inl, inr,
  Bool, true, false, Option, some, List, [], ◌∷◌, ◌++◌, map, arith,
}
use ruby_zookeeper.Auth.Completions.{waiting}
use ruby_zookeeper.Jute.Deserialize.{deserialize_reply_header, deserialize_watcher_event}
use ruby_zookeeper.Jute.Format.{
  IsReplyHeader, reply_header_bytes, IsWatcherEvent, watcher_event_bytes,
}
use ruby_zookeeper.Jute.Readers.{read_reply_header, read_watcher_event}
use ruby_zookeeper.Jute.Types.{ReplyHeader, WatcherEvent}
use ruby_zookeeper.Jute.Writers.{write_reply_header, write_watcher_event}
use ruby_zookeeper.RecordIo.Archive.{
  OArchive, IArchive, create_buffer_iarchive, get_buffer, get_buffer_len,
}
use ruby_zookeeper.RecordIo.Read.{Left}
use ruby_zookeeper.RecordIo.RoundTrip.{Writes-Packs}
use ruby_zookeeper.RecordIo.Write.{Writes-then}
use ruby_zookeeper.Replies.{watcher_event_xid, Event, watched, notification, Handle, watches}
use ruby_zookeeper.Replies.Deliver.{
  client_path, deliver_watchers, notify, call_reply, process_reply, process_replies,
  process_completions, process_if_async,
}
use ruby_zookeeper.Replies.Release.{marshal_event, event_buffer, queue_session_event}
use ruby_zookeeper.Replies.Released.{process_replies-cons, process_replies-append}
use ruby_zookeeper.Session.{Env, allocate_buffer}
use ruby_zookeeper.Session.Stream.{pending}
use ruby_zookeeper.Session.Submit.{Grants}
use ruby_zookeeper.Watchers.{HashTable, WatcherObject, session_event, collect_watchers}
use ruby_zookeeper.Wire.{BufferList}
use mathlib.Core.List.{append-nil}

event_buffer-made :
    (env : Env) (oa : OArchive) (cells : List ℕ)
    → Grants env
    → get_buffer oa ≡ some cells
    → (get_buffer_len oa == 0) ≡ false
    → event_buffer env oa
      ≡ some
          (record { buffer = some cells; len = get_buffer_len oa; curr_offset = get_buffer_len oa })
unfolding event_buffer allocate_buffer
event_buffer-made env oa cells grants stored not_empty =
    let len = get_buffer_len oa in
    let allocated : allocate_buffer env (get_buffer oa) len
        ≡ some (record { buffer = some cells; len = len; curr_offset = 0 }) =
      rw (grants.buffer_ok len, not_empty)
        (ap (λ c. some (record { buffer = c; len = len; curr_offset = 0 })) stored) in
    rw (allocated, event_buffer) refl

module _ (env : Env) (malloc : ℕ → ℕ → Bool) (grants : Grants env)
    (granted : (off n : ℕ) → malloc off n ≡ true) (state : ℕ) (wide : state < 2 ^ 32) where
  abbrev header : ReplyHeader
  header = record { xid = watcher_event_xid; zxid = 0; err = 0 }

  abbrev event : WatcherEvent
  event = record { type = session_event; state = state; path = some [] }

  -- The buffer of the event, and what is read from it.
  event-read :
      (b : BufferList) × (cells : List ℕ) × (ia ia' : IArchive) × (oa : OArchive) × (marshal_event
          env state
        ≡ ok tt oa)
      × (event_buffer env oa ≡ some b)
      × (b.buffer ≡ some cells)
      × (deserialize_reply_header env.host malloc (create_buffer_iarchive cells b.len)
          ≡ ok header ia)
      × (deserialize_watcher_event env.host malloc ia ≡ ok event ia')
  unfolding create_buffer_iarchive marshal_event
  event-read =
      let header_ok : IsReplyHeader header = record {
        xid_ok = omega arith;
        zxid_ok = omega arith;
        err_ok = omega arith;
      } in
      let event_ok : IsWatcherEvent event = record {
        type_ok = omega arith;
        state_ok = wide;
        path_ok = omega arith;
      } in
      let packed =
        Writes-Packs
          (Writes-then (write_reply_header env.realloc grants.realloc_ok env.host header header_ok)
            (write_watcher_event env.realloc grants.realloc_ok env.host event event_ok))
          (omega arith) in
      let len = get_buffer_len packed.archive in
      let size : len ≡ 28 = packed.size in
      let not_empty : (len == 0) ≡ false = ground arith in
      let b : BufferList = record { buffer = some packed.cells; len = len; curr_offset = len } in
      let bytes = reply_header_bytes header in
      let more = watcher_event_bytes event in
      let tail = drop len packed.cells in
      let start : packed.cells ≡ (bytes ++ more) ++ tail =
        sym (take-append-drop len packed.cells) ∙ ap (λ t. t ++ tail) packed.packet in
      let archive = create_buffer_iarchive packed.cells len in
      let left : Left tail archive (bytes ++ more) = record {
        bytes = start;
        room = omega arith;
        fits = omega arith;
        small = omega arith;
      } in
      let (ia, run, left') =
        (read_reply_header malloc granted env.host header header_ok).run tail archive more left in
      let (ia', run', left'') =
        (read_watcher_event malloc granted env.host event event_ok).run tail ia [] left' in
      let made : event_buffer env packed.archive ≡ some b =
        event_buffer-made env packed.archive packed.cells grants packed.buffer not_empty in
      (b, packed.cells, ia, ia', packed.archive, packed.run, made, refl, run, run')

  process_reply-event :
      (chroot p : Option (List ℕ)) (list : List WatcherObject) (b : BufferList) (cells : List ℕ)
      (ia ia' : IArchive)
      → client_path chroot (some []) ≡ some p
      → b.buffer ≡ some cells
      → deserialize_reply_header env.host malloc (create_buffer_iarchive cells b.len) ≡ ok header ia
      → deserialize_watcher_event env.host malloc ia ≡ ok event ia'
      → process_reply env malloc chroot (notification b list)
        ≡ some (map (λ wo. watched wo session_event state p) list)
  unfolding process_reply call_reply notify deliver_watchers
  process_reply-event chroot p list b cells ia ia' e stored read read' =
      rw (stored, process_reply)
        (rw (read, process_reply) (rw (read', notify) (rw (e, deliver_watchers) refl)))

-- The handle `h1` comes from `h` by calls: those made and those to come are `calls` more.
pub record Heard (env : Env) (malloc : ℕ → ℕ → Bool) {H : HashTable} (h : Handle H)
    (calls : List Event) (h1 : Handle H) : Type 0 where
  pub same :
      h1 ≡ record h { completions_to_process = h1.completions_to_process; events = h1.events }
  pub after : List Event
  pub to_come : process_replies env malloc h.zh.chroot h1.completions_to_process ≡ some after
  pub total : h1.events ++ after ≡ h.events ++ calls

module _ (env : Env) (malloc : ℕ → ℕ → Bool) {H : HashTable} where
  pub process_if_async-Heard :
      (h : Handle H) (calls : List Event)
      → process_replies env malloc h.zh.chroot h.completions_to_process ≡ some calls
      → (h1 : Handle H) × (process_if_async env malloc H h ≡ some h1) × Heard env malloc h calls h1
  unfolding process_if_async process_completions process_replies
  process_if_async-Heard h calls e = elim (Bool-cases (h.zh.outstanding_sync == 0)) [
    | inl free ↦
        let h1 = record h { completions_to_process = []; events = h.events ++ calls } in
        (
          h1,
          rw free (rw (e, process_completions) refl),
          record {
            same = refl;
            after = [];
            to_come = refl;
            total = append-nil (h.events ++ calls);
          },
        )
    | inr busy ↦ (h, rw busy refl, record { same = refl; after = calls; to_come = e; total = refl })
  ]

-- The calls of the watchers for a session event: the default one and all that are in the tables.
abbrev pub announced : {H : HashTable} → Handle H → ℕ → Option (List ℕ) → List Event
announced {H} h state p =
    map (λ wo. watched wo session_event state p)
      (collect_watchers H (watches H h) session_event []).1

module _ (env : Env) (malloc : ℕ → ℕ → Bool) (grants : Grants env)
    (granted : (off n : ℕ) → malloc off n ≡ true) {H : HashTable} where
  -- If memory is granted: a session event calls the default watcher and all in the tables, now or with
  -- the completions that wait, behind the calls that were waiting, and nothing else changes.
  pub queue_session_event-Heard :
      (state : ℕ) (h : Handle H) (pending : List Event) (p : Option (List ℕ))
      → state < 2 ^ 32
      → client_path h.zh.chroot (some []) ≡ some p
      → process_replies env malloc h.zh.chroot h.completions_to_process ≡ some pending
      → (h1 : Handle H) × (queue_session_event env malloc state h ≡ some h1)
        × Heard env malloc h (pending ++ announced h state p) h1
  unfolding queue_session_event process_replies
  queue_session_event-Heard state h pending p wide at waiting =
      let event = event-read env malloc grants granted state wide in
      let b = event.0 in
      let list = (collect_watchers H (watches H h) session_event []).1 in
      let h' = record h {
        completions_to_process = h.completions_to_process ++ (notification b list ∷ []);
      } in
      let one =
        process_reply-event env malloc grants granted state wide h.zh.chroot p list b event.1
          event.2 event.3 at event.7 event.8 event.9 in
      let all =
        process_replies-append env malloc h.zh.chroot h.completions_to_process
          (notification b list ∷ []) pending (announced h state p) waiting
          (process_replies-cons env malloc h.zh.chroot (notification b list) []
              (announced h state p) [] one refl
            ∙ ap (λ t. some t) (append-nil (announced h state p))) in
      let (h1, run, heard) =
        process_if_async-Heard env malloc h' (pending ++ announced h state p) all in
      (
        h1,
        rw (event.5, queue_session_event) (rw (grants.entry_ok watcher_event_xid, event.6) run),
        record {
          same = heard.same;
          after = heard.after;
          to_come = heard.to_come;
          total = heard.total;
        },
      )
