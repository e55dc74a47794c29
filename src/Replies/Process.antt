-- ===== src/Replies/Process.antt =====
-- `zookeeper_process` behind `check_events`: the loop over the buffers that have been received.
use ruby_zookeeper.Prelude.{
  Outcome, ok, fail, fault, Void, ltb, ◌==◌, if◌then◌else◌, ℕ, ◌^◌, Bool, ◌&&◌, not, Option, none,
  some, List, [], ◌∷◌, ◌++◌, map,
}
use ruby_zookeeper.Auth.{AuthHandle, auth_xid, auth_completion_func}
use ruby_zookeeper.Jute.Deserialize.{deserialize_reply_header, deserialize_watcher_event}
use ruby_zookeeper.Jute.Types.{ReplyHeader}
use ruby_zookeeper.RecordIo.Archive.{IArchive, create_buffer_iarchive}
use ruby_zookeeper.Replies.{
  watcher_event_xid, ping_xid, set_watches_xid, zruntimeinconsistency, zauthfailed, authenticated,
  SyncCompletion, response, notification, Handle, watches, with_watches,
}
use ruby_zookeeper.Replies.Release.{notify_sync, handle_error}
use ruby_zookeeper.Replies.Sync.{sync_completed}
use ruby_zookeeper.Session.{Env, Completion, is_unrecoverable}
use ruby_zookeeper.Watchers.{HashTable, collect_watchers, activate_watcher}
use ruby_zookeeper.Wire.{BufferList}

-- `hdr.zxid > 0`, of 64 bits.
abbrev pub is_positive : ℕ → Bool
is_positive zxid = ltb 0 zxid && ltb zxid (2 ^ 63)

unfoldable pub put_sync : (ℕ → SyncCompletion) → ℕ → SyncCompletion → ℕ → SyncCompletion
put_sync syncs sc s a = if a == sc then s else syncs a

module _ {H : HashTable} where
  unfoldable pub auth_handle : Handle H → AuthHandle
  auth_handle h = record { state = h.zh.state; auth_h = h.auth_h; to_send = h.zh.to_send }

  -- `auth_completion_func(hdr.err, zh)`
  unfoldable pub auth_completed : ℕ → Handle H → Handle H
  auth_completed rc h =
      let after = auth_completion_func rc (auth_handle h) in
      record h {
        zh = record h.zh { state = (after.0).state; to_send = (after.0).to_send };
        auth_h = (after.0).auth_h;
        events = h.events ++ map (λ a. authenticated a) after.1;
      }

  unfoldable pub see_zxid : ReplyHeader → Handle H → Handle H
  see_zxid hdr h = record h { last_zxid = if is_positive hdr.zxid then hdr.zxid else h.last_zxid }

module _ (env : Env) (malloc : ℕ → ℕ → Bool) {H : HashTable} where
  -- The buffer goes to `completions_to_process` with the watchers that are taken out of the tables.
  unfoldable pub process_event : BufferList → IArchive → Handle H → Option (Handle H)
  process_event bptr ia h = elim (deserialize_watcher_event env.host malloc ia) [
    | fail _ _ ↦ none
    | fault ↦ none
    | ok evt _ ↦ elim evt.path [
      | none ↦ none
      | some path ↦
          let collected = collect_watchers H (watches H h) evt.type path in
          let h' = with_watches H h collected.0 in
          if env.entry_granted watcher_event_xid
          then some (record h' {
            completions_to_process =
                h'.completions_to_process ++ (notification bptr collected.1 ∷ []);
          })
          else none
    ]
  ]

  -- What is done with the answer to a request, after its watcher is in its table.
  unfoldable pub finish_request :
      Completion → ReplyHeader → BufferList → IArchive → Handle H → Option (Handle H)
  finish_request c hdr bptr ia h =
      if not (c.c == env.synchronous_marker)
      then (if hdr.xid == ping_xid
          then some h
          else some (record h {
            completions_to_process = h.completions_to_process ++ (response c bptr ∷ []);
          }))
      else (elim (sync_completed env malloc c.completion_type hdr.err ia (h.syncs c.data_pointer)) [
        | none ↦ none
        | some s ↦ some (notify_sync h c.data_pointer (put_sync h.syncs c.data_pointer s))
      ])

  -- The answers come in the order of the requests. One that is not the first's ends the connection,
  -- and its request stays where it was.
  unfoldable pub process_response :
      ReplyHeader → BufferList → IArchive → Handle H → List Completion → Outcome (Handle H) Void
  process_response hdr bptr ia h [] = fault
  process_response hdr bptr ia h (c ∷ rest) =
      let dequeued = record h { zh = record h.zh { sent_requests = rest } } in
      let activated =
        with_watches H dequeued (activate_watcher H (watches H dequeued) c.watcher hdr.err) in
      if c.xid == hdr.xid
      then (elim (finish_request c hdr bptr ia activated) [ none ↦ fault | some h' ↦ ok tt h' ])
      else (elim (handle_error env malloc zruntimeinconsistency
          (record h { zh = record h.zh { sent_requests = c ∷ rest } })) [
            | none ↦ fault
            | some h' ↦ fail zruntimeinconsistency h'
          ])

  unfoldable pub process_auth : ℕ → Handle H → Outcome (Handle H) Void
  process_auth rc h =
      let h' = auth_completed rc h in
      if is_unrecoverable h'.zh == 0
      then ok tt h'
      else (elim (handle_error env malloc zauthfailed h') [
        | none ↦ fault
        | some closed ↦ fail zauthfailed closed
      ])

  unfoldable pub dispatch : ReplyHeader → BufferList → IArchive → Handle H → Outcome (Handle H) Void
  dispatch hdr bptr ia h =
      if hdr.xid == watcher_event_xid
      then (elim (process_event bptr ia h) [ none ↦ fault | some h' ↦ ok tt h' ])
      else if hdr.xid == set_watches_xid
      then ok tt h
      else if hdr.xid == auth_xid
      then process_auth hdr.err h
      else process_response hdr bptr ia h h.zh.sent_requests

  unfoldable pub process_header :
      BufferList → Handle H → Outcome IArchive ReplyHeader → Outcome (Handle H) Void
  process_header bptr h (ok hdr ia) = dispatch hdr bptr ia (see_zxid hdr h)
  process_header bptr h (fail rc ia) = fault
  process_header bptr h fault = fault

  unfoldable pub process_cells : BufferList → Handle H → Option (List ℕ) → Outcome (Handle H) Void
  process_cells bptr h none = fault
  process_cells bptr h (some cells) =
      process_header bptr h
        (deserialize_reply_header env.host malloc (create_buffer_iarchive cells bptr.curr_offset))

  -- One round. The archive is as long as `curr_offset`, which counts the four bytes of the length too.
  unfoldable pub process_buffer : BufferList → Handle H → Outcome (Handle H) Void
  process_buffer bptr h = process_cells bptr h bptr.buffer

  -- The loop: a round that fails returns from the function. `to_process` grows in none of them.
  unfoldable pub process_buffers : List BufferList → Handle H → Outcome (Handle H) Void
  process_buffers [] h = ok tt (record h { to_process = [] })
  process_buffers (bptr ∷ rest) h = elim (process_buffer bptr (record h { to_process = rest })) [
    | ok _ h' ↦ process_buffers rest h'
    | fail rc h' ↦ fail rc h'
    | fault ↦ fault
  ]
