-- ===== src/Replies/Release.antt =====
-- `queue_session_event`, `free_completions`, `cleanup_bufs` and `handle_error`: what becomes of the
-- requests that wait when the connection is lost.
use ruby_zookeeper.Prelude.{
  Outcome, ok, fail, fault, ◌>>◌, Void, ◌==◌, if◌then◌else◌, neg, sub_int, ℕ, ◌+◌, ◌-◌, ◌^◌, Bool,
  true, ◌&&◌, not, Option, none, some, List, [], ◌∷◌, ◌++◌, map,
}
use ruby_zookeeper.Auth.{get_auth_completions, no_completions, call_completions}
use ruby_zookeeper.Jute.Serialize.{serialize_reply_header, serialize_watcher_event}
use ruby_zookeeper.RecordIo.Archive.{OArchive, create_buffer_oarchive, get_buffer, get_buffer_len}
use ruby_zookeeper.Replies.{
  watcher_event_xid, ping_xid, connecting_state, authenticated, notified, SyncCompletion, response,
  notification, Input, no_input, primer_input, own_input, Handle, watches,
}
use ruby_zookeeper.Replies.Deliver.{call_completion, process_if_async}
use ruby_zookeeper.Session.{connected_state, Env, Completion, is_unrecoverable, allocate_buffer}
use ruby_zookeeper.Watchers.{HashTable, session_event, collect_watchers}
use ruby_zookeeper.Wire.{BufferList}

unfoldable pub set_rc : (ℕ → SyncCompletion) → ℕ → ℕ → ℕ → SyncCompletion
set_rc syncs sc rc a = if a == sc then record (syncs a) { rc = rc } else syncs a

-- `sc->rc = rc; notify_sync_completion(sc); zh->outstanding_sync--`
unfoldable pub notify_sync : {H : HashTable} → Handle H → ℕ → (ℕ → SyncCompletion) → Handle H
notify_sync h sc syncs = record h {
  zh = record h.zh { outstanding_sync = sub_int h.zh.outstanding_sync 1 };
  syncs = syncs;
  events = h.events ++ (notified sc ∷ []);
}

abbrev pub input_freed : Input → Input
input_freed primer_input = primer_input
input_freed no_input = no_input
input_freed (own_input b) = no_input

module _ (env : Env) where
  -- The buffer that a session event is queued with. Without memory for the archive's copy the code
  -- writes through the null pointer before it tests it.
  unfoldable pub marshal_event : ℕ → Outcome OArchive Void
  marshal_event state =
      (serialize_reply_header env.host env.realloc
            (record { xid = watcher_event_xid; zxid = 0; err = 0 })
          >> serialize_watcher_event env.host env.realloc
              (record { type = session_event; state = state; path = some [] }))
        create_buffer_oarchive

  unfoldable pub event_buffer : OArchive → Option BufferList
  event_buffer oa = elim (allocate_buffer env (get_buffer oa) (get_buffer_len oa)) [
    | none ↦ none
    | some b ↦ some (record b { curr_offset = get_buffer_len oa })
  ]

  -- The response that is made up for a request without one: no memory for it fails an assertion. The
  -- return code of `serialize_ReplyHeader` is not looked at.
  unfoldable pub fake_header : ℕ → ℕ → Outcome OArchive Void
  fake_header xid reason =
      serialize_reply_header env.host env.realloc
        (record { xid = xid; zxid = 2 ^ 64 - 1; err = reason }) create_buffer_oarchive

  unfoldable pub fake_buffer : OArchive → Option BufferList
  fake_buffer oa =
      if env.buffer_granted (get_buffer_len oa)
      then some (record { buffer = get_buffer oa; len = get_buffer_len oa; curr_offset = 0 })
      else none

  unfoldable pub fake_response : ℕ → ℕ → Option BufferList
  fake_response xid reason = elim (fake_header xid reason) [
    | ok _ oa ↦ fake_buffer oa
    | fail _ oa ↦ fake_buffer oa
    | fault ↦ none
  ]

module _ (env : Env) {H : HashTable} where
  -- One round of the loop of `free_completions` over the requests that wait.
  unfoldable pub free_completion : Bool → ℕ → Completion → Handle H → Option (Handle H)
  free_completion call_completion reason c h =
      if c.c == env.synchronous_marker
      then some (notify_sync h c.data_pointer (set_rc h.syncs c.data_pointer reason))
      else if call_completion && not (c.xid == ping_xid)
      then (elim (fake_response env c.xid reason) [
        | none ↦ none
        | some b ↦
            some (record h {
              completions_to_process = h.completions_to_process ++ (response c b ∷ []);
            })
      ])
      else some h

  unfoldable pub free_requests : Bool → ℕ → List Completion → Handle H → Option (Handle H)
  free_requests call_completion reason [] h = some h
  free_requests call_completion reason (c ∷ rest) h =
      elim (free_completion call_completion reason c h) [
        | none ↦ none
        | some h' ↦ free_requests call_completion reason rest h'
      ]

  unfoldable pub free_auths : ℕ → Handle H → Handle H
  free_auths reason h =
      let freed = get_auth_completions h.auth_h no_completions in
      record h {
        auth_h = freed.0;
        events = h.events ++ map (λ a. authenticated a) (call_completions reason freed.1);
      }

  unfoldable pub free_completions : Bool → ℕ → Handle H → Option (Handle H)
  free_completions call_completion reason h =
      let none_sent = record h { zh = record h.zh { sent_requests = [] } } in
      elim (free_requests call_completion reason h.zh.sent_requests none_sent) [
        | none ↦ none
        | some h' ↦ some (free_auths reason h')
      ]

  unfoldable pub cleanup_bufs : Bool → ℕ → Handle H → Option (Handle H)
  cleanup_bufs call_completion rc h =
      let emptied = record h { zh = record h.zh { to_send = [] }; to_process = [] } in
      elim (free_completions call_completion rc emptied) [
        | none ↦ none
        | some h' ↦ some (record h' { input_buffer = input_freed h'.input_buffer })
      ]

module _ (env : Env) (malloc : ℕ → ℕ → Bool) {H : HashTable} where
  -- The return code is ignored by every caller.
  unfoldable pub queue_session_event : ℕ → Handle H → Option (Handle H)
  queue_session_event state h = elim (marshal_event env state) [
    | fail _ _ ↦ some h
    | fault ↦ none
    | ok _ oa ↦
        if env.entry_granted watcher_event_xid
        then (elim (event_buffer env oa) [
          | none ↦ none
          | some b ↦
              let list = (collect_watchers H (watches H h) session_event []).1 in
              process_if_async env malloc H (record h {
                completions_to_process = h.completions_to_process ++ (notification b list ∷ []);
              })
        ])
        else none
  ]

  -- The session event of `handle_error`.
  unfoldable pub report_lost : Handle H → Option (Handle H)
  report_lost h =
      if not (is_unrecoverable h.zh == 0)
      then queue_session_event h.zh.state h
      else if h.zh.state == connected_state
      then queue_session_event connecting_state h
      else some h

  -- What `handle_error` does behind `cleanup_bufs`.
  unfoldable pub disconnect : Handle H → Option (Handle H)
  disconnect h =
      let state = if is_unrecoverable h.zh == 0 then 0 else h.zh.state in
      process_if_async env malloc H (record h {
        zh = record h.zh { state = state };
        fd = neg 1;
        connect_index = h.connect_index + 1;
      })

  unfoldable pub handle_error : ℕ → Handle H → Option (Handle H)
  handle_error rc h = elim (report_lost h) [
    | none ↦ none
    | some told ↦ elim (cleanup_bufs env true rc told) [
      | none ↦ none
      | some clean ↦ disconnect clean
    ]
  ]
