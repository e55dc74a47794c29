-- ===== src/Connection/Rounds.antt =====
-- The work of `zookeeper_process` leaves the count of the calls under way, the request to close and the
-- memory of the handle alone.
use ruby_zookeeper.Prelude.{
  Outcome, ok, fail, fault, Outcome-cases, ◌==◌, Bool-cases, Option-cases, ℕ, refl, inl, inr, Bool,
  not, Option, none, some, List, [], ◌∷◌,
}
use ruby_zookeeper.Auth.{auth_xid}
use ruby_zookeeper.Connection.{Net}
use ruby_zookeeper.Connection.Check.{check_events, process_events}
use ruby_zookeeper.Connection.Counted.{SteadyAfter}
use ruby_zookeeper.Connection.Kept.{
  SteadyRun, later_run, then_ok, then_fail, some_option, then_run, process_if_async-Steady,
  handle_error-Steady,
}
use ruby_zookeeper.Connection.Steps.{check_events-Steady}
use ruby_zookeeper.Jute.Deserialize.{deserialize_watcher_event}
use ruby_zookeeper.Jute.Types.{ReplyHeader}
use ruby_zookeeper.RecordIo.Archive.{IArchive}
use ruby_zookeeper.Replies.{
  watcher_event_xid, ping_xid, set_watches_xid, zruntimeinconsistency, zauthfailed, Handle, watches,
  with_watches,
}
use ruby_zookeeper.Replies.Deliver.{process_if_async}
use ruby_zookeeper.Replies.Process.{
  auth_completed, see_zxid, process_event, finish_request, process_response, process_auth, dispatch,
  process_header, process_cells, process_buffer, process_buffers,
}
use ruby_zookeeper.Replies.Release.{notify_sync, handle_error}
use ruby_zookeeper.Replies.Sync.{sync_completed}
use ruby_zookeeper.Session.{Env, Completion, is_unrecoverable}
use ruby_zookeeper.Watchers.{HashTable, activate_watcher}
use ruby_zookeeper.Wire.{BufferList}

module _ (env : Env) (malloc : ℕ → ℕ → Bool) {H : HashTable} where
  process_event-Steady :
      (b : BufferList) (ia : IArchive) (h : Handle H)
      → SteadyAfter h (process_event env malloc b ia h)
  unfolding process_event with_watches
  process_event-Steady b ia h =
      elim (Outcome-cases (deserialize_watcher_event env.host malloc ia)) [
        | inr (inl (rc, ia', e)) ↦ rw (e, process_event) tt
        | inr (inr e) ↦ rw (e, process_event) tt
        | inl (evt, ia', e) ↦
            rw (e, process_event)
              (some_option h evt.path _ (λ path.
                elim (Bool-cases (env.entry_granted watcher_event_xid)) [
                  | inl f ↦ rw f (record { counter = refl; requested = refl; in_use = refl })
                  | inr f ↦ rw f tt
                ]))
      ]

  finish_request-Steady :
      (c : Completion) (hdr : ReplyHeader) (b : BufferList) (ia : IArchive) (h : Handle H)
      → SteadyAfter h (finish_request env malloc c hdr b ia h)
  unfolding finish_request notify_sync
  finish_request-Steady c hdr b ia h = elim (Bool-cases (not (c.c == env.synchronous_marker))) [
    | inl asynchronous ↦ elim (Bool-cases (hdr.xid == ping_xid)) [
      | inl ping ↦
          rw (asynchronous, ping) (record { counter = refl; requested = refl; in_use = refl })
      | inr e ↦ rw (asynchronous, e) (record { counter = refl; requested = refl; in_use = refl })
    ]
    | inr waits ↦
        elim (Option-cases
          (sync_completed env malloc c.completion_type hdr.err ia (h.syncs c.data_pointer))) [
            | inl e ↦ rw waits (rw (e, SteadyAfter) tt)
            | inr (s, e) ↦
                rw waits
                  (rw (e, SteadyAfter) (record { counter = refl; requested = refl; in_use = refl }))
          ]
  ]

  process_response-Steady :
      (hdr : ReplyHeader) (b : BufferList) (ia : IArchive) (h : Handle H) (cs : List Completion)
      → SteadyRun h (process_response env malloc hdr b ia h cs)
  unfolding process_response with_watches
  process_response-Steady hdr b ia h [] = tt
  process_response-Steady hdr b ia h (c ∷ rest) =
      let dequeued = record h { zh = record h.zh { sent_requests = rest } } in
      let activated =
        with_watches H dequeued (activate_watcher H (watches H dequeued) c.watcher hdr.err) in
      let back = record h { zh = record h.zh { sent_requests = c ∷ rest } } in
      elim (Bool-cases (c.xid == hdr.xid)) [
        | inl own ↦ rw own (
            later_run {h = h} {h1 = activated} _
              (record { counter = refl; requested = refl; in_use = refl })
              (then_ok activated (finish_request env malloc c hdr b ia activated)
                (finish_request-Steady c hdr b ia activated)))
        | inr e ↦ rw e (
            later_run {h = h} {h1 = back} _
              (record { counter = refl; requested = refl; in_use = refl })
              (then_fail zruntimeinconsistency back
                (handle_error env malloc zruntimeinconsistency back)
                (handle_error-Steady env malloc zruntimeinconsistency back)))
      ]

  process_auth-Steady : (rc : ℕ) (h : Handle H) → SteadyRun h (process_auth env malloc rc h)
  unfolding process_auth auth_completed
  process_auth-Steady rc h =
      let h1 = auth_completed rc h in
      elim (Bool-cases (is_unrecoverable h1.zh == 0)) [
        | inl e ↦ rw e (record { counter = refl; requested = refl; in_use = refl })
        | inr e ↦ rw e (
            later_run {h = h} {h1 = h1} _
              (record { counter = refl; requested = refl; in_use = refl })
              (then_fail zauthfailed h1 (handle_error env malloc zauthfailed h1)
                (handle_error-Steady env malloc zauthfailed h1)))
      ]

  dispatch-Steady :
      (hdr : ReplyHeader) (b : BufferList) (ia : IArchive) (h : Handle H)
      → SteadyRun h (dispatch env malloc hdr b ia h)
  unfolding dispatch
  dispatch-Steady hdr b ia h = elim (Bool-cases (hdr.xid == watcher_event_xid)) [
    | inl e ↦ rw e (then_ok h (process_event env malloc b ia h) (process_event-Steady b ia h))
    | inr e ↦ elim (Bool-cases (hdr.xid == set_watches_xid)) [
      | inl f ↦ rw (e, f) (record { counter = refl; requested = refl; in_use = refl })
      | inr f ↦ elim (Bool-cases (hdr.xid == auth_xid)) [
        | inl g ↦ rw (e, f, g) (process_auth-Steady hdr.err h)
        | inr g ↦ rw (e, f, g) (process_response-Steady hdr b ia h h.zh.sent_requests)
      ]
    ]
  ]

  process_header-Steady :
      (b : BufferList) (h : Handle H) (o : Outcome IArchive ReplyHeader)
      → SteadyRun h (process_header env malloc b h o)
  unfolding process_header see_zxid
  process_header-Steady b h (ok hdr ia) =
      later_run {h = h} {h1 = see_zxid hdr h} _
        (record { counter = refl; requested = refl; in_use = refl })
        (dispatch-Steady hdr b ia (see_zxid hdr h))
  process_header-Steady b h (fail rc ia) = tt
  process_header-Steady b h fault = tt

  process_cells-Steady :
      (b : BufferList) (h : Handle H) (cells : Option (List ℕ))
      → SteadyRun h (process_cells env malloc b h cells)
  unfolding process_cells
  process_cells-Steady b h none = tt
  process_cells-Steady b h (some cells) = process_header-Steady b h _

  process_buffers-Steady :
      (bs : List BufferList) (h : Handle H) → SteadyRun h (process_buffers env malloc bs h)
  unfolding process_buffers process_buffer
  process_buffers-Steady [] h = record { counter = refl; requested = refl; in_use = refl }
  process_buffers-Steady (b ∷ bs) h =
      let h1 = record h { to_process = bs } in
      later_run {h = h} {h1 = h1} _ (record { counter = refl; requested = refl; in_use = refl })
        (then_run h1 (process_buffer env malloc b h1) _ (process_cells-Steady b h1 b.buffer)
          (λ h2. process_buffers-Steady bs h2))

  pub process_events-Steady :
      (net : Net) (readable writable : Bool) (h : Handle H)
      → SteadyRun h (process_events env malloc net readable writable h)
  unfolding process_events
  process_events-Steady net readable writable h =
      then_run h (check_events env malloc net readable writable h) _
        (check_events-Steady env malloc net readable writable h)
        (λ h1.
          then_run h1 (process_buffers env malloc h1.to_process h1) _
            (process_buffers-Steady h1.to_process h1)
            (λ h2.
              then_ok h2 (process_if_async env malloc H h2)
                (process_if_async-Steady env malloc h2)))
