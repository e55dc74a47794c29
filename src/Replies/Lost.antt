-- ===== src/Replies/Lost.antt =====
-- `handle_error`: the loss of a connection as a whole.
use ruby_zookeeper.Prelude.{
  length, All, ◌==◌, if◌then◌else◌, neg, Bool-cases, ℕ, ◌+◌, ◌^◌, ◌<◌, ◌≡◌, refl, sym, ap, ◌∙◌, inl,
  inr, Bool, true, false, not, Option, some, List, [], ◌++◌, map, arith,
}
use ruby_zookeeper.Auth.{get_auth_completions, no_completions, call_completions}
use ruby_zookeeper.Auth.Completions.{waiting}
use ruby_zookeeper.Replies.{connecting_state, Event, authenticated, Handle}
use ruby_zookeeper.Replies.Announced.{Heard, announced, queue_session_event-Heard}
use ruby_zookeeper.Replies.Deliver.{
  client_path, process_replies, process_completions, process_if_async,
}
use ruby_zookeeper.Replies.Faked.{delivered, told, IsRequest}
use ruby_zookeeper.Replies.Release.{
  input_freed, free_auths, free_completions, cleanup_bufs, report_lost, disconnect, handle_error,
}
use ruby_zookeeper.Replies.Released.{freed_as, process_replies-append, free_requests-Freed}
use ruby_zookeeper.Session.{connected_state, Env, is_unrecoverable}
use ruby_zookeeper.Session.Stream.{pending}
use ruby_zookeeper.Session.Submit.{Grants}
use ruby_zookeeper.Watchers.{HashTable}
use mathlib.Core.List.{append_assoc, append-nil}

-- The watchers that hear of the loss: on a handle that is connected or beyond recovery.
abbrev pub announcement : {H : HashTable} → Handle H → Option (List ℕ) → List Event
announcement h p =
    if not (is_unrecoverable h.zh == 0)
    then announced h h.zh.state p
    else if h.zh.state == connected_state
    then announced h connecting_state p
    else []

-- The calls for the authentications that wait.
abbrev pub auth_calls : {H : HashTable} → ℕ → Handle H → List Event
auth_calls reason h =
    map (λ a. authenticated a)
      (call_completions reason (get_auth_completions h.auth_h no_completions).1)

pub record Lost (env : Env) (reason : ℕ) {H : HashTable} (h : Handle H) (pending : List Event)
    (p : Option (List ℕ)) (h' : Handle H) : Type 0 where
  pub no_requests : h'.zh.sent_requests ≡ []
  pub nothing_to_send : h'.zh.to_send ≡ []
  pub nothing_received : h'.to_process ≡ []
  pub none_waits : h'.completions_to_process ≡ []
  pub none_blocked : h'.zh.outstanding_sync ≡ 0
  pub closed : h'.fd ≡ neg 1
  pub next_server : h'.connect_index ≡ h.connect_index + 1
  pub state : h'.zh.state ≡ (if is_unrecoverable h.zh == 0 then 0 else h.zh.state)
  pub counted : h'.ref_counter ≡ h.ref_counter
  pub in_use : h'.freed ≡ h.freed
  pub before : List Event
  pub after : List Event
  pub announced_to : before ++ after ≡ h.events ++ (pending ++ announcement h p)
  pub events :
      h'.events
      ≡ before
        ++ (told env h.zh.sent_requests
            ++ (auth_calls reason h ++ (after ++ delivered env reason h.zh.sent_requests)))
  pub answered :
      All
        (λ c. (c.c == env.synchronous_marker) ≡ true → (h'.syncs c.data_pointer).rc ≡ reason)
        h.zh.sent_requests

module _ (env : Env) (malloc : ℕ → ℕ → Bool) (grants : Grants env)
    (granted : (off n : ℕ) → malloc off n ≡ true) {H : HashTable} where
  report_lost-Heard :
      (h : Handle H) (pending : List Event) (p : Option (List ℕ))
      → h.zh.state < 2 ^ 32
      → client_path h.zh.chroot (some []) ≡ some p
      → process_replies env malloc h.zh.chroot h.completions_to_process ≡ some pending
      → (h1 : Handle H) × (report_lost env malloc h ≡ some h1)
        × Heard env malloc h (pending ++ announcement h p) h1
  unfolding report_lost
  report_lost-Heard h pending p wide at waiting =
      elim (Bool-cases (not (is_unrecoverable h.zh == 0))) [
        | inl dead ↦
            let (h1, run, heard) =
              queue_session_event-Heard env malloc grants granted h.zh.state h pending p wide at
                waiting in
            (h1, rw dead run, rw dead heard)
        | inr alive ↦ elim (Bool-cases (h.zh.state == connected_state)) [
          | inl connected ↦
              let (h1, run, heard) =
                queue_session_event-Heard env malloc grants granted connecting_state h pending p
                  (omega arith) at waiting in
              (h1, rw (alive, connected) run, rw (alive, connected) heard)
          | inr elsewhere ↦ (
            h,
            rw (alive, elsewhere) refl,
            rw (alive, elsewhere)
                (record {
                  same = refl;
                  after = pending;
                  to_come = waiting;
                  total = ap (λ t. h.events ++ t) (sym (append-nil pending));
                }),
          )
        ]
      ]

  -- `cleanup_bufs` and what follows it, on a handle whose pending calls are `after`.
  record Dropped (reason : ℕ) (h : Handle H) (after : List Event) (h' : Handle H) : Type 0 where
    no_requests : h'.zh.sent_requests ≡ []
    nothing_to_send : h'.zh.to_send ≡ []
    nothing_received : h'.to_process ≡ []
    none_waits : h'.completions_to_process ≡ []
    none_blocked : h'.zh.outstanding_sync ≡ 0
    closed : h'.fd ≡ neg 1
    next_server : h'.connect_index ≡ h.connect_index + 1
    state : h'.zh.state ≡ (if is_unrecoverable h.zh == 0 then 0 else h.zh.state)
    counted : h'.ref_counter ≡ h.ref_counter
    in_use : h'.freed ≡ h.freed
    events :
        h'.events
        ≡ h.events
          ++ (told env h.zh.sent_requests
              ++ (auth_calls reason h ++ (after ++ delivered env reason h.zh.sent_requests)))
    answered :
        All
          (λ c. (c.c == env.synchronous_marker) ≡ true → (h'.syncs c.data_pointer).rc ≡ reason)
          h.zh.sent_requests

  drop_connection :
      (reason : ℕ) (h : Handle H) (after : List Event)
      → reason < 2 ^ 32
      → (reason == 0) ≡ false
      → process_replies env malloc h.zh.chroot h.completions_to_process ≡ some after
      → All IsRequest h.zh.sent_requests
      → h.zh.outstanding_sync ≡ length (told env h.zh.sent_requests)
      → h.zh.outstanding_sync < 2 ^ 32
      → (clean h' : Handle H) × (cleanup_bufs env true reason h ≡ some clean)
        × (disconnect env malloc clean ≡ some h')
        × Dropped reason h after h'
  unfolding cleanup_bufs free_completions free_auths disconnect process_if_async process_completions
      is_unrecoverable
  drop_connection reason h after an_int an_error to_come are count few =
      let cs = h.zh.sent_requests in
      let none_sent = record h {
        zh = record h.zh { to_send = []; sent_requests = [] };
        to_process = [];
      } in
      let freed =
        free_requests-Freed env malloc grants granted reason an_int an_error none_sent cs are in
      let h2 = freed_as none_sent freed.outstanding freed.queued freed.syncs (told env cs) in
      let h3 = free_auths env reason h2 in
      let clean = record h3 { input_buffer = input_freed h3.input_buffer } in
      let none_left : freed.outstanding ≡ 0 = omega (arith, freed.fewer (omega arith) few) in
      let calls =
        process_replies-append env malloc h.zh.chroot h.completions_to_process freed.queued after
          (delivered env reason cs) to_come (freed.calls h.zh.chroot) in
      let state = if is_unrecoverable h.zh == 0 then 0 else h.zh.state in
      let h' = record clean {
        zh = record clean.zh { state = state };
        fd = neg 1;
        connect_index = h.connect_index + 1;
        completions_to_process = [];
        events = clean.events ++ (after ++ delivered env reason cs);
      } in
      (
        clean,
        h',
        rw (freed.run, cleanup_bufs) refl,
        rw (none_left) (rw (calls, process_completions) refl),
        record {
          no_requests = refl;
          nothing_to_send = refl;
          nothing_received = refl;
          none_waits = refl;
          none_blocked = none_left;
          closed = refl;
          next_server = refl;
          state = refl;
          counted = refl;
          in_use = refl;
          events =
              append_assoc (h.events ++ told env cs) (auth_calls reason h)
                (after ++ delivered env reason cs)
              ∙ append_assoc h.events (told env cs)
                  (auth_calls reason h ++ (after ++ delivered env reason cs));
          answered = freed.answered;
        },
      )

  -- Suppose that memory is granted and the reason is an error code, as an int; that the handle's
  -- state is an int; its queue holds requests of the API, that is, with 32-bit xids other than the
  -- one of notifications and not of the type of watchers; its count of synchronous callers is that
  -- of the synchronous requests in the queue, and below 2^32; and the completions that wait to be
  -- processed can be delivered without a fault, which makes the calls `pending`; and that the path
  -- of a session event is `p` for the watchers. Then `handle_error` does not fault, and every
  -- request that waits ends exactly once and in its order: a synchronous caller is notified with the
  -- reason as its return code, the function of an asynchronous request is called with the reason and
  -- no result, a ping ends without a call. The calls that were pending are made too, as are those
  -- for the authentications, and the watchers hear of the loss when the handle was connected or is
  -- beyond recovery. All queues are empty afterwards, the socket is closed, the next server's turn
  -- comes, the state is 0 unless the handle is beyond recovery, and the count of calls under way is
  -- as before.
  pub handle_error-Lost :
      (reason : ℕ) (h : Handle H) (pending : List Event) (p : Option (List ℕ))
      → reason < 2 ^ 32
      → (reason == 0) ≡ false
      → h.zh.state < 2 ^ 32
      → client_path h.zh.chroot (some []) ≡ some p
      → process_replies env malloc h.zh.chroot h.completions_to_process ≡ some pending
      → All IsRequest h.zh.sent_requests
      → h.zh.outstanding_sync ≡ length (told env h.zh.sent_requests)
      → h.zh.outstanding_sync < 2 ^ 32
      → (h' : Handle H) × (handle_error env malloc reason h ≡ some h')
        × Lost env reason h pending p h'
  unfolding handle_error
  handle_error-Lost reason h pending p an_int an_error wide at waiting are count few =
      let (h1, reported, heard) = report_lost-Heard h pending p wide at waiting in
      let told_h = record h {
        completions_to_process = h1.completions_to_process;
        events = h1.events;
      } in
      let (clean, h', cleaned, dropped, lost) =
        drop_connection reason told_h heard.after an_int an_error heard.to_come are count few in
      let cleaned' : cleanup_bufs env true reason h1 ≡ some clean =
        ap (cleanup_bufs env true reason) heard.same ∙ cleaned in
      (
        h',
        rw (reported, handle_error) (rw (cleaned', handle_error) dropped),
        record {
          no_requests = lost.no_requests;
          nothing_to_send = lost.nothing_to_send;
          nothing_received = lost.nothing_received;
          none_waits = lost.none_waits;
          none_blocked = lost.none_blocked;
          closed = lost.closed;
          next_server = lost.next_server;
          state = lost.state;
          counted = lost.counted;
          in_use = lost.in_use;
          before = h1.events;
          after = heard.after;
          announced_to = heard.total;
          events = lost.events;
          answered = lost.answered;
        },
      )
