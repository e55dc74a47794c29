-- ===== src/Connection/Kept.antt =====
-- What the calls of the API do to the connection leaves the count of the calls under way, the request
-- to close and the memory of the handle alone.
use ruby_zookeeper.Prelude.{
  Outcome, ok, fail, fault, Void, Outcome-cases, ◌==◌, if◌then◌else◌, neg, Bool-cases, Option-cases,
  ℕ, ◌+◌, refl, inl, inr, Bool, true, not, Option, none, some, [], ◌∷◌, ◌++◌,
}
use ruby_zookeeper.Connection.{socket_error}
use ruby_zookeeper.Connection.Counted.{Steady, Steady-trans, SteadyAfter, cleanup_bufs-Steady}
use ruby_zookeeper.Replies.{watcher_event_xid, connecting_state, notification, Handle, watches}
use ruby_zookeeper.Replies.Deliver.{process_replies, process_completions, process_if_async}
use ruby_zookeeper.Replies.Release.{
  marshal_event, event_buffer, cleanup_bufs, queue_session_event, report_lost, disconnect,
  handle_error,
}
use ruby_zookeeper.Session.{connected_state, Env, is_unrecoverable}
use ruby_zookeeper.Watchers.{HashTable, session_event, collect_watchers}

-- After code that returns a code or faults.
abbrev pub SteadyRun : {H : HashTable} → Handle H → Outcome (Handle H) Void → Type 0
SteadyRun h (ok _ h') = Steady h h'
SteadyRun h (fail rc h') = Steady h h'
SteadyRun h fault = Unit {0}

module _ {H : HashTable} where
  pub later_option :
      {h h1 : Handle H} (o : Option (Handle H)) → Steady h h1 → SteadyAfter h1 o → SteadyAfter h o
  later_option none s t = tt
  later_option (some h') s t = Steady-trans s t

  pub later_run :
      {h h1 : Handle H} (o : Outcome (Handle H) Void) → Steady h h1 → SteadyRun h1 o → SteadyRun h o
  later_run (ok _ h') s t = Steady-trans s t
  later_run (fail rc h') s t = Steady-trans s t
  later_run fault s t = tt

  pub then_option :
      (h : Handle H) (o : Option (Handle H)) (f : Handle H → Option (Handle H))
      → SteadyAfter h o
      → ((h' : Handle H) → SteadyAfter h' (f h'))
      → SteadyAfter h (elim o [ none ↦ none | some h' ↦ f h' ])
  then_option h none f s t = tt
  then_option h (some h1) f s t = later_option (f h1) s (t h1)

  pub then_ok :
      (h : Handle H) (o : Option (Handle H))
      → SteadyAfter h o
      → SteadyRun h (elim o [ none ↦ fault | some h' ↦ ok tt h' ])
  then_ok h none s = tt
  then_ok h (some h1) s = s

  pub then_fail :
      (rc : ℕ) (h : Handle H) (o : Option (Handle H))
      → SteadyAfter h o
      → SteadyRun h (elim o [ none ↦ fault | some h' ↦ fail rc h' ])
  then_fail rc h none s = tt
  then_fail rc h (some h1) s = s

  pub some_option :
      {A : Type 0} (h : Handle H) (o : Option A) (f : A → Option (Handle H))
      → ((a : A) → SteadyAfter h (f a))
      → SteadyAfter h (elim o [ none ↦ none | some a ↦ f a ])
  some_option h none f t = tt
  some_option h (some a) f t = t a

  pub each_some :
      {A : Type 0} (h : Handle H) (o : Option A) (f : A → Outcome (Handle H) Void)
      → ((a : A) → SteadyRun h (f a))
      → SteadyRun h (elim o [ none ↦ fault | some a ↦ f a ])
  each_some h none f t = tt
  each_some h (some a) f t = t a

  pub then_run :
      (h : Handle H) (o : Outcome (Handle H) Void) (f : Handle H → Outcome (Handle H) Void)
      → SteadyRun h o
      → ((h' : Handle H) → SteadyRun h' (f h'))
      → SteadyRun h (elim o [ ok _ h' ↦ f h' | fail rc h' ↦ fail rc h' | fault ↦ fault ])
  then_run h (ok _ h1) f s t = later_run (f h1) s (t h1)
  then_run h (fail rc h1) f s t = s
  then_run h fault f s t = tt

module _ (env : Env) (malloc : ℕ → ℕ → Bool) {H : HashTable} where
  process_completions-Steady : (h : Handle H) → SteadyAfter h (process_completions env malloc H h)
  unfolding process_completions
  process_completions-Steady h =
      elim (Option-cases (process_replies env malloc h.zh.chroot h.completions_to_process)) [
        | inl e ↦ rw (e, process_completions) tt
        | inr (calls, e) ↦
            rw (e, process_completions) (record { counter = refl; requested = refl; in_use = refl })
      ]

  pub process_if_async-Steady : (h : Handle H) → SteadyAfter h (process_if_async env malloc H h)
  unfolding process_if_async
  process_if_async-Steady h = elim (Bool-cases (h.zh.outstanding_sync == 0)) [
    | inl e ↦ rw e (process_completions-Steady h)
    | inr e ↦ rw e (record { counter = refl; requested = refl; in_use = refl })
  ]

  pub queue_session_event-Steady :
      (state : ℕ) (h : Handle H) → SteadyAfter h (queue_session_event env malloc state h)
  unfolding queue_session_event
  queue_session_event-Steady state h = elim (Outcome-cases (marshal_event env state)) [
    | inr (inl (rc, oa, e)) ↦
        rw (e, queue_session_event) (record { counter = refl; requested = refl; in_use = refl })
    | inr (inr e) ↦ rw (e, queue_session_event) tt
    | inl (u, oa, e) ↦ elim (Bool-cases (env.entry_granted watcher_event_xid)) [
      | inr denied ↦ rw (e, queue_session_event) (rw denied tt)
      | inl granted ↦ elim (Option-cases (event_buffer env oa)) [
        | inl nothing ↦ rw (e, queue_session_event) (rw granted (rw (nothing, SteadyAfter) tt))
        | inr (b, made) ↦
            let list = (collect_watchers H (watches H h) session_event []).1 in
            let h1 = record h {
              completions_to_process = h.completions_to_process ++ (notification b list ∷ []);
            } in
            rw (e, queue_session_event)
              (rw granted (
                rw (made, SteadyAfter)
                  (later_option {h = h} {h1 = h1} (process_if_async env malloc H h1)
                    (record { counter = refl; requested = refl; in_use = refl })
                    (process_if_async-Steady h1))))
      ]
    ]
  ]

  report_lost-Steady : (h : Handle H) → SteadyAfter h (report_lost env malloc h)
  unfolding report_lost
  report_lost-Steady h = elim (Bool-cases (not (is_unrecoverable h.zh == 0))) [
    | inl dead ↦ rw dead (queue_session_event-Steady h.zh.state h)
    | inr alive ↦ elim (Bool-cases (h.zh.state == connected_state)) [
      | inl there ↦ rw (alive, there) (queue_session_event-Steady connecting_state h)
      | inr elsewhere ↦
          rw (alive, elsewhere) (record { counter = refl; requested = refl; in_use = refl })
    ]
  ]

  disconnect-Steady : (h : Handle H) → SteadyAfter h (disconnect env malloc h)
  unfolding disconnect
  disconnect-Steady h =
      let state = if is_unrecoverable h.zh == 0 then 0 else h.zh.state in
      let h1 = record h {
        zh = record h.zh { state = state };
        fd = neg 1;
        connect_index = h.connect_index + 1;
      } in
      later_option {h = h} {h1 = h1} (process_if_async env malloc H h1)
        (record { counter = refl; requested = refl; in_use = refl }) (process_if_async-Steady h1)

  pub handle_error-Steady : (rc : ℕ) (h : Handle H) → SteadyAfter h (handle_error env malloc rc h)
  unfolding handle_error
  handle_error-Steady rc h =
      then_option h (report_lost env malloc h) _ (report_lost-Steady h) (λ h1.
        then_option h1 (cleanup_bufs env true rc h1) _ (cleanup_bufs-Steady env true rc h1)
          (λ h2. disconnect-Steady h2))

  pub socket_error-Steady : (rc : ℕ) (h : Handle H) → SteadyRun h (socket_error env malloc rc h)
  unfolding socket_error
  socket_error-Steady rc h =
      then_fail rc h (handle_error env malloc rc h) (handle_error-Steady rc h)
