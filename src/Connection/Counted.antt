-- ===== src/Connection/Counted.antt =====
-- When a handle is given back: the calls under way, and the close that was asked for.
use ruby_zookeeper.Prelude.{
  Outcome-cases, ◌==◌, is_neg, Bool-cases, Option-cases, ℕ, ◌≡◌, refl, ◌∙◌, inl, inr, Bool, true,
  ◌&&◌, not, Option, none, some, List, [], ◌∷◌,
}
use ruby_zookeeper.Connection.{zclosing}
use ruby_zookeeper.Connection.Close.{
  Round, flush_waiting, marshal_close, destroy, destroyed_with, queue_close, close_session,
}
use ruby_zookeeper.RecordIo.Archive.{get_buffer, get_buffer_len}
use ruby_zookeeper.Replies.{ping_xid, Handle}
use ruby_zookeeper.Replies.Release.{
  notify_sync, fake_response, free_completion, free_requests, free_auths, free_completions,
  cleanup_bufs,
}
use ruby_zookeeper.Session.{
  zmarshallingerror, Env, Completion, Zhandle, get_xid, queue_buffer_bytes,
}
use ruby_zookeeper.Watchers.{HashTable}

-- What the calls of the API count on stays, and the memory of the handle is not given back.
pub record Steady {H : HashTable} (h h' : Handle H) : Type 0 where
  pub counter : h'.ref_counter ≡ h.ref_counter
  pub requested : h'.close_requested ≡ h.close_requested
  pub in_use : h'.freed ≡ h.freed

pub Steady-refl : {H : HashTable} (h : Handle H) → Steady h h
Steady-refl h = record { counter = refl; requested = refl; in_use = refl }

pub Steady-trans : {H : HashTable} {a b c : Handle H} → Steady a b → Steady b c → Steady a c
Steady-trans s t = record {
  counter = t.counter ∙ s.counter;
  requested = t.requested ∙ s.requested;
  in_use = t.in_use ∙ s.in_use;
}

-- After a call that may fault.
abbrev pub SteadyAfter : {H : HashTable} → Handle H → Option (Handle H) → Type 0
SteadyAfter h none = Unit {0}
SteadyAfter h (some h') = Steady h h'

module _ (env : Env) {H : HashTable} where
  free_completion-Steady :
      (call : Bool) (reason : ℕ) (c : Completion) (h : Handle H)
      → SteadyAfter h (free_completion env call reason c h)
  unfolding free_completion notify_sync
  free_completion-Steady call reason c h = elim (Bool-cases (c.c == env.synchronous_marker)) [
    | inl sync ↦ rw sync (record { counter = refl; requested = refl; in_use = refl })
    | inr not_sync ↦ elim (Bool-cases (call && not (c.xid == ping_xid))) [
      | inl made_up ↦ elim (Option-cases (fake_response env c.xid reason)) [
        | inl nothing ↦ rw (not_sync, made_up) (rw (nothing, SteadyAfter) tt)
        | inr (b, made) ↦
            rw (not_sync, made_up)
              (rw (made, SteadyAfter) (record { counter = refl; requested = refl; in_use = refl }))
      ]
      | inr dropped ↦ rw (not_sync, dropped) (Steady-refl h)
    ]
  ]

  free_requests-Steady :
      (call : Bool) (reason : ℕ) (cs : List Completion) (h : Handle H)
      → SteadyAfter h (free_requests env call reason cs h)
  unfolding free_requests
  free_requests-Steady call reason [] h = Steady-refl h
  free_requests-Steady call reason (c ∷ cs) h =
      elim (Option-cases (free_completion env call reason c h)) [
        | inl nothing ↦ rw (nothing, free_requests) tt
        | inr (h1, first) ↦
            let one : Steady h h1 = rw first at (free_completion-Steady call reason c h) in
            elim (Option-cases (free_requests env call reason cs h1)) [
              | inl nothing ↦ rw (first, free_requests) (rw (nothing, SteadyAfter) tt)
              | inr (h', more) ↦
                  let others : Steady h1 h' = rw more at (free_requests-Steady call reason cs h1) in
                  rw (first, free_requests) (rw (more, SteadyAfter) (Steady-trans one others))
            ]
      ]

  pub cleanup_bufs-Steady :
      (call : Bool) (reason : ℕ) (h : Handle H) → SteadyAfter h (cleanup_bufs env call reason h)
  unfolding cleanup_bufs free_completions free_auths
  cleanup_bufs-Steady call reason h =
      let none_sent = record h {
        zh = record h.zh { to_send = []; sent_requests = [] };
        to_process = [];
      } in
      let cs = h.zh.sent_requests in
      elim (Option-cases (free_requests env call reason cs none_sent)) [
        | inl nothing ↦ rw (nothing, cleanup_bufs) tt
        | inr (h', more) ↦
            let others : Steady none_sent h' =
              rw more at (free_requests-Steady call reason cs none_sent) in
            rw (more, cleanup_bufs)
              (record {
                counter = others.counter;
                requested = others.requested;
                in_use = others.in_use;
              })
      ]

-- The handle is given back, and nothing that the calls count on changes.
pub record Counts {H : HashTable} (h h' : Handle H) : Type 0 where
  pub counter : h'.ref_counter ≡ h.ref_counter
  pub requested : h'.close_requested ≡ h.close_requested

abbrev pub GivenBack : {H : HashTable} → Handle H → Option (ℕ × Handle H) → Type 0
GivenBack h none = Unit {0}
GivenBack h (some (rc, h')) = Counts h h' × (h'.freed ≡ true)

module _ (env : Env) (malloc : ℕ → ℕ → Bool) (rounds : List Round) {H : HashTable} where
  pub destroyed_with-GivenBack :
      (rc : ℕ) (h : Handle H) → GivenBack h (destroyed_with env malloc rounds rc h)
  unfolding destroyed_with destroy
  destroyed_with-GivenBack rc h = elim (Option-cases (cleanup_bufs env true zclosing h)) [
    | inl nothing ↦ rw (nothing, destroyed_with) tt
    | inr (clean, e) ↦
        let s : Steady h clean = rw e at (cleanup_bufs-Steady env true zclosing h) in
        rw (e, destroyed_with) (record { counter = s.counter; requested = s.requested }, refl)
  ]

  -- What `close_session` does before it destroys a handle changes only the part of the requests.
  destroyed_later :
      (rc : ℕ) (h : Handle H) (zh : Zhandle)
      → GivenBack h (destroyed_with env malloc rounds rc (record h { zh = zh }))
  destroyed_later rc h zh =
      given (destroyed_with env malloc rounds rc (record h { zh = zh }))
        (destroyed_with-GivenBack rc (record h { zh = zh }))
    where
      given : (r : Option (ℕ × Handle H)) → GivenBack (record h { zh = zh }) r → GivenBack h r
      given none g = tt
      given (some (rc', h')) g = (record { counter = g.0.counter; requested = g.0.requested }, g.1)

  pub close_session-GivenBack : (h : Handle H) → GivenBack h (close_session env malloc rounds h)
  unfolding close_session queue_close
  close_session-GivenBack h =
      let xid = get_xid env h.zh.xid in
      let numbered = record h { zh = record h.zh { xid = xid.1 } } in
      elim (Outcome-cases (marshal_close env xid.0)) [
        | inr (inl (rc, oa, e)) ↦
            rw (e, close_session) (destroyed_later zmarshallingerror h numbered.zh)
        | inr (inr e) ↦ rw (e, close_session) tt
        | inl (u, oa, e) ↦
            let queued = queue_buffer_bytes env (get_buffer oa) (get_buffer_len oa) numbered.zh in
            let flush =
              flush_waiting env 3000 rounds (queued.1).to_send (queued.1).socket
                (queued.1).last_send in
            elim (Bool-cases (is_neg queued.0)) [
              | inl failed ↦
                  rw (e, close_session) (rw failed (destroyed_later zmarshallingerror h queued.1))
              | inr worked ↦ elim (Option-cases flush) [
                | inl nothing ↦ rw (e, close_session) (rw (worked) (rw (nothing, GivenBack) tt))
                | inr (r, f) ↦
                    rw (e, close_session)
                      (rw (worked) (
                        rw (f, GivenBack)
                          (destroyed_later r.0 h
                            (record queued.1 { to_send = r.1; socket = r.2; last_send = r.3 }))))
              ]
            ]
      ]
