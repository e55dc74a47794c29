-- ===== src/Connection/Silent.antt =====
-- What `destroy` does to the requests that wait.
use ruby_zookeeper.Prelude.{
  All, ◌==◌, if◌then◌else◌, neg, ℕ, ◌≡◌, refl, ap, ◌∙◌, Bool, true, Option, none, some, List, [],
  ◌++◌, arith,
}
use ruby_zookeeper.Connection.{zclosing}
use ruby_zookeeper.Connection.Close.{Round, destroy}
use ruby_zookeeper.Replies.{Handle}
use ruby_zookeeper.Replies.Deliver.{process_replies}
use ruby_zookeeper.Replies.Faked.{delivered, told, IsRequest}
use ruby_zookeeper.Replies.Lost.{auth_calls}
use ruby_zookeeper.Replies.Release.{input_freed, free_auths, free_completions, cleanup_bufs}
use ruby_zookeeper.Replies.Released.{freed_as, free_requests-Freed}
use ruby_zookeeper.Session.{Env}
use ruby_zookeeper.Session.Submit.{Grants}
use ruby_zookeeper.Watchers.{HashTable}
use mathlib.Core.List.{append_assoc}

-- If memory is granted, for a handle without completions to process: `destroy` makes up an answer with
-- ZCLOSING for every asynchronous request, but calls none of their functions; only synchronous callers
-- are notified and the functions of authentications called. The calls would still be to come when the
-- handle is given back.
pub destroy-silent :
    (env : Env) (malloc : ℕ → ℕ → Bool) (grants : Grants env)
    (granted : (off n : ℕ) → malloc off n ≡ true) (rounds : List Round) {H : HashTable}
    (h : Handle H)
    → All IsRequest h.zh.sent_requests
    → h.completions_to_process ≡ []
    → (h' : Handle H) × (destroy env malloc rounds h ≡ some h')
      × (h'.freed ≡ true)
      × (h'.events ≡ h.events ++ (told env h.zh.sent_requests ++ auth_calls zclosing h))
      × ((chroot : Option (List ℕ))
          → process_replies env malloc chroot h'.completions_to_process
            ≡ some (delivered env zclosing h.zh.sent_requests))
unfolding destroy cleanup_bufs free_completions free_auths
destroy-silent env malloc grants granted rounds h are nothing_waits =
    let cs = h.zh.sent_requests in
    let none_sent = record h {
      zh = record h.zh { to_send = []; sent_requests = [] };
      to_process = [];
    } in
    let freed =
      free_requests-Freed env malloc grants granted zclosing (omega arith) refl none_sent cs are in
    let h2 = freed_as none_sent freed.outstanding freed.queued freed.syncs (told env cs) in
    let h3 = free_auths env zclosing h2 in
    let clean = record h3 { input_buffer = input_freed h3.input_buffer } in
    let cleaned : cleanup_bufs env true zclosing h ≡ some clean =
      rw (freed.run, cleanup_bufs) refl in
    let state = if clean.fd == neg 1 then clean.zh.state else 0 in
    (
      record clean {
        zh = record clean.zh { state = state; chroot = none };
        fd = neg 1;
        auth_h = [];
        freed = true;
      },
      rw (cleaned, destroy) refl,
      refl,
      append_assoc h.events (told env cs) (auth_calls zclosing h),
      λ chroot.
          ap (λ q. process_replies env malloc chroot (q ++ freed.queued)) nothing_waits
          ∙ freed.calls chroot,
    )
