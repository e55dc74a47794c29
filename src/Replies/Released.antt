-- ===== src/Replies/Released.antt =====
-- `free_completions` and what the loss of a connection comes to.
use ruby_zookeeper.Prelude.{
  length, All, length-append, ◌==◌, sub_int, ==_refl, Bool-cases, Option-cases, some-injective, ℕ,
  ◌+◌, ◌^◌, ◌≤◌, ◌<◌, ◌≡◌, refl, sym, ap, ◌∙◌, inl, inr, Bool, true, false, Option, none, some,
  List, [], ◌∷◌, ◌++◌, arith,
}
use ruby_zookeeper.Path.Scan.{same}
use ruby_zookeeper.Replies.{
  ping_xid, no_body, Event, completed, notified, SyncCompletion, Reply, response, Handle,
}
use ruby_zookeeper.Replies.Deliver.{process_reply, process_replies}
use ruby_zookeeper.Replies.Faked.{delivered, told, IsRequest, fake_header-read, process_reply-faked}
use ruby_zookeeper.Replies.Release.{set_rc, notify_sync, free_completion, free_requests}
use ruby_zookeeper.Session.{Env, Completion}
use ruby_zookeeper.Session.Submit.{Grants}
use ruby_zookeeper.Watchers.{HashTable}
use mathlib.Core.List.{append_assoc, append-nil}

-- A handle with more in the queue of completions and more calls made.
abbrev pub freed_as :
    {H : HashTable} → Handle H → ℕ → List Reply → (ℕ → SyncCompletion) → List Event → Handle H
freed_as h outstanding queued syncs events = record h {
  zh = record h.zh { outstanding_sync = outstanding };
  completions_to_process = h.completions_to_process ++ queued;
  syncs = syncs;
  events = h.events ++ events;
}

module _ (env : Env) (malloc : ℕ → ℕ → Bool) (chroot : Option (List ℕ)) where
  pub process_replies-cons :
      (r : Reply) (rest : List Reply) (first more : List Event)
      → process_reply env malloc chroot r ≡ some first
      → process_replies env malloc chroot rest ≡ some more
      → process_replies env malloc chroot (r ∷ rest) ≡ some (first ++ more)
  unfolding process_replies
  process_replies-cons r rest first more e e' =
      rw (e, process_replies) (rw (e', process_replies) refl)

  pub process_replies-append :
      (rs ss : List Reply) (calls more : List Event)
      → process_replies env malloc chroot rs ≡ some calls
      → process_replies env malloc chroot ss ≡ some more
      → process_replies env malloc chroot (rs ++ ss) ≡ some (calls ++ more)
  unfolding process_replies
  process_replies-append [] ss calls more e e' = e' ∙ ap (λ t. some (t ++ more)) (some-injective e)
  process_replies-append (r ∷ rs) ss calls more e e' =
      elim (Option-cases (process_reply env malloc chroot r)) [
        | inl nothing ↦
            let e'' : none ≡ some calls = (rw (nothing, process_replies) refl) ∙ e in
            absurd (cc e'')
        | inr (first, f) ↦ elim (Option-cases (process_replies env malloc chroot rs)) [
          | inl nothing ↦
              let e'' : none ≡ some calls =
                sym (rw (f, process_replies) (rw (nothing, process_replies) refl)) ∙ e in
              absurd (cc e'')
          | inr (others, g) ↦
              let ih = process_replies-append rs ss others more g e' in
              let whole : calls ≡ first ++ others =
                some-injective (sym e ∙ process_replies-cons r rs first others f g) in
              process_replies-cons r (rs ++ ss) first (others ++ more) f ih
              ∙ ap (λ t. some t)
                  (sym (append_assoc first others more) ∙ ap (λ t. t ++ more) (sym whole))
        ]
      ]

-- What the loop over the requests does.
pub record Freed (env : Env) (malloc : ℕ → ℕ → Bool) (reason : ℕ) {H : HashTable} (h : Handle H)
    (cs : List Completion) : Type 0 where
  pub outstanding : ℕ
  pub queued : List Reply
  pub syncs : ℕ → SyncCompletion
  pub run :
      free_requests env true reason cs h ≡ some (freed_as h outstanding queued syncs (told env cs))
  pub calls :
      (chroot : Option (List ℕ))
      → process_replies env malloc chroot queued ≡ some (delivered env reason cs)
  pub answered :
      All (λ c. (c.c == env.synchronous_marker) ≡ true → (syncs c.data_pointer).rc ≡ reason) cs
  pub kept : (a : ℕ) → (h.syncs a).rc ≡ reason → (syncs a).rc ≡ reason
  pub fewer :
      length (told env cs) ≤ h.zh.outstanding_sync
      → h.zh.outstanding_sync < 2 ^ 32
      → outstanding + length (told env cs) ≡ h.zh.outstanding_sync

freed_nothing : {H : HashTable} (h : Handle H) → h ≡ freed_as h h.zh.outstanding_sync [] h.syncs []
freed_nothing h = λ i. record h {
  completions_to_process = sym (append-nil h.completions_to_process) i;
  events = sym (append-nil h.events) i;
}

freed_twice :
    {H : HashTable} (h : Handle H) (o o' : ℕ) (q q' : List Reply) (s s' : ℕ → SyncCompletion)
    (e e' : List Event)
    → freed_as (freed_as h o q s e) o' q' s' e' ≡ freed_as h o' (q ++ q') s' (e ++ e')
freed_twice h o o' q q' s s' e e' = λ i. record h {
  zh = record h.zh { outstanding_sync = o' };
  completions_to_process = append_assoc h.completions_to_process q q' i;
  syncs = s';
  events = append_assoc h.events e e' i;
}

-- What one round does.
record Round (env : Env) (malloc : ℕ → ℕ → Bool) (reason : ℕ) {H : HashTable} (h : Handle H)
    (c : Completion) : Type 0 where
  outstanding : ℕ
  queued : List Reply
  syncs : ℕ → SyncCompletion
  run :
      free_completion env true reason c h
      ≡ some (freed_as h outstanding queued syncs (told env (c ∷ [])))
  calls :
      (chroot : Option (List ℕ))
      → process_replies env malloc chroot queued ≡ some (delivered env reason (c ∷ []))
  answered : (c.c == env.synchronous_marker) ≡ true → (syncs c.data_pointer).rc ≡ reason
  kept : (a : ℕ) → (h.syncs a).rc ≡ reason → (syncs a).rc ≡ reason
  fewer :
      length (told env (c ∷ [])) ≤ h.zh.outstanding_sync
      → h.zh.outstanding_sync < 2 ^ 32
      → outstanding + length (told env (c ∷ [])) ≡ h.zh.outstanding_sync

told-cons :
    (env : Env) (c : Completion) (cs : List Completion)
    → told env (c ∷ []) ++ told env cs ≡ told env (c ∷ cs)
told-cons env c cs = elim (Bool-cases (c.c == env.synchronous_marker)) [
  | inl sync ↦ rw sync refl
  | inr not_sync ↦ rw not_sync refl
]

delivered-cons :
    (env : Env) (reason : ℕ) (c : Completion) (cs : List Completion)
    → delivered env reason (c ∷ []) ++ delivered env reason cs ≡ delivered env reason (c ∷ cs)
delivered-cons env reason c cs = elim (Bool-cases (c.c == env.synchronous_marker)) [
  | inl sync ↦ rw sync refl
  | inr not_sync ↦ elim (Bool-cases (c.xid == ping_xid)) [
    | inl ping ↦ rw (not_sync, ping) refl
    | inr no_ping ↦ rw (not_sync, no_ping) refl
  ]
]

module _ (env : Env) (malloc : ℕ → ℕ → Bool) (grants : Grants env)
    (granted : (off n : ℕ) → malloc off n ≡ true) (reason : ℕ) (an_int : reason < 2 ^ 32)
    (an_error : (reason == 0) ≡ false) {H : HashTable} where
  round : (h : Handle H) (c : Completion) → IsRequest c → Round env malloc reason h c
  unfolding free_completion notify_sync set_rc process_replies
  round h c is = elim (Bool-cases (c.c == env.synchronous_marker)) [
    | inl sync ↦ record {
      outstanding = sub_int h.zh.outstanding_sync 1;
      queued = [];
      syncs = set_rc h.syncs c.data_pointer reason;
      run = rw sync (
          ap (λ t. some t)
            (λ i. record h {
              zh = record h.zh { outstanding_sync = sub_int h.zh.outstanding_sync 1 };
              completions_to_process = sym (append-nil h.completions_to_process) i;
              syncs = set_rc h.syncs c.data_pointer reason;
              events = h.events ++ (notified c.data_pointer ∷ []);
            }));
      calls = λ chroot. rw sync refl;
      answered = λ _. rw (==_refl c.data_pointer) refl;
      kept = λ a e. elim (Bool-cases (a == c.data_pointer)) [
        | inl same ↦ rw same refl
        | inr differs ↦ rw differs e
      ];
      fewer =
          λ le lt. let le' : 1 ≤ h.zh.outstanding_sync = rw sync at le in rw sync (ground arith);
    }
    | inr not_sync ↦ elim (Bool-cases (c.xid == ping_xid)) [
      | inl ping ↦ record {
        outstanding = h.zh.outstanding_sync;
        queued = [];
        syncs = h.syncs;
        run = rw (not_sync, ping) (ap (λ t. some t) (freed_nothing h));
        calls = λ chroot. rw (not_sync, ping) refl;
        answered = λ e. absurd (cc (sym e ∙ not_sync));
        kept = λ a e. e;
        fewer = λ le lt. rw not_sync (omega arith);
      }
      | inr no_ping ↦
          let (b, cells, ia, made, stored, read) =
            fake_header-read env malloc grants granted reason an_int an_error c.xid is.wide in
          record {
            outstanding = h.zh.outstanding_sync;
            queued = response c b ∷ [];
            syncs = h.syncs;
            run =
                rw (not_sync, no_ping)
                  (rw made (
                    ap (λ t. some t)
                      (λ i. record h {
                        completions_to_process = h.completions_to_process ++ (response c b ∷ []);
                        events = sym (append-nil h.events) i;
                      })));
            calls = λ chroot.
                rw (not_sync, no_ping)
                  (process_replies-cons env malloc chroot (response c b) []
                    (completed c.completion_type c.c reason no_body c.data_pointer ∷ []) []
                    (process_reply-faked env malloc grants granted reason an_int an_error chroot c b
                      cells ia is no_ping stored read)
                    refl);
            answered = λ e. absurd (cc (sym e ∙ not_sync));
            kept = λ a e. e;
            fewer = λ le lt. rw not_sync (omega arith);
          }
    ]
  ]

  pub free_requests-Freed :
      (h : Handle H) (cs : List Completion) → All IsRequest cs → Freed env malloc reason h cs
  unfolding free_requests process_replies
  free_requests-Freed h [] is = record {
    outstanding = h.zh.outstanding_sync;
    queued = [];
    syncs = h.syncs;
    run = ap (λ t. some t) (freed_nothing h);
    calls = λ chroot. refl;
    answered = tt;
    kept = λ a e. e;
    fewer = λ le lt. omega arith;
  }
  free_requests-Freed h (c ∷ cs) is =
      let first = round h c is.0 in
      let h1 = freed_as h first.outstanding first.queued first.syncs (told env (c ∷ [])) in
      let more = free_requests-Freed h1 cs is.1 in
      let heard = told-cons env c cs in
      let count = length-append (told env (c ∷ [])) (told env cs) in
      let total : length (told env (c ∷ [])) + length (told env cs) ≡ length (told env (c ∷ cs)) =
        sym count ∙ ap (λ (l : List Event). length l) heard in
      record {
        outstanding = more.outstanding;
        queued = first.queued ++ more.queued;
        syncs = more.syncs;
        run =
            rw (first.run, free_requests)
              (more.run
                ∙ ap (λ t. some t)
                    (freed_twice h first.outstanding more.outstanding first.queued more.queued
                        first.syncs more.syncs (told env (c ∷ [])) (told env cs)
                      ∙ ap (freed_as h more.outstanding (first.queued ++ more.queued) more.syncs)
                          heard));
        calls = λ chroot.
            process_replies-append env malloc chroot first.queued more.queued
              (delivered env reason (c ∷ [])) (delivered env reason cs) (first.calls chroot)
              (more.calls chroot)
            ∙ ap (λ t. some t) (delivered-cons env reason c cs);
        answered = (λ e. more.kept c.data_pointer (first.answered e), more.answered);
        kept = λ a e. more.kept a (first.kept a e);
        fewer = λ le lt.
            let one = first.fewer (omega arith) lt in
            let others = more.fewer (omega arith) (omega arith) in omega arith;
      }
