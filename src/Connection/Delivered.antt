-- ===== src/Connection/Delivered.antt =====
-- `zookeeper_process` from the received buffers to the functions of the user.
use ruby_zookeeper.Prelude.{
  ok, ◌==◌, Bool-cases, ℕ, ◌+◌, ◌-◌, ◌≡◌, refl, ap, ◌∙◌, inl, inr, Bool, true, some, List, [], ◌++◌,
  arith,
}
use ruby_zookeeper.Connection.{Net}
use ruby_zookeeper.Connection.Check.{check_events, process_events}
use ruby_zookeeper.Connection.Counted.{Steady}
use ruby_zookeeper.Connection.Steps.{check_events-Steady}
use ruby_zookeeper.Connection.Close.{Round, api_prolog, api_epilog, zookeeper_process}
use ruby_zookeeper.Replies.{Event, Handle}
use ruby_zookeeper.Replies.Deliver.{process_replies, process_completions, process_if_async}
use ruby_zookeeper.Replies.InOrder.{requests, buffers, responses, process_buffers-Answered}
use ruby_zookeeper.Replies.Process.{process_buffers}
use ruby_zookeeper.Replies.Results.{
  AreResults, calls_for, AreAnswers-results, process_replies-Results,
}
use ruby_zookeeper.Session.{zok, Env, Completion, is_unrecoverable}
use ruby_zookeeper.Watchers.{HashTable}
use ruby_zookeeper.Wire.{BufferList}
use ruby_zookeeper.Wire.Receive.{taken}

pub record Delivered {H : HashTable} (h h1 : Handle H) (calls : List Event) (rest : List Completion)
    (h' : Handle H) : Type 0 where
  pub events : h'.events ≡ h1.events ++ calls
  pub waiting : h'.zh.sent_requests ≡ rest
  pub none_received : h'.to_process ≡ []
  pub none_queued : h'.completions_to_process ≡ []
  pub state : h'.zh.state ≡ h1.zh.state
  pub counted : h'.ref_counter ≡ h.ref_counter

-- If memory is granted, for a handle that is not beyond recovery and whose close nobody asked for: when
-- `check_events` passes, leaving buffers that answer the first requests in their order, no completions
-- that wait and no synchronous callers, `zookeeper_process` returns ZOK and has called the function of
-- each of these requests, and no other, once and in their order, with the return code of its answer and,
-- when that is 0, the result whose bytes the answer carries; pings are skipped. The other requests wait
-- on, the state is the same, and the count of calls under way is as before.
pub zookeeper_process-Delivered :
    (env : Env) (malloc : ℕ → ℕ → Bool) (granted : (off n : ℕ) → malloc off n ≡ true)
    (rounds : List Round) (net : Net) {H : HashTable} (readable writable : Bool) (h h1 : Handle H)
    (pairs : List (Completion × BufferList)) (rest : List Completion) (are : AreResults env pairs)
    → (is_unrecoverable h.zh == 0) ≡ true
    → check_events env malloc net readable writable (api_prolog env malloc rounds h) ≡ ok tt h1
    → h.close_requested ≡ 0
    → h1.to_process ≡ buffers pairs
    → h1.zh.sent_requests ≡ requests pairs ++ rest
    → h1.completions_to_process ≡ []
    → h1.zh.outstanding_sync ≡ 0
    → (h' : Handle H) × (zookeeper_process env malloc rounds net readable writable h
        ≡ some (zok, h'))
      × Delivered h h1 (calls_for env pairs are) rest h'
unfolding zookeeper_process api_prolog process_events process_if_async process_completions
    api_epilog
zookeeper_process-Delivered env malloc granted rounds net {H = H} readable writable h h1 pairs rest
      are usable checked open_still received first nothing_waits nobody_waits =
    let within : Steady (api_prolog env malloc rounds h) h1 =
      rw checked at
        (check_events-Steady env malloc net readable writable (api_prolog env malloc rounds h)) in
    let counted : h1.ref_counter ≡ h.ref_counter + 1 = within.counter in
    let (h2, run, answered, taken) =
      process_buffers-Answered env malloc granted pairs rest h1 (AreAnswers-results env pairs are)
        first in
    let run' : process_buffers env malloc h1.to_process h1 ≡ ok tt h2 =
      ap (λ t. process_buffers env malloc t h1) received ∙ run in
    let queue : h2.completions_to_process ≡ responses pairs =
      answered.queued ∙ ap (λ t. t ++ responses pairs) nothing_waits in
    let calls = calls_for env pairs are in
    let called : process_replies env malloc h2.zh.chroot h2.completions_to_process ≡ some calls =
      ap (process_replies env malloc h2.zh.chroot) queue
      ∙ process_replies-Results env malloc granted h2.zh.chroot pairs are in
    let h3 = record h2 { completions_to_process = []; events = h2.events ++ calls } in
    let idle : (h2.zh.outstanding_sync == 0) ≡ true =
      rw (answered.outstanding, nobody_waits) refl in
    let done : process_if_async env malloc H h2 ≡ some h3 =
      rw idle (rw (called, process_completions) refl) in
    let work : process_events env malloc net readable writable (api_prolog env malloc rounds h)
        ≡ ok tt h3 =
      rw (checked, process_events) (rw (run', process_events) (rw (done, process_events) refl)) in
    let h' = record h3 { ref_counter = h3.ref_counter - 1 } in
    let unasked : (h'.close_requested == 0) ≡ true =
      rw (answered.requested, within.requested, open_still) refl in
    let left : api_epilog env malloc rounds zok h3 ≡ some (zok, h') =
      elim (Bool-cases (h'.ref_counter == 0)) [
        | inl last ↦ rw (last, unasked) refl
        | inr more ↦ rw more refl
      ] in
    (
      h',
      rw (usable, work, zookeeper_process) left,
      record {
        events = ap (λ t. t ++ calls) answered.quiet;
        waiting = answered.left;
        none_received = taken;
        none_queued = refl;
        state = answered.state;
        counted = omega (arith, answered.counted, counted);
      },
    )
