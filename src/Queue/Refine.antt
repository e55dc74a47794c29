-- ===== src/Queue/Refine.antt =====
-- The linked queues do what a list of addresses does.
use ruby_zookeeper.Prelude.{
  length, All-append, ok, fail, fault, Run, ◌>>=◌, ◌>>◌, return, bind-ok, ◌==◌, if◌then◌else◌,
  ==_refl, Bool-cases, Option-cases, some-injective, ℕ, zero, suc, ◌+◌, ◌%◌, ◌^◌, ◌<◌, ◌≤◌, ◌≡◌,
  refl, sym, ap, ◌∙◌, inl, inr, Bool, true, false, ◌||◌, Option, none, some, List, [], ◌∷◌, ◌++◌,
  arith,
}
use ruby_zookeeper.Queue.{
  Node, Queue, set_next, queue_buffer, dequeue_buffer, queue_completion, dequeue_completion,
  count_from, get_queue_len,
}
use ruby_zookeeper.Queue.Chains.{
  last_of, Fresh, Distinct, last-append, Chain, Holds, Chain-back, Chain-front,
}

-- What the operations do to a list.
pub data Op : Type 0 where
  push_back push_front : ℕ → Op
  pop : Op

abbrev pub contains : ℕ → List ℕ → Bool
contains b [] = false
contains b (p ∷ ps) = p == b || contains b ps

-- The list after an operation and what it hands out; `none` is an element put in that is in already.
abbrev pub list_op : Op → List ℕ → Option (Option ℕ × List ℕ)
list_op (push_back b) ps = if contains b ps then none else some (none, ps ++ (b ∷ []))
list_op (push_front b) ps = if contains b ps then none else some (none, b ∷ ps)
list_op pop [] = some (none, [])
list_op pop (p ∷ ps) = some (some p, ps)

abbrev pub list_ops : List Op → List ℕ → Option (List (Option ℕ) × List ℕ)
list_ops [] ps = some ([], ps)
list_ops (o ∷ os) ps = elim (list_op o ps) [
  | none ↦ none
  | some r ↦ elim (list_ops os r.1) [ none ↦ none | some r' ↦ some (r.0 ∷ r'.0, r'.1) ]
]

contains-Fresh : (b : ℕ) (ps : List ℕ) → contains b ps ≡ false → Fresh b ps
contains-Fresh b [] h = tt
contains-Fresh b (p ∷ ps) h =
    (ground arith, contains-Fresh b ps (ground (arith, Bool-cases (p == b))))

Distinct-back : (ps : List ℕ) (b : ℕ) → Fresh b ps → Distinct ps → Distinct (ps ++ (b ∷ []))
Distinct-back [] b fresh d = (tt, tt)
Distinct-back (p ∷ ps) b fresh d = (
  All-append (λ q. (q == p) ≡ false) ps (b ∷ []) d.0 (ground (arith, fresh.0), tt),
  Distinct-back ps b fresh.1 d.1,
)

last-some : (p : ℕ) (ps : List ℕ) → (l : ℕ) × (last_of (p ∷ ps) ≡ some l)
last-some p [] = (p, refl)
last-some p (q ∷ ps) = last-some q ps

module _ {ℓ} {A : Type ℓ} where
  abbrev pub buffer_op : Op → Run (Queue A) (Option ℕ)
  buffer_op (push_back b) = queue_buffer b false >> return none
  buffer_op (push_front b) = queue_buffer b true >> return none
  buffer_op pop = dequeue_buffer

  abbrev pub completion_op : Op → Run (Queue A) (Option ℕ)
  completion_op (push_back b) = queue_completion b false >> return none
  completion_op (push_front b) = queue_completion b true >> return none
  completion_op pop = dequeue_completion

  abbrev pub ops : (Op → Run (Queue A) (Option ℕ)) → List Op → Run (Queue A) (List (Option ℕ))
  ops op [] = return []
  ops op (o ∷ os) = do out ← op o; outs ← ops op os; return (out ∷ outs)

  -- An operation on the queue hands out what the one on the list does, and holds what it holds.
  abbrev Refines : (Op → Run (Queue A) (Option ℕ)) → Type ℓ
  Refines op =
      (o : Op) (list : Queue A) (ps : List ℕ) (r : Option ℕ × List ℕ)
      → Holds list ps
      → list_op o ps ≡ some r
      → (list' : Queue A) × (op o list ≡ ok r.0 list') × Holds list' r.1

  queue_buffer-back :
      (b : ℕ) (list : Queue A) (ps : List ℕ)
      → Holds list ps
      → Fresh b ps
      → (list' : Queue A) × (queue_buffer b false list ≡ ok tt list') × Holds list' (ps ++ (b ∷ []))
  unfolding queue_buffer
  queue_buffer-back b list [] h fresh =
      let list' : Queue A = record {
        cells = set_next list.cells b none;
        head = some b;
        last = some b;
      } in
      (
        list',
        rw (h.chain, queue_buffer) refl,
        record { chain = (refl, rw (==_refl b) refl); ends = refl; distinct = (tt, tt) },
      )
  queue_buffer-back b list (p ∷ ps) h fresh =
      let (l, e) = last-some p ps in
      let ends = h.ends ∙ e in
      let list' : Queue A = record {
        cells = set_next (set_next list.cells b none) l (some b);
        head = some p;
        last = some b;
      } in
      (
        list',
        rw (h.chain.0, ends, queue_buffer) refl,
        record {
          chain = Chain-back list.cells b l (some p) (p ∷ ps) fresh h.distinct e (refl, h.chain.1);
          ends = sym (last-append (p ∷ ps) b);
          distinct = Distinct-back (p ∷ ps) b fresh h.distinct;
        },
      )

  queue_buffer-front :
      (b : ℕ) (list : Queue A) (ps : List ℕ)
      → Holds list ps
      → Fresh b ps
      → (list' : Queue A) × (queue_buffer b true list ≡ ok tt list') × Holds list' (b ∷ ps)
  unfolding queue_buffer
  queue_buffer-front b list [] h fresh =
      let list' : Queue A = record {
        cells = set_next list.cells b none;
        head = some b;
        last = some b;
      } in
      (
        list',
        rw (h.chain, queue_buffer) refl,
        record { chain = (refl, rw (==_refl b) refl); ends = refl; distinct = (tt, tt) },
      )
  queue_buffer-front b list (p ∷ ps) h fresh =
      let (l, e) = last-some p ps in
      let ends = h.ends ∙ e in
      let list' : Queue A = record {
        cells = set_next (set_next list.cells b none) b (some p);
        head = some b;
        last = some l;
      } in
      (
        list',
        rw (h.chain.0, ends, queue_buffer) refl,
        record {
          chain = Chain-front list.cells b p (some p) (p ∷ ps) fresh refl (refl, h.chain.1);
          ends = sym e;
          distinct = (fresh, h.distinct);
        },
      )

  dequeue_buffer-head :
      (list : Queue A) (p : ℕ) (ps : List ℕ)
      → Holds list (p ∷ ps)
      → (list' : Queue A) × (dequeue_buffer list ≡ ok (some p) list') × Holds list' ps
  unfolding dequeue_buffer
  dequeue_buffer-head list p [] h =
      let list' : Queue A = record { cells = list.cells; head = none; last = none } in
      (
        list',
        rw (h.chain.0, h.chain.1, h.ends, dequeue_buffer) (rw (==_refl p) refl),
        record { chain = refl; ends = refl; distinct = tt },
      )
  dequeue_buffer-head list p (q ∷ ps) h =
      let list' : Queue A = record list { head = some q } in
      (
        list',
        rw (h.chain.0, h.chain.1.0, dequeue_buffer) refl,
        record { chain = (refl, h.chain.1.1); ends = h.ends; distinct = h.distinct.1 },
      )

  dequeue_buffer-empty : (list : Queue A) → Holds list [] → dequeue_buffer list ≡ ok none list
  unfolding dequeue_buffer
  dequeue_buffer-empty list h = simp (h.chain, dequeue_buffer)

  buffer_op-Refines : Refines buffer_op
  buffer_op-Refines (push_back b) list ps r h e = elim (Bool-cases (contains b ps)) [
    | inl in_it ↦ absurd (ground (arith, rw in_it at e))
    | inr not_in ↦
        let e' = some-injective (rw not_in at e) in
        let (list', run, h') = queue_buffer-back b list ps h (contains-Fresh b ps not_in) in
        rw (← e') (list', bind-ok (queue_buffer b false) (λ _. return none) run, h')
  ]
  buffer_op-Refines (push_front b) list ps r h e = elim (Bool-cases (contains b ps)) [
    | inl in_it ↦ absurd (ground (arith, rw in_it at e))
    | inr not_in ↦
        let e' = some-injective (rw not_in at e) in
        let (list', run, h') = queue_buffer-front b list ps h (contains-Fresh b ps not_in) in
        rw (← e') (list', bind-ok (queue_buffer b true) (λ _. return none) run, h')
  ]
  buffer_op-Refines pop list [] r h e =
      rw (← some-injective e) (list, dequeue_buffer-empty list h, h)
  buffer_op-Refines pop list (p ∷ ps) r h e =
      rw (← some-injective e) (dequeue_buffer-head list p ps h)

  -- On a queue that holds a list the functions for completions do what those for buffers do.
  same_push :
      (b : ℕ) (front : Bool) (list : Queue A) (ps : List ℕ)
      → Holds list ps
      → queue_completion b front list ≡ queue_buffer b front list
  unfolding queue_completion queue_buffer
  same_push b front list [] h = simp (h.chain, h.ends, queue_completion, queue_buffer)
  same_push b true list (p ∷ ps) h =
      let ends = h.ends ∙ (last-some p ps).1 in
      simp (h.chain.0, ends, queue_completion, queue_buffer)
  same_push b false list (p ∷ ps) h =
      let ends = h.ends ∙ (last-some p ps).1 in
      simp (h.chain.0, ends, queue_completion, queue_buffer)

  same_pop :
      (list : Queue A) (ps : List ℕ) → Holds list ps → dequeue_completion list ≡ dequeue_buffer list
  unfolding dequeue_completion dequeue_buffer
  same_pop list [] h = simp (h.chain, dequeue_completion, dequeue_buffer)
  same_pop list (p ∷ []) h =
      simp (h.chain.0, h.chain.1, h.ends, ==_refl p, dequeue_completion, dequeue_buffer)
  same_pop list (p ∷ q ∷ ps) h = simp (h.chain.0, h.chain.1.0, dequeue_completion, dequeue_buffer)

  completion_op-Refines : Refines completion_op
  completion_op-Refines (push_back b) list ps r h e =
      let (list', run, h') = buffer_op-Refines (push_back b) list ps r h e in
      (
        list',
        ap (λ o. elim o [ ok a s ↦ ok none s | fail rc s ↦ fail rc s | fault ↦ fault ])
              (same_push b false list ps h)
            ∙ run,
        h',
      )
  completion_op-Refines (push_front b) list ps r h e =
      let (list', run, h') = buffer_op-Refines (push_front b) list ps r h e in
      (
        list',
        ap (λ o. elim o [ ok a s ↦ ok none s | fail rc s ↦ fail rc s | fault ↦ fault ])
              (same_push b true list ps h)
            ∙ run,
        h',
      )
  completion_op-Refines pop list ps r h e =
      let (list', run, h') = buffer_op-Refines pop list ps r h e in
      (list', same_pop list ps h ∙ run, h')

  ops-list_ops :
      (op : Op → Run (Queue A) (Option ℕ))
      → Refines op
      → (os : List Op) (list : Queue A) (ps : List ℕ) (r : List (Option ℕ) × List ℕ) → Holds list ps
      → list_ops os ps ≡ some r
      → (list' : Queue A) × (ops op os list ≡ ok r.0 list') × Holds list' r.1
  ops-list_ops op refines [] list ps r h e = rw (← some-injective e) (list, refl, h)
  ops-list_ops op refines (o ∷ os) list ps r h e = elim (Option-cases (list_op o ps)) [
    | inl stuck ↦ absurd (ground (arith, rw (stuck, list_ops) at e))
    | inr (r₁, e₁) ↦ elim (Option-cases (list_ops os r₁.1)) [
      | inl stuck ↦ absurd (ground (arith, rw (e₁, stuck, list_ops) at e))
      | inr (r₂, e₂) ↦
          let (list₁, run₁, h₁) = refines o list ps r₁ h e₁ in
          let (list₂, run₂, h₂) = ops-list_ops op refines os list₁ r₁.1 r₂ h₁ e₂ in
          let e' = some-injective (rw (e₁, e₂, list_ops) at e) in
          rw (← e') (
            list₂,
            bind-ok (op o) (λ out. ops op os >>= λ outs. return (out ∷ outs)) run₁
                ∙ bind-ok (ops op os) (λ outs. return (r₁.0 ∷ outs)) run₂,
            h₂,
          )
    ]
  ]

  -- Any sequence of `queue_buffer`, to the back or the front, and `dequeue_buffer`, on a queue that holds
  -- a list of buffers, where no buffer is put in that is in already: no assertion fails, the buffers
  -- come out in the order in which a list gives them, and the queue holds what that list holds.
  pub buffer_ops-list_ops :
      (os : List Op) (list : Queue A) (ps : List ℕ) (r : List (Option ℕ) × List ℕ)
      → Holds list ps
      → list_ops os ps ≡ some r
      → (list' : Queue A) × (ops buffer_op os list ≡ ok r.0 list') × Holds list' r.1
  buffer_ops-list_ops = ops-list_ops buffer_op buffer_op-Refines

  -- The same for `queue_completion` and `dequeue_completion`, which look at the other end of the queue:
  -- no assertion fails, the completions come out in the order in which a list gives them, and the
  -- queue holds what that list holds, if no completion is put in that is in already.
  pub completion_ops-list_ops :
      (os : List Op) (list : Queue A) (ps : List ℕ) (r : List (Option ℕ) × List ℕ)
      → Holds list ps
      → list_ops os ps ≡ some r
      → (list' : Queue A) × (ops completion_op os list ≡ ok r.0 list') × Holds list' r.1
  completion_ops-list_ops = ops-list_ops completion_op completion_op-Refines

  count_from-length :
      (rounds : ℕ) (cells : ℕ → Node A) (start : Option ℕ) (ps : List ℕ) (i : ℕ)
      → length ps ≤ rounds
      → i + length ps < 2 ^ 31
      → Chain cells start ps
      → count_from rounds cells start i ≡ some (i + length ps)
  unfolding count_from
  count_from-length zero cells start [] i fuel small c =
      rw (c, count_from) (ap (λ n. some n) (omega arith))
  count_from-length (suc rounds) cells start [] i fuel small c =
      rw (c, count_from) (ap (λ n. some n) (omega arith))
  count_from-length zero cells start (p ∷ ps) i fuel small c = absurd (omega arith)
  count_from-length (suc rounds) cells start (p ∷ ps) i fuel small c =
      let next : (i + 1) % 2 ^ 32 ≡ i + 1 = omega arith in
      let more =
        count_from-length rounds cells (cells p).next ps (i + 1) (omega arith) (omega arith) c.1 in
      rw (c.0, count_from)
        (ap (count_from rounds cells (cells p).next) next ∙ more ∙ ap (λ n. some n) (omega arith))

  -- `get_queue_len` ends on every queue that holds a list of less than 2^31 elements, after as many rounds
  -- as it has elements, and returns their number.
  pub get_queue_len-length :
      (rounds : ℕ) (list : Queue A) (ps : List ℕ)
      → Holds list ps
      → length ps ≤ rounds
      → length ps < 2 ^ 31
      → get_queue_len rounds list ≡ some (length ps)
  unfolding get_queue_len
  get_queue_len-length rounds list ps h fuel small =
      count_from-length rounds list.cells list.head ps 0 fuel (omega arith) h.chain
      ∙ ap (λ n. some n) (omega arith)
