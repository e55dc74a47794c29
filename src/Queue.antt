-- ===== src/Queue.antt =====
-- zk/src/c/src/zookeeper.c: the queues of buffers and of completions, which are linked lists with a
-- pointer to the last element. The memory is a function from addresses; a null pointer is `none`.
pub mod Chains
pub mod Refine
use ruby_zookeeper.Prelude.{
  ok, fault, Run, ◌>>=◌, ◌>>◌, return, Void, ◌==◌, if◌then◌else◌, ℕ, zero, suc, ◌+◌, ◌%◌, ◌^◌, Bool,
  true, false, not, Option, none, some,
}

-- An element with what it holds.
pub record Node {ℓ} (A : Type ℓ) : Type ℓ where
  pub item : A
  pub next : Option ℕ

-- `buffer_head_t` or `completion_head_t`, and the memory.
pub record Queue {ℓ} (A : Type ℓ) : Type ℓ where
  pub cells : ℕ → Node A
  pub head : Option ℕ
  pub last : Option ℕ

module _ {ℓ} {A : Type ℓ} where
  -- `p->next = next`
  abbrev pub set_next : (ℕ → Node A) → ℕ → Option ℕ → ℕ → Node A
  set_next cells p next a = record {
    item = (cells a).item;
    next = if a == p then next else (cells a).next;
  }

  unfoldable pub queue_buffer : ℕ → Bool → Run (Queue A) Void
  queue_buffer b add_to_front list =
      let cells : ℕ → Node A = set_next list.cells b none in
      elim list.head [
        | none ↦ ok tt (record { cells = cells; head = some b; last = some b })
        | some h ↦ elim list.last [
          | none ↦ fault
          | some l ↦
              if add_to_front
              then ok tt
                  (record { cells = set_next cells b (some h); head = some b; last = some l })
              else ok tt
                  (record { cells = set_next cells l (some b); head = some h; last = some b })
        ]
      ]

  unfoldable pub dequeue_buffer : Run (Queue A) (Option ℕ)
  dequeue_buffer list = elim list.head [
    | none ↦ ok none list
    | some b ↦ elim (list.cells b).next [
      | some n ↦ ok (some b) (record list { head = some n })
      | none ↦ elim list.last [
        | none ↦ fault
        | some l ↦
            if b == l
            then ok (some b) (record { cells = list.cells; head = none; last = none })
            else fault
      ]
    ]
  ]

  unfoldable pub queue_completion : ℕ → Bool → Run (Queue A) Void
  queue_completion c add_to_front list =
      let cells : ℕ → Node A = set_next list.cells c none in
      elim list.last [
        | some l ↦ elim list.head [
          | none ↦ fault
          | some h ↦
              if not add_to_front
              then ok tt
                  (record { cells = set_next cells l (some c); head = some h; last = some c })
              else ok tt
                  (record { cells = set_next cells c (some h); head = some c; last = some l })
        ]
        | none ↦ elim list.head [
          | none ↦ ok tt (record { cells = cells; head = some c; last = some c })
          | some h ↦ fault
        ]
      ]

  unfoldable pub dequeue_completion : Run (Queue A) (Option ℕ)
  dequeue_completion list = elim list.head [
    | none ↦ ok none list
    | some c ↦ elim (list.cells c).next [
      | some n ↦ ok (some c) (record list { head = some n })
      | none ↦ elim list.last [
        | none ↦ fault
        | some l ↦
            if l == c
            then ok (some c) (record { cells = list.cells; head = none; last = none })
            else fault
      ]
    ]
  ]

  -- The loop of `get_queue_len` with its int, over the rounds allowed; `none` when they are too few.
  unfoldable pub count_from : ℕ → (ℕ → Node A) → Option ℕ → ℕ → Option ℕ
  count_from rounds cells none i = some i
  count_from zero cells (some p) i = none
  count_from (suc rounds) cells (some p) i =
      count_from rounds cells (cells p).next ((i + 1) % 2 ^ 32)

  unfoldable pub get_queue_len : ℕ → Queue A → Option ℕ
  get_queue_len rounds list = count_from rounds list.cells list.head 0

  -- `remove_buffer`: whether there was a buffer, which is freed.
  unfoldable pub remove_buffer : Run (Queue A) Bool
  remove_buffer = do b ← dequeue_buffer; return (elim b [ none ↦ false | some _ ↦ true ])
