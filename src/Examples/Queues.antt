-- ===== src/Examples/Queues.antt =====
-- The linked queues at concrete values.
use ruby_zookeeper.Prelude.{
  length, ok, ◌==◌, if◌then◌else◌, ℕ, ◌≡◌, refl, Option, none, some, List, [], ◌∷◌, arith,
}
use ruby_zookeeper.Queue.{Queue, get_queue_len}
use ruby_zookeeper.Queue.Chains.{Holds}
use ruby_zookeeper.Queue.Refine.{
  Op, push_back, push_front, pop, buffer_op, completion_op, ops, buffer_ops-list_ops,
  completion_ops-list_ops, get_queue_len-length,
}

abbrev start : Queue ℕ
start = record { cells = λ p. record { item = p; next = none }; head = none; last = none }

start-Holds : Holds start []
start-Holds = record { chain = refl; ends = refl; distinct = tt }

abbrev script : List Op
script = push_back 4 ∷ push_back 6 ∷ push_front 8 ∷ pop ∷ pop ∷ push_back 8 ∷ []

abbrev result : List (Option ℕ) × List ℕ
result = (none ∷ none ∷ none ∷ some 8 ∷ some 4 ∷ none ∷ [], 6 ∷ 8 ∷ [])

buffer_ops-list_ops_example :
    (list' : Queue ℕ) × (ops buffer_op script start ≡ ok result.0 list') × Holds list' result.1
buffer_ops-list_ops_example = buffer_ops-list_ops script start [] result start-Holds refl

completion_ops-list_ops_example :
    (list' : Queue ℕ) × (ops completion_op script start ≡ ok result.0 list') × Holds list' result.1
completion_ops-list_ops_example = completion_ops-list_ops script start [] result start-Holds refl

-- 3 -> 5
abbrev pair : Queue ℕ
pair = record {
  cells = λ p. record { item = p; next = if p == 3 then some 5 else none };
  head = some 3;
  last = some 5;
}

get_queue_len-length_example : get_queue_len 7 pair ≡ some (length {A = ℕ} (3 ∷ 5 ∷ []))
get_queue_len-length_example =
    get_queue_len-length 7 pair (3 ∷ 5 ∷ [])
      (record { chain = (refl, (refl, refl)); ends = refl; distinct = ((refl, tt), (tt, tt)) })
      (omega arith) (omega arith)
