-- ===== src/Examples/Watches.antt =====
-- Watchers at concrete values, over a table that is a function.
use ruby_zookeeper.Prelude.{
  get_or, ◌==◌, if◌then◌else◌, ==_iff, ==_refl, Bool-cases, ℕ, ◌≡◌, refl, ap, ◌∙◌, ◌≢◌, inl, inr,
  Bool, true, false, ◌&&◌, Option, none, some, List, [], ◌∷◌, arith,
}
use ruby_zookeeper.Watchers.{
  HashTable, WatcherObject, add_to_list, WatchHandle, do_insert_watcher_object, collect_watchers,
}
use ruby_zookeeper.Watchers.Activate.{Inserts, Owned, do_insert_watcher_object_lem}
use ruby_zookeeper.Watchers.Collect.{Removes, watchers_of, Collected, collect_watchers-Collected}

pub same_key : List ℕ → List ℕ → Bool
same_key [] [] = true
same_key [] (k ∷ ks) = false
same_key (j ∷ js) [] = false
same_key (j ∷ js) (k ∷ ks) = let rest = same_key js ks in j == k && rest

same_key_refl : (k : List ℕ) → same_key k k ≡ true
unfolding same_key
same_key_refl [] = refl
same_key_refl (k ∷ ks) = rw (==_refl k, same_key_refl ks) refl

same_key_sound : (j k : List ℕ) → same_key j k ≡ true → j ≡ k
unfolding same_key
same_key_sound [] [] h = refl
same_key_sound [] (k ∷ ks) h = absurd (ground arith)
same_key_sound (j ∷ js) [] h = absurd (ground arith)
same_key_sound (j ∷ js) (k ∷ ks) h = elim (Bool-cases (j == k)) [
  | inl e ↦
      ap (λ x. x ∷ js) ((==_iff j k).0 e) ∙ ap (λ xs. k ∷ xs) (same_key_sound js ks (rw e at h))
  | inr e ↦ absurd (ground (arith, rw e at h))
]

same_key_differs : (j k : List ℕ) → j ≢ k → same_key j k ≡ false
same_key_differs j k ne = elim (Bool-cases (same_key j k)) [
  | inl e ↦ absurd (ne (same_key_sound j k e))
  | inr e ↦ e
]

abbrev pub functions : HashTable
functions = record {
  Table = List ℕ → Option ℕ;
  search = λ t k. t k;
  insert = λ t k v j. if same_key j k then some v else t j;
  remove = λ t k. (t k, λ j. if same_key j k then none else t j);
  values = λ t. [];
  keys = λ t. [];
}

functions-Removes : Removes functions
functions-Removes = record {
  handed = λ t k. refl;
  gone = λ t k. rw (same_key_refl k) refl;
  others = λ t k j ne. rw (same_key_differs j k ne) refl;
}

functions-Inserts : Inserts functions
functions-Inserts = record {
  found = λ t k v e. rw (same_key_refl k) refl;
  others = λ t k j v e ne. rw (same_key_differs j k ne) refl;
}

-- "/a" and "/b"
abbrev a : List ℕ
a = 47 ∷ 97 ∷ []

abbrev b : List ℕ
b = 47 ∷ 98 ∷ []

abbrev pub nothing : List ℕ → Option ℕ
nothing k = none

-- One path, with the list at the address 0.
abbrev one_path : List ℕ → Option ℕ
one_path k = if same_key k a then some 0 else none

abbrev watches : WatchHandle functions
watches = record {
  watcher = 5;
  context = 6;
  active_node_watchers = one_path;
  active_exist_watchers = nothing;
  active_child_watchers = one_path;
  lists = λ p. record { watcher = 7; context = 8 } ∷ [];
  fresh = 1;
}

collect_watchers-Collected_example :
    Collected functions functions-Removes 2 a watches (collect_watchers functions watches 2 a)
collect_watchers-Collected_example =
    collect_watchers-Collected functions functions-Removes 2 a watches refl

nothing-Owned : Owned functions nothing 0
nothing-Owned = record {
  given = λ k p e. absurd (ground arith);
  apart = λ k j p e e'. absurd (ground (arith, e));
}

a-b : a ≢ b
a-b e = absurd (ground (arith, ap (λ k. get_or k 1 0) e))

abbrev no_lists : ℕ → List WatcherObject
no_lists p = []

abbrev wo : WatcherObject
wo = record { watcher = 7; context = 8 }

abbrev inserted : (List ℕ → Option ℕ) × (ℕ → List WatcherObject) × ℕ × ℕ
inserted = do_insert_watcher_object functions nothing b wo no_lists 0

do_insert_watcher_object_lem_example :
    (watchers_of functions inserted.1 inserted.0 b
      ≡ (add_to_list (watchers_of functions no_lists nothing b) wo).0)
    × (watchers_of functions inserted.1 inserted.0 a ≡ watchers_of functions no_lists nothing a)
do_insert_watcher_object_lem_example =
    do_insert_watcher_object_lem functions functions-Inserts nothing b a wo no_lists 0 nothing-Owned
      a-b
