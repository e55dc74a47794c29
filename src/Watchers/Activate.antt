-- ===== src/Watchers/Activate.antt =====
-- Which watchers a path has after one is added.
use ruby_zookeeper.Prelude.{
  ◌==◌, ==_iff, ==_refl, Bool-cases, Option-cases, ℕ, ◌+◌, ◌<◌, ◌≡◌, refl, sym, ap, ◌∙◌, ◌≢◌, inl,
  inr, false, none, some, List, [], ◌∷◌, arith,
}
use ruby_zookeeper.Path.Scan.{same}
use ruby_zookeeper.Watchers.{
  HashTable, WatcherObject, set_list, search_watcher, add_to_list, do_insert_watcher_object,
}
use ruby_zookeeper.Watchers.Collect.{watchers_of}

-- The documented behaviour of `hashtable_insert` for a key that is not in the table.
pub record Inserts (H : HashTable) : Type 0 where
  pub found :
      (t : H.Table) (k : List ℕ) (v : ℕ)
      → H.search t k ≡ none
      → H.search (H.insert t k v) k ≡ some v
  pub others :
      (t : H.Table) (k j : List ℕ) (v : ℕ)
      → H.search t k ≡ none
      → j ≢ k
      → H.search (H.insert t k v) j ≡ H.search t j

-- The lists of a table have addresses that are given out, and no two paths share one.
pub record Owned (H : HashTable) (t : H.Table) (fresh : ℕ) : Type 0 where
  pub given : (k : List ℕ) (p : ℕ) → H.search t k ≡ some p → p < fresh
  pub apart : (k j : List ℕ) (p : ℕ) → H.search t k ≡ some p → H.search t j ≡ some p → k ≡ j

module _ (H : HashTable) (laws : Inserts H) where
  search-at :
      (lists : ℕ → List WatcherObject) (t : H.Table) (k : List ℕ) (p : ℕ)
      → H.search t k ≡ some p
      → watchers_of H lists t k ≡ lists p
  search-at lists t k p e = rw (e, watchers_of) refl

  search-none :
      (lists : ℕ → List WatcherObject) (t : H.Table) (k : List ℕ)
      → H.search t k ≡ none
      → watchers_of H lists t k ≡ []
  search-none lists t k e = rw (e, watchers_of) refl

  -- Over a hash table that inserts as documented, in which no two paths share a list and all lists are
  -- at addresses that are given out: after `do_insert_watcher_object` for a path, the path has the watchers
  -- that `add_to_list` makes of those that it had, and those of any other path stay.
  pub do_insert_watcher_object_lem :
      (t : H.Table) (path j : List ℕ) (wo : WatcherObject) (lists : ℕ → List WatcherObject)
      (fresh : ℕ)
      → Owned H t fresh
      → j ≢ path
      → (watchers_of H
            (do_insert_watcher_object H t path wo lists fresh).1
            (do_insert_watcher_object H t path wo lists fresh).0
            path
          ≡ (add_to_list (watchers_of H lists t path) wo).0)
        × (watchers_of H
              (do_insert_watcher_object H t path wo lists fresh).1
              (do_insert_watcher_object H t path wo lists fresh).0
              j
            ≡ watchers_of H lists t j)
  unfolding do_insert_watcher_object add_to_list search_watcher
  do_insert_watcher_object_lem t path j wo lists fresh own differ =
      elim (Option-cases (H.search t path)) [
        | inl e ↦
            let none_yet = search-none lists t path e in
            let lists' = set_list lists fresh (wo ∷ []) in
            let t' = H.insert t path fresh in
            let r : do_insert_watcher_object H t path wo lists fresh ≡ (t', lists', fresh + 1, 1) =
              rw (e, do_insert_watcher_object) refl in
            rw r (
              search-at lists' t' path fresh (laws.found t path fresh e)
                  ∙ rw (==_refl fresh) refl
                  ∙ ap (λ l. (add_to_list l wo).0) (sym none_yet),
              elim (Option-cases (H.search t j)) [
                | inl f ↦
                    search-none lists' t' j (laws.others t path j fresh e differ ∙ f)
                    ∙ sym (search-none lists t j f)
                | inr (q, f) ↦
                    let old : (q == fresh) ≡ false = ground (arith, own.given j q f) in
                    search-at lists' t' j q (laws.others t path j fresh e differ ∙ f)
                    ∙ rw old refl
                    ∙ sym (search-at lists t j q f)
              ],
            )
        | inr (p, e) ↦
            let lists' = set_list lists p (add_to_list (lists p) wo).0 in
            let r : do_insert_watcher_object H t path wo lists fresh
                ≡ (t, lists', fresh, (add_to_list (lists p) wo).1) =
              rw (e, do_insert_watcher_object) refl in
            rw r (
              search-at lists' t path p e
                  ∙ rw (==_refl p) refl
                  ∙ ap (λ l. (add_to_list l wo).0) (sym (search-at lists t path p e)),
              elim (Option-cases (H.search t j)) [
                | inl f ↦ search-none lists' t j f ∙ sym (search-none lists t j f)
                | inr (q, f) ↦ elim (Bool-cases (q == p)) [
                  | inl same ↦
                      absurd
                        (differ (own.apart j path p (f ∙ ap (λ a. some a) ((==_iff q p).0 same)) e))
                  | inr old ↦ search-at lists' t j q f ∙ rw old refl ∙ sym (search-at lists t j q f)
                ]
              ],
            )
      ]
