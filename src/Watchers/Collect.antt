-- ===== src/Watchers/Collect.antt =====
-- Which watchers an event is delivered to.
use ruby_zookeeper.Prelude.{
  ◌==◌, if◌then◌else◌, Bool-cases, Option-cases, ℕ, ◌≡◌, refl, sym, ap, ◌∙◌, ◌≢◌, inl, inr, Bool,
  true, false, ◌&&◌, ◌||◌, none, some, List, [], ◌∷◌, arith,
}
use ruby_zookeeper.Path.Scan.{same}
use ruby_zookeeper.Watchers.{
  HashTable, WatcherObject, search_watcher, add_to_list, copy_watchers, created_event,
  deleted_event, changed_event, child_event, session_event, WatchHandle, add_for_event,
  collect_watchers,
}

-- The documented behaviour of `hashtable_remove` and `hashtable_search`: a key that is removed is not
-- found any more, other keys stay, and its value is handed out.
pub record Removes (H : HashTable) : Type 0 where
  pub handed : (t : H.Table) (k : List ℕ) → (H.remove t k).0 ≡ H.search t k
  pub gone : (t : H.Table) (k : List ℕ) → H.search (H.remove t k).1 k ≡ none
  pub others : (t : H.Table) (k j : List ℕ) → j ≢ k → H.search (H.remove t k).1 j ≡ H.search t j

-- No watcher stands in the list twice.
abbrev pub Unique : List WatcherObject → Type 0
Unique [] = Unit {0}
Unique (wo ∷ rest) = (search_watcher rest wo ≡ false) × Unique rest

same-search :
    (l : List WatcherObject) (wo w : WatcherObject)
    → wo.watcher ≡ w.watcher
    → wo.context ≡ w.context
    → search_watcher l w ≡ search_watcher l wo
unfolding search_watcher
same-search [] wo w e e' = refl
same-search (x ∷ l) wo w e e' = ground (arith, same-search l wo w e e')

add_to_list-search :
    (l : List WatcherObject) (wo w : WatcherObject)
    → search_watcher (add_to_list l wo).0 w ≡ (search_watcher l w || search_watcher (wo ∷ []) w)
unfolding add_to_list search_watcher
add_to_list-search l wo w = elim (Bool-cases (search_watcher l wo)) [
  | inr new ↦ rw new (ground (arith, Bool-cases (search_watcher l w)))
  | inl there ↦ rw there (elim (Bool-cases (wo.watcher == w.watcher && wo.context == w.context)) [
    | inr differ ↦ ground (arith, Bool-cases (search_watcher l w))
    | inl same ↦ let e = same-search l wo w (ground arith) (ground arith) in ground arith
  ])
]

add_to_list-Unique :
    (l : List WatcherObject) (wo : WatcherObject) → Unique l → Unique (add_to_list l wo).0
unfolding add_to_list
add_to_list-Unique l wo u = elim (Bool-cases (search_watcher l wo)) [
  | inl there ↦ rw there u
  | inr new ↦ rw new (new, u)
]

copy_watchers-search :
    (from to : List WatcherObject) (w : WatcherObject)
    → search_watcher (copy_watchers from to) w ≡ (search_watcher to w || search_watcher from w)
unfolding copy_watchers search_watcher
copy_watchers-search [] to w = ground (arith, Bool-cases (search_watcher to w))
copy_watchers-search (wo ∷ from) to w =
    copy_watchers-search from (add_to_list to wo).0 w
    ∙ ap (λ b. b || search_watcher from w) (add_to_list-search to wo w)
    ∙ ground (arith, Bool-cases (search_watcher to w))

copy_watchers-Unique : (from to : List WatcherObject) → Unique to → Unique (copy_watchers from to)
unfolding copy_watchers
copy_watchers-Unique [] to u = u
copy_watchers-Unique (wo ∷ from) to u =
    copy_watchers-Unique from (add_to_list to wo).0 (add_to_list-Unique to wo u)

copied_twice :
    (a b : List WatcherObject) (w : WatcherObject)
    → search_watcher (copy_watchers b (copy_watchers a [])) w
      ≡ (search_watcher a w || search_watcher b w)
unfolding search_watcher
copied_twice a b w =
    copy_watchers-search b (copy_watchers a []) w
    ∙ ap (λ s. s || search_watcher b w) (copy_watchers-search a [] w)

module _ (H : HashTable) where
  -- The watchers of a path.
  abbrev pub watchers_of : (ℕ → List WatcherObject) → H.Table → List ℕ → List WatcherObject
  watchers_of lists t path = elim (H.search t path) [ none ↦ [] | some p ↦ lists p ]

module _ (H : HashTable) (laws : Removes H) where
  add_for_event-copy :
      (lists : ℕ → List WatcherObject) (t : H.Table) (path : List ℕ) (list : List WatcherObject)
      → add_for_event H lists t path list
        ≡ ((H.remove t path).1, copy_watchers (watchers_of H lists t path) list)
  unfolding add_for_event copy_watchers
  add_for_event-copy lists t path list = elim (Option-cases (H.search t path)) [
    | inl e ↦
        let out = laws.handed t path ∙ e in
        let watched : watchers_of H lists t path ≡ [] = rw (e, watchers_of) refl in
        rw (out, add_for_event)
          (ap (λ l. ((H.remove t path).1, copy_watchers l list)) (sym watched))
    | inr (p, e) ↦
        let out = laws.handed t path ∙ e in
        let watched : watchers_of H lists t path ≡ lists p = rw (e, watchers_of) refl in
        rw (out, add_for_event)
          (ap (λ l. ((H.remove t path).1, copy_watchers l list)) (sym watched))
  ]

  abbrev pub takes_node : ℕ → Bool
  takes_node type = type == created_event || type == changed_event || type == deleted_event

  abbrev pub takes_child : ℕ → Bool
  takes_child type = type == child_event || type == deleted_event

  -- What an event that is not one of the session leaves and delivers.
  pub record Collected (type : ℕ) (path : List ℕ) (zh : WatchHandle H)
      (r : WatchHandle H × List WatcherObject) : Type 0 where
    pub delivered :
        (w : WatcherObject)
        → search_watcher r.1 w ≡ (
            (takes_node type
              && (search_watcher (watchers_of H zh.lists zh.active_node_watchers path) w
                  || search_watcher (watchers_of H zh.lists zh.active_exist_watchers path) w))
            || (takes_child type
                && search_watcher (watchers_of H zh.lists zh.active_child_watchers path) w))
    pub once : Unique r.1
    pub node_left : r.0.active_node_watchers ≡ (
        if takes_node type
        then (H.remove zh.active_node_watchers path).1
        else zh.active_node_watchers)
    pub exist_left : r.0.active_exist_watchers ≡ (
        if takes_node type
        then (H.remove zh.active_exist_watchers path).1
        else zh.active_exist_watchers)
    pub child_left : r.0.active_child_watchers ≡ (
        if takes_child type
        then (H.remove zh.active_child_watchers path).1
        else zh.active_child_watchers)

  -- For every event that is not one of the session, over a hash table that removes as documented: the list to deliver has
  -- each watcher once, and has exactly those that are registered for the path in the tables that the
  -- type of the event concerns (data and existence for a created, changed or deleted node, children for
  -- a child event or a deleted node); the path is removed from these tables, and the others stay.
  pub collect_watchers-Collected :
      (type : ℕ) (path : List ℕ) (zh : WatchHandle H)
      → (type == session_event) ≡ false
      → Collected type path zh (collect_watchers H zh type path)
  unfolding collect_watchers search_watcher
  collect_watchers-Collected type path zh no_session =
      let node = watchers_of H zh.lists zh.active_node_watchers path in
      let exist = watchers_of H zh.lists zh.active_exist_watchers path in
      let child = watchers_of H zh.lists zh.active_child_watchers path in
      let n = add_for_event-copy zh.lists zh.active_node_watchers path [] in
      let e = add_for_event-copy zh.lists zh.active_exist_watchers path (copy_watchers node []) in
      let c =
        add_for_event-copy zh.lists zh.active_child_watchers path
          (copy_watchers exist (copy_watchers node [])) in
      let o = add_for_event-copy zh.lists zh.active_child_watchers path [] in
      let u =
        copy_watchers-Unique exist (copy_watchers node []) (copy_watchers-Unique node [] tt) in
      elim (Bool-cases (type == created_event || type == changed_event)) [
        | inl changed ↦
            let node_yes : takes_node type ≡ true = ground arith in
            let child_no : takes_child type ≡ false = ground arith in
            rw (no_session, changed, n, e)
              (record {
                delivered = λ w.
                    rw (node_yes, child_no)
                      (copied_twice node exist w
                        ∙ ground (arith, Bool-cases (search_watcher node w)));
                once = u;
                node_left = rw node_yes refl;
                exist_left = rw node_yes refl;
                child_left = rw child_no refl;
              })
        | inr unchanged ↦ elim (Bool-cases (type == child_event)) [
          | inl is_child ↦
              let node_no : takes_node type ≡ false = ground arith in
              let child_yes : takes_child type ≡ true = ground arith in
              rw (no_session, unchanged, is_child, o)
                (record {
                  delivered = λ w. rw (node_no, child_yes) (copy_watchers-search child [] w);
                  once = copy_watchers-Unique child [] tt;
                  node_left = rw node_no refl;
                  exist_left = rw node_no refl;
                  child_left = rw child_yes refl;
                })
          | inr no_child ↦ elim (Bool-cases (type == deleted_event)) [
            | inl deleted ↦
                let node_yes : takes_node type ≡ true = ground arith in
                let child_yes : takes_child type ≡ true = ground arith in
                rw (no_session, unchanged, no_child, deleted, n, e, c)
                  (record {
                    delivered = λ w.
                        rw (node_yes, child_yes)
                          (copy_watchers-search child (copy_watchers exist (copy_watchers node []))
                              w
                            ∙ ap (λ b. b || search_watcher child w) (copied_twice node exist w));
                    once =
                        copy_watchers-Unique child (copy_watchers exist (copy_watchers node [])) u;
                    node_left = rw node_yes refl;
                    exist_left = rw node_yes refl;
                    child_left = rw child_yes refl;
                  })
            | inr kept ↦
                let node_no : takes_node type ≡ false = ground arith in
                let child_no : takes_child type ≡ false = ground arith in
                rw (no_session, unchanged, no_child, kept)
                  (record {
                    delivered = λ w. rw (node_no, child_no) refl;
                    once = tt;
                    node_left = rw node_no refl;
                    exist_left = rw node_no refl;
                    child_left = rw child_no refl;
                  })
          ]
        ]
      ]
