-- ===== src/Watchers.antt =====
-- zk/src/c/src/zk_hashtable.c: the watchers of a handle, by path. The hash table is a library that
-- the code calls; its values are the addresses of the lists of watchers.
pub mod Collect
pub mod Activate
use ruby_zookeeper.Prelude.{
  ◌>>=◌, ◌>>◌, ◌==◌, if◌then◌else◌, neg, ℕ, ◌+◌, Bool, true, false, ◌&&◌, ◌||◌, not, Option, none,
  some, List, [], ◌∷◌,
}
use ruby_zookeeper.Session.{
  zok, ResultChecker, exists_result_checker, data_result_checker, child_result_checker,
  WatcherRegistration,
}

-- What is called of the hash table.
pub record HashTable : Type 1 where
  pub Table : Type 0
  pub search : Table → List ℕ → Option ℕ
  pub insert : Table → List ℕ → ℕ → Table
  pub remove : Table → List ℕ → Option ℕ × Table
  pub values : Table → List ℕ
  pub keys : Table → List (List ℕ)

-- `watcher_object_t` without its link.
pub record WatcherObject : Type 0 where
  pub watcher : ℕ
  pub context : ℕ

abbrev pub set_list : (ℕ → List WatcherObject) → ℕ → List WatcherObject → ℕ → List WatcherObject
set_list lists p l a = if a == p then l else lists a

unfoldable pub search_watcher : List WatcherObject → WatcherObject → Bool
search_watcher [] wo = false
search_watcher (wobj ∷ rest) wo =
    let more = search_watcher rest wo in
    if wobj.watcher == wo.watcher && wobj.context == wo.context then true else more

-- The list, and whether it is longer.
unfoldable pub add_to_list : List WatcherObject → WatcherObject → List WatcherObject × ℕ
add_to_list wl wo = if not (search_watcher wl wo) then (wo ∷ wl, 1) else (wl, 0)

unfoldable pub copy_watchers : List WatcherObject → List WatcherObject → List WatcherObject
copy_watchers [] to = to
copy_watchers (wo ∷ rest) to = copy_watchers rest (add_to_list to wo).0

abbrev pub created_event : ℕ
created_event = 1

abbrev pub deleted_event : ℕ
deleted_event = 2

abbrev pub changed_event : ℕ
changed_event = 3

abbrev pub child_event : ℕ
child_event = 4

abbrev pub session_event : ℕ
session_event = neg 1

abbrev pub znonode : ℕ
znonode = neg 101

module _ (H : HashTable) where
  -- The tables of a handle, and the memory that their values point to; `fresh` is the next address.
  pub record WatchHandle : Type 0 where
    pub watcher : ℕ
    pub context : ℕ
    pub active_node_watchers : H.Table
    pub active_exist_watchers : H.Table
    pub active_child_watchers : H.Table
    pub lists : ℕ → List WatcherObject
    pub fresh : ℕ

  -- The table, the memory, the next address and the result.
  unfoldable pub do_insert_watcher_object :
      H.Table
      → List ℕ
      → WatcherObject
      → (ℕ → List WatcherObject)
      → ℕ
      → H.Table × (ℕ → List WatcherObject) × ℕ × ℕ
  do_insert_watcher_object ht path wo lists fresh = elim (H.search ht path) [
    | none ↦ (H.insert ht path fresh, set_list lists fresh (wo ∷ []), fresh + 1, 1)
    | some wl ↦
        let added = add_to_list (lists wl) wo in (ht, set_list lists wl added.0, fresh, added.1)
  ]

  unfoldable pub add_for_event :
      (ℕ → List WatcherObject)
      → H.Table
      → List ℕ
      → List WatcherObject
      → H.Table × List WatcherObject
  add_for_event lists ht path list =
      let removed = H.remove ht path in
      elim removed.0 [
        | none ↦ (removed.1, list)
        | some wl ↦ (removed.1, copy_watchers (lists wl) list)
      ]

  unfoldable pub copy_values :
      (ℕ → List WatcherObject) → List ℕ → List WatcherObject → List WatcherObject
  copy_values lists [] to = to
  copy_values lists (w ∷ rest) to = copy_values lists rest (copy_watchers (lists w) to)

  unfoldable pub copy_table :
      (ℕ → List WatcherObject) → H.Table → List WatcherObject → List WatcherObject
  copy_table lists from to = copy_values lists (H.values from) to

  unfoldable pub collect_session_watchers : WatchHandle → List WatcherObject → List WatcherObject
  collect_session_watchers zh list = copy_table zh.lists zh.active_child_watchers (
      copy_table zh.lists zh.active_exist_watchers
        (copy_table zh.lists zh.active_node_watchers list))

  -- The handle without the watchers that are moved, and the list to deliver.
  unfoldable pub collect_watchers : WatchHandle → ℕ → List ℕ → WatchHandle × List WatcherObject
  collect_watchers zh type path =
      let def_watcher : WatcherObject = record { watcher = zh.watcher; context = zh.context } in
      let of_node = add_for_event zh.lists zh.active_node_watchers path [] in
      let of_exist = add_for_event zh.lists zh.active_exist_watchers path of_node.1 in
      let of_child = add_for_event zh.lists zh.active_child_watchers path of_exist.1 in
      let only_child = add_for_event zh.lists zh.active_child_watchers path [] in
      if type == session_event
      then (zh, collect_session_watchers zh (add_to_list [] def_watcher).0)
      else if type == created_event || type == changed_event
      then (
        record zh { active_node_watchers = of_node.0; active_exist_watchers = of_exist.0 },
        of_exist.1,
      )
      else if type == child_event
      then (record zh { active_child_watchers = only_child.0 }, only_child.1)
      else if type == deleted_event
      then (
        record zh {
          active_node_watchers = of_node.0;
          active_exist_watchers = of_exist.0;
          active_child_watchers = of_child.0;
        },
        of_child.1,
      )
      else (zh, [])

  -- Which table a watcher is added to after the reply `rc`.
  unfoldable pub checked_table : ResultChecker → ℕ → Option ResultChecker
  checked_table exists_result_checker rc =
      if rc == zok
      then some data_result_checker
      else if rc == znonode
      then some exists_result_checker
      else none
  checked_table data_result_checker rc = if rc == zok then some data_result_checker else none
  checked_table child_result_checker rc = if rc == zok then some child_result_checker else none

  -- `activateWatcher`. The table of data watchers goes by the name of its checker, and so do the others.
  unfoldable pub activate_watcher : WatchHandle → Option WatcherRegistration → ℕ → WatchHandle
  activate_watcher zh none rc = zh
  activate_watcher zh (some reg) rc =
      let wo : WatcherObject = record { watcher = reg.watcher; context = reg.context } in
      let node = do_insert_watcher_object zh.active_node_watchers reg.path wo zh.lists zh.fresh in
      let exist = do_insert_watcher_object zh.active_exist_watchers reg.path wo zh.lists zh.fresh in
      let child = do_insert_watcher_object zh.active_child_watchers reg.path wo zh.lists zh.fresh in
      elim (checked_table reg.checker rc) [
        | none ↦ zh
        | some data_result_checker ↦ record zh {
          active_node_watchers = node.0;
          lists = node.1;
          fresh = node.2;
        }
        | some exists_result_checker ↦ record zh {
          active_exist_watchers = exist.0;
          lists = exist.1;
          fresh = exist.2;
        }
        | some child_result_checker ↦ record zh {
          active_child_watchers = child.0;
          lists = child.1;
          fresh = child.2;
        }
      ]
