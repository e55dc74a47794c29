-- ===== src/Replies/Sync.antt =====
-- `zookeeper_process`: the response to a synchronous call, copied to the memory of the caller.
use ruby_zookeeper.Prelude.{
  length, take, read_cells, write_cells, ok, fail, fault, ◌==◌, if◌then◌else◌, neg, lt_int, to_size,
  ℕ, ◌+◌, ◌-◌, Bool, not, Option, none, some, List, [], ◌∷◌, ◌++◌,
}
use ruby_zookeeper.Jute.Types.{CreateResponse, GetDataResponse}
use ruby_zookeeper.RecordIo.Archive.{IArchive}
use ruby_zookeeper.Replies.{
  Body, no_body, data_body, stat_body, strings_body, string_body, acl_body, SyncUnion, sync_string,
  sync_stat, sync_data, sync_acl, sync_strings, SyncCompletion,
}
use ruby_zookeeper.Replies.Deliver.{deserialize_body}
use ruby_zookeeper.Session.{Env, CompletionType}

-- `a <= b` on the patterns of two ints.
abbrev le_int : ℕ → ℕ → Bool
le_int a b = not (lt_int b a)

-- The bytes before the first 0: what `strlen` counts.
unfoldable pub c_string : List ℕ → List ℕ
c_string [] = []
c_string (c ∷ cs) = let rest = c_string cs in if c == 0 then [] else c ∷ rest

-- `memcpy(to, from, n)`; `none` is a fault.
unfoldable pub memcpy : Option (List ℕ) → Option (List ℕ) → ℕ → Option (List ℕ)
memcpy none from n = none
memcpy (some to) none n = none
memcpy (some to) (some from) n = elim (read_cells from 0 n) [
  | none ↦ none
  | some bytes ↦ write_cells to 0 bytes
]

-- The shorter of the data and the buffer, as ints; the length -1 stands for no data.
unfoldable pub sync_data_filled : GetDataResponse → Option (List ℕ) → ℕ → Option SyncUnion
sync_data_filled res buffer buff_len =
    let len = if le_int res.data_buffer.len buff_len then res.data_buffer.len else buff_len in
    if len == neg 1
    then some (sync_data none len res.stat)
    else (elim (memcpy buffer res.data_buffer.buff (to_size len)) [
      | none ↦ none
      | some cells ↦ some (sync_data (some cells) len res.stat)
    ])

-- The name with its final 0, cut off at the caller's length.
unfoldable pub sync_string_filled : CreateResponse → Option (List ℕ) → ℕ → Option SyncUnion
sync_string_filled res str str_len = elim res.path [
  | none ↦ none
  | some path ↦
      let full = length (c_string path) + 1 in
      let len = if lt_int str_len full then str_len else full in
      if lt_int 0 len
      then (elim (memcpy str (some (take (len - 1) path ++ (0 ∷ []))) len) [
        | none ↦ none
        | some cells ↦ some (sync_string (some cells) str_len)
      ])
      else some (sync_string str str_len)
]

-- What is stored for a result; a result for another member of the union is a fault.
unfoldable pub sync_filled : Body → SyncUnion → Option SyncUnion
sync_filled (data_body res) (sync_data buffer buff_len stat) = sync_data_filled res buffer buff_len
sync_filled (stat_body res) u = some (sync_stat res.stat)
sync_filled (strings_body res) u = some (sync_strings res.children)
sync_filled (string_body res) (sync_string str str_len) = sync_string_filled res str str_len
sync_filled (acl_body res) u = some (sync_acl res.acl res.stat)
sync_filled no_body u = some u
sync_filled _ _ = none

module _ (env : Env) (malloc : ℕ → ℕ → Bool) where
  unfoldable pub sync_completed :
      CompletionType → ℕ → IArchive → SyncCompletion → Option SyncCompletion
  sync_completed completion_type rc ia sc =
      if rc == 0
      then (elim (deserialize_body env malloc completion_type ia) [
        | fail _ _ ↦ none
        | fault ↦ none
        | ok body _ ↦ elim (sync_filled body sc.u) [
          | none ↦ none
          | some u ↦ some (record { rc = rc; u = u })
        ]
      ])
      else some (record sc { rc = rc })
