-- ===== src/Replies/Deliver.antt =====
-- `process_completions`: from the queue of completions to the user's functions. A struct whose
-- deserialization fails is not set, and to go on with it, as the code does, is a fault.
use ruby_zookeeper.Prelude.{
  ok, fail, fault, Run, ◌>>=◌, return, ◌==◌, if◌then◌else◌, ℕ, Bool, Option, none, some, List, [],
  ◌∷◌, ◌++◌, map,
}
use ruby_zookeeper.Jute.Deserialize.{
  deserialize_reply_header, deserialize_set_data_response, deserialize_watcher_event,
  deserialize_create_response, deserialize_get_data_response, deserialize_get_children_response,
  deserialize_get_acl_response,
}
use ruby_zookeeper.Jute.Types.{ReplyHeader}
use ruby_zookeeper.Path.Chroot.{sub_string}
use ruby_zookeeper.RecordIo.Archive.{IArchive, create_buffer_iarchive}
use ruby_zookeeper.Replies.{
  watcher_event_xid, ping_xid, Body, no_body, data_body, stat_body, strings_body, string_body,
  acl_body, Event, completed, watched, Reply, response, notification, Handle,
}
use ruby_zookeeper.Session.{
  Env, CompletionType, completion_watch, completion_void, completion_stat, completion_data,
  completion_stringlist, completion_acllist, completion_string, Completion,
}
use ruby_zookeeper.Watchers.{HashTable, WatcherObject}
use ruby_zookeeper.Wire.{BufferList}

-- The path for the user, by `sub_string`; `none` is a fault.
unfoldable pub client_path : Option (List ℕ) → Option (List ℕ) → Option (Option (List ℕ))
client_path chroot (some path) = sub_string chroot path
client_path none none = some none
client_path (some root) none = none

-- `deliverWatchers` with `do_foreach_watcher`.
unfoldable pub deliver_watchers :
    Option (List ℕ) → ℕ → ℕ → Option (List ℕ) → List WatcherObject → Option (List Event)
deliver_watchers chroot type state path list = elim (client_path chroot path) [
  | none ↦ none
  | some path' ↦ some (map (λ wo. watched wo type state path') list)
]

abbrev pub reply_buffer : Reply → BufferList
reply_buffer (response c b) = b
reply_buffer (notification b list) = b

module _ (env : Env) (malloc : ℕ → ℕ → Bool) where
  unfoldable pub deserialize_body : CompletionType → Run IArchive Body
  deserialize_body completion_data =
      deserialize_get_data_response env.host malloc >>= λ res. return (data_body res)
  deserialize_body completion_stat =
      deserialize_set_data_response env.host malloc >>= λ res. return (stat_body res)
  deserialize_body completion_stringlist =
      deserialize_get_children_response env.host malloc >>= λ res. return (strings_body res)
  deserialize_body completion_string =
      deserialize_create_response env.host malloc >>= λ res. return (string_body res)
  deserialize_body completion_acllist =
      deserialize_get_acl_response env.host malloc >>= λ res. return (acl_body res)
  deserialize_body completion_void = return no_body
  deserialize_body completion_watch = return no_body

  -- The call for a response whose header has this xid. The body is only read when the return code is
  -- 0; the answer to a ping goes to nobody.
  unfoldable pub body_called : Completion → IArchive → Option (List Event)
  body_called c ia = elim (deserialize_body c.completion_type ia) [
    | ok body _ ↦ some (completed c.completion_type c.c 0 body c.data_pointer ∷ [])
    | fail _ _ ↦ none
    | fault ↦ none
  ]

  unfoldable pub call_completion : Completion → ReplyHeader → IArchive → Option (List Event)
  call_completion c hdr ia = elim c.completion_type [
    | completion_watch ↦ some []
    | completion_void ↦
        if hdr.xid == ping_xid
        then some []
        else some (completed completion_void c.c hdr.err no_body c.data_pointer ∷ [])
    | _ ↦
        if hdr.err == 0
        then body_called c ia
        else some (completed c.completion_type c.c hdr.err no_body c.data_pointer ∷ [])
  ]

  unfoldable pub notify : Option (List ℕ) → List WatcherObject → IArchive → Option (List Event)
  notify chroot list ia = elim (deserialize_watcher_event env.host malloc ia) [
    | ok evt _ ↦ deliver_watchers chroot evt.type evt.state evt.path list
    | fail _ _ ↦ none
    | fault ↦ none
  ]

  -- A response with the xid of notifications takes the function for a list of watchers; a
  -- notification with another xid is of no known type.
  unfoldable pub call_reply : Option (List ℕ) → Reply → ReplyHeader → IArchive → Option (List Event)
  call_reply chroot (response c b) hdr ia =
      if hdr.xid == watcher_event_xid then none else call_completion c hdr ia
  call_reply chroot (notification b list) hdr ia =
      if hdr.xid == watcher_event_xid then notify chroot list ia else some []

  -- One round of the loop; the archive ends where the buffer's length says.
  unfoldable pub process_reply : Option (List ℕ) → Reply → Option (List Event)
  process_reply chroot r = elim (reply_buffer r).buffer [
    | none ↦ none
    | some cells ↦
        elim (deserialize_reply_header env.host malloc
          (create_buffer_iarchive cells (reply_buffer r).len)) [
            | ok hdr ia ↦ call_reply chroot r hdr ia
            | fail _ _ ↦ none
            | fault ↦ none
          ]
  ]

  unfoldable pub process_replies : Option (List ℕ) → List Reply → Option (List Event)
  process_replies chroot [] = some []
  process_replies chroot (r ∷ rest) = elim (process_reply chroot r) [
    | none ↦ none
    | some calls ↦ elim (process_replies chroot rest) [
      | none ↦ none
      | some more ↦ some (calls ++ more)
    ]
  ]

  module _ (H : HashTable) where
    unfoldable pub process_completions : Handle H → Option (Handle H)
    process_completions h = elim (process_replies h.zh.chroot h.completions_to_process) [
      | none ↦ none
      | some calls ↦ some (record h { completions_to_process = []; events = h.events ++ calls })
    ]

    -- `if (process_async(zh->outstanding_sync)) process_completions(zh);` with st_adaptor.c
    unfoldable pub process_if_async : Handle H → Option (Handle H)
    process_if_async h = if h.zh.outstanding_sync == 0 then process_completions h else some h
