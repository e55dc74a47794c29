-- ===== src/Session/Requests.antt =====
-- The asynchronous requests of zookeeper.c. They differ in the operation, its message and its
-- completion, and share the rest, which stands in `submit`.
use ruby_zookeeper.Prelude.{
  Outcome, ok, fail, fault, Run, ◌>>◌, return, Void, ◌==◌, if◌then◌else◌, is_neg, ℕ, true, false,
  not, Option, none, some, List, [],
}
use ruby_zookeeper.Jute.Serialize.{
  serialize_request_header, serialize_get_data_request, serialize_set_data_request,
  serialize_create_request, serialize_delete_request, serialize_get_children_request,
  serialize_sync_request, serialize_get_acl_request, serialize_set_acl_request,
  serialize_exists_request,
}
use ruby_zookeeper.Jute.Types.{CString, Acl}
use ruby_zookeeper.Jute.Vector.{Vector}
use ruby_zookeeper.Path.{is_valid_path}
use ruby_zookeeper.Path.Chroot.{prepend_string}
use ruby_zookeeper.RecordIo.Archive.{OArchive, create_buffer_oarchive, get_buffer, get_buffer_len}
use ruby_zookeeper.Session.{
  zok, zmarshallingerror, zbadarguments, zinvalidstate, Env, CompletionType, completion_void,
  completion_stat, completion_data, completion_stringlist, completion_acllist, completion_string,
  exists_result_checker, data_result_checker, child_result_checker, WatcherRegistration, Zhandle,
  is_unrecoverable, get_xid, create_watcher_registration, add_completion, queue_buffer_bytes,
  flush_send_queue,
}

abbrev pub create_op : ℕ
create_op = 1

abbrev pub delete_op : ℕ
delete_op = 2

abbrev pub exists_op : ℕ
exists_op = 3

abbrev pub getdata_op : ℕ
getdata_op = 4

abbrev pub setdata_op : ℕ
setdata_op = 5

abbrev pub getacl_op : ℕ
getacl_op = 6

abbrev pub setacl_op : ℕ
setacl_op = 7

abbrev pub getchildren_op : ℕ
getchildren_op = 8

abbrev pub sync_op : ℕ
sync_op = 9

-- `prepend_string` of a path that may be null; the outer `none` is its use as a null pointer.
unfoldable pub server_path : Option (List ℕ) → CString → Option CString
server_path none path = some path
server_path (some chroot) none = none
server_path (some chroot) (some path) = some (some (prepend_string (some chroot) path))

-- What a request is, apart from its path.
pub record Request : Type 0 where
  pub op : ℕ
  pub flags : ℕ
  pub serialize : CString → Run OArchive Void
  pub completion_type : CompletionType
  pub completion : ℕ
  pub data_pointer : ℕ
  pub registration : List ℕ → Option WatcherRegistration

-- The best effort to send at once, and the return code.
unfoldable pub finish : Env → ℕ → Run Zhandle ℕ
finish env rc = do flush_send_queue env; return (if is_neg rc then zmarshallingerror else zok)

-- What is done with a message that is written: the completion waits for the reply before the buffer
-- is queued.
unfoldable pub enqueue : Env → Request → ℕ → CString → OArchive → Run Zhandle ℕ
enqueue env r xid path oa zh =
    let wo : Option WatcherRegistration = elim path [ none ↦ none | some p ↦ r.registration p ] in
    let added = add_completion env xid r.completion_type r.completion r.data_pointer wo zh in
    let queued = queue_buffer_bytes env (get_buffer oa) (get_buffer_len oa) added.1 in
    if is_neg added.0 then finish env added.0 added.1 else finish env queued.0 queued.1

-- The message, its header first.
unfoldable pub marshal : Env → Request → ℕ → CString → Outcome OArchive Void
marshal env r xid path =
    (serialize_request_header env.host env.realloc (record { xid = xid; type = r.op })
        >> r.serialize path)
      create_buffer_oarchive

unfoldable pub write_request : Env → Request → ℕ → CString → Run Zhandle ℕ
write_request env r xid path zh = elim (marshal env r xid path) [
  | ok _ oa ↦ enqueue env r xid path oa zh
  | fail rc oa ↦ finish env rc zh
  | fault ↦ fault
]

-- The xid is taken before the arguments are looked at. The handle is not null: its chroot is read
-- before the test for that.
unfoldable pub submit : Env → Request → CString → Run Zhandle ℕ
submit env r path zh =
    let taken = get_xid env zh.xid in
    let zh' : Zhandle = record zh { xid = taken.1 } in
    elim (server_path zh.chroot path) [
      | none ↦ fault
      | some sp ↦ elim (is_valid_path sp r.flags) [
        | none ↦ fault
        | some false ↦ ok zbadarguments zh'
        | some true ↦
            if not (is_unrecoverable zh' == 0)
            then ok zinvalidstate zh'
            else write_request env r taken.0 sp zh'
      ]
    ]

-- `watch ? zh->watcher : 0`
abbrev pub default_watcher : Zhandle → ℕ → ℕ
default_watcher zh watch = if watch == 0 then 0 else zh.watcher

-- `watcher != 0`
abbrev pub has_watcher : ℕ → ℕ
has_watcher watcher = if watcher == 0 then 0 else 1

-- No watcher comes with the request.
abbrev pub unwatched : List ℕ → Option WatcherRegistration
unwatched path = none

abbrev pub no_acl : Vector Acl
no_acl = record { count = 0; elements = [] }

module _ (env : Env) where
  unfoldable pub awget_request : ℕ → ℕ → ℕ → ℕ → Request
  awget_request watcher ctx dc data_pointer = record {
    op = getdata_op;
    flags = 0;
    serialize = λ path.
        serialize_get_data_request env.host env.realloc
          (record { path = path; watch = has_watcher watcher });
    completion_type = completion_data;
    completion = dc;
    data_pointer = data_pointer;
    registration = λ p. create_watcher_registration p data_result_checker watcher ctx;
  }

  unfoldable pub zoo_awget : CString → ℕ → ℕ → ℕ → ℕ → Run Zhandle ℕ
  zoo_awget path watcher ctx dc data_pointer =
      submit env (awget_request watcher ctx dc data_pointer) path

  unfoldable pub zoo_aget : CString → ℕ → ℕ → ℕ → Run Zhandle ℕ
  zoo_aget path watch dc data_pointer zh =
      zoo_awget path (default_watcher zh watch) zh.context dc data_pointer zh

  unfoldable pub aset_request : Option (List ℕ) → ℕ → ℕ → ℕ → ℕ → Request
  aset_request buff buflen version dc data_pointer = record {
    op = setdata_op;
    flags = 0;
    serialize = λ path. serialize_set_data_request env.host env.realloc (record {
      path = path;
      data_buffer = record { len = buflen; buff = buff };
      version = version;
    });
    completion_type = completion_stat;
    completion = dc;
    data_pointer = data_pointer;
    registration = unwatched;
  }

  unfoldable pub zoo_aset : CString → Option (List ℕ) → ℕ → ℕ → ℕ → ℕ → Run Zhandle ℕ
  zoo_aset path buff buflen version dc data_pointer =
      submit env (aset_request buff buflen version dc data_pointer) path

  unfoldable pub acreate_request : Option (List ℕ) → ℕ → Option (Vector Acl) → ℕ → ℕ → ℕ → Request
  acreate_request value valuelen acl_entries flags completion data_pointer = record {
    op = create_op;
    flags = flags;
    serialize = λ path. serialize_create_request env.host env.realloc (record {
      path = path;
      data_buffer = record { len = valuelen; buff = value };
      acl = elim acl_entries [ none ↦ no_acl | some v ↦ v ];
      flags = flags;
    });
    completion_type = completion_string;
    completion = completion;
    data_pointer = data_pointer;
    registration = unwatched;
  }

  unfoldable pub zoo_acreate :
      CString → Option (List ℕ) → ℕ → Option (Vector Acl) → ℕ → ℕ → ℕ → Run Zhandle ℕ
  zoo_acreate path value valuelen acl_entries flags completion data_pointer =
      submit env (acreate_request value valuelen acl_entries flags completion data_pointer) path

  unfoldable pub adelete_request : ℕ → ℕ → ℕ → Request
  adelete_request version completion data_pointer = record {
    op = delete_op;
    flags = 0;
    serialize = λ path.
        serialize_delete_request env.host env.realloc (record { path = path; version = version });
    completion_type = completion_void;
    completion = completion;
    data_pointer = data_pointer;
    registration = unwatched;
  }

  unfoldable pub zoo_adelete : CString → ℕ → ℕ → ℕ → Run Zhandle ℕ
  zoo_adelete path version completion data_pointer =
      submit env (adelete_request version completion data_pointer) path

  unfoldable pub awexists_request : ℕ → ℕ → ℕ → ℕ → Request
  awexists_request watcher ctx completion data_pointer = record {
    op = exists_op;
    flags = 0;
    serialize = λ path.
        serialize_exists_request env.host env.realloc
          (record { path = path; watch = has_watcher watcher });
    completion_type = completion_stat;
    completion = completion;
    data_pointer = data_pointer;
    registration = λ p. create_watcher_registration p exists_result_checker watcher ctx;
  }

  unfoldable pub zoo_awexists : CString → ℕ → ℕ → ℕ → ℕ → Run Zhandle ℕ
  zoo_awexists path watcher ctx completion data_pointer =
      submit env (awexists_request watcher ctx completion data_pointer) path

  unfoldable pub zoo_aexists : CString → ℕ → ℕ → ℕ → Run Zhandle ℕ
  zoo_aexists path watch sc data_pointer zh =
      zoo_awexists path (default_watcher zh watch) zh.context sc data_pointer zh

  unfoldable pub awget_children_request : ℕ → ℕ → ℕ → ℕ → Request
  awget_children_request watcher ctx dc data_pointer = record {
    op = getchildren_op;
    flags = 0;
    serialize = λ path.
        serialize_get_children_request env.host env.realloc
          (record { path = path; watch = has_watcher watcher });
    completion_type = completion_stringlist;
    completion = dc;
    data_pointer = data_pointer;
    registration = λ p. create_watcher_registration p child_result_checker watcher ctx;
  }

  unfoldable pub zoo_awget_children : CString → ℕ → ℕ → ℕ → ℕ → Run Zhandle ℕ
  zoo_awget_children path watcher ctx dc data_pointer =
      submit env (awget_children_request watcher ctx dc data_pointer) path

  unfoldable pub zoo_aget_children : CString → ℕ → ℕ → ℕ → Run Zhandle ℕ
  zoo_aget_children path watch dc data_pointer zh =
      zoo_awget_children path (default_watcher zh watch) zh.context dc data_pointer zh

  unfoldable pub async_request : ℕ → ℕ → Request
  async_request completion data_pointer = record {
    op = sync_op;
    flags = 0;
    serialize = λ path. serialize_sync_request env.host env.realloc (record { path = path });
    completion_type = completion_string;
    completion = completion;
    data_pointer = data_pointer;
    registration = unwatched;
  }

  unfoldable pub zoo_async : CString → ℕ → ℕ → Run Zhandle ℕ
  zoo_async path completion data_pointer = submit env (async_request completion data_pointer) path

  unfoldable pub aget_acl_request : ℕ → ℕ → Request
  aget_acl_request completion data_pointer = record {
    op = getacl_op;
    flags = 0;
    serialize = λ path. serialize_get_acl_request env.host env.realloc (record { path = path });
    completion_type = completion_acllist;
    completion = completion;
    data_pointer = data_pointer;
    registration = unwatched;
  }

  unfoldable pub zoo_aget_acl : CString → ℕ → ℕ → Run Zhandle ℕ
  zoo_aget_acl path completion data_pointer =
      submit env (aget_acl_request completion data_pointer) path

  unfoldable pub aset_acl_request : ℕ → Vector Acl → ℕ → ℕ → Request
  aset_acl_request version acl completion data_pointer = record {
    op = setacl_op;
    flags = 0;
    serialize = λ path.
        serialize_set_acl_request env.host env.realloc
          (record { path = path; acl = acl; version = version });
    completion_type = completion_void;
    completion = completion;
    data_pointer = data_pointer;
    registration = unwatched;
  }

  unfoldable pub zoo_aset_acl : CString → ℕ → Vector Acl → ℕ → ℕ → Run Zhandle ℕ
  zoo_aset_acl path version acl completion data_pointer =
      submit env (aset_acl_request version acl completion data_pointer) path
