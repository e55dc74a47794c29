-- ===== src/Session/Calls.antt =====
-- The requests of zookeeper.c one by one: each sends the message of its operation.
use ruby_zookeeper.Prelude.{
  length, is_neg, ℕ, ◌+◌, ◌≤◌, ◌≡◌, true, false, Option, none, some, List, ◌++◌, arith,
}
use ruby_zookeeper.Jute.Format.{
  request_header_bytes, IsGetDataRequest, get_data_request_bytes, IsSetDataRequest,
  set_data_request_bytes, IsCreateRequest, create_request_bytes, IsDeleteRequest,
  delete_request_bytes, IsGetChildrenRequest, get_children_request_bytes, IsSetAclRequest,
  set_acl_request_bytes, IsExistsRequest, exists_request_bytes,
}
use ruby_zookeeper.Jute.Types.{CString, Acl, RequestHeader}
use ruby_zookeeper.Jute.Vector.{Vector}
use ruby_zookeeper.Jute.Writers.{
  write_get_data_request, write_set_data_request, write_create_request, write_delete_request,
  write_get_children_request, write_set_acl_request, write_exists_request,
}
use ruby_zookeeper.Path.{is_valid_path}
use ruby_zookeeper.RecordIo.Grow.{max_message}
use ruby_zookeeper.Session.{
  Env, completion_void, completion_stat, completion_data, completion_stringlist, completion_string,
  exists_result_checker, data_result_checker, child_result_checker, Zhandle, get_xid,
  create_watcher_registration,
}
use ruby_zookeeper.Session.Called.{waiting, registered, Called, Sent-Called}
use ruby_zookeeper.Session.Requests.{
  create_op, delete_op, exists_op, getdata_op, setdata_op, setacl_op, getchildren_op, server_path,
  has_watcher, awget_request, zoo_awget, aset_request, zoo_aset, acreate_request, zoo_acreate,
  adelete_request, zoo_adelete, awexists_request, zoo_awexists, awget_children_request,
  zoo_awget_children, aset_acl_request, zoo_aset_acl,
}
use ruby_zookeeper.Session.Submit.{Grants, IsHandle, submit-Sent}

-- The header of the next request.
abbrev pub next_header : Env → Zhandle → ℕ → RequestHeader
next_header env zh op = record { xid = (get_xid env zh.xid).0; type = op }

-- Memory is granted to a well-formed handle in a state that it can leave, and the path is `p` for the server.
module _ (env : Env) (zh : Zhandle) (path : CString) (p : List ℕ) (g : Grants env)
    (h : IsHandle env zh) (e : server_path zh.chroot path ≡ some (some p))
    (alive : is_neg zh.state ≡ false) where
  -- If memory is granted, on a well-formed handle in a state that it can leave: `zoo_acreate` with a path that is
  -- valid under the chroot, and arguments that fit the wire types of a CreateRequest of at most 2^28 bytes
  -- with its header, returns ZOK, puts exactly that message behind
  -- all others, and lets the caller's function and data wait as the last completion, with the next xid,
  -- the type of its operation and no watcher.
  pub zoo_acreate-Sent :
      (value : Option (List ℕ)) (valuelen : ℕ) (acls : Vector Acl)
      (flags completion data_pointer : ℕ)
      → is_valid_path (some p) flags ≡ some true
      → IsCreateRequest (record {
        path = some p;
        data_buffer = record { len = valuelen; buff = value };
        acl = acls;
        flags = flags;
      })
      → 8
          + length (
              create_request_bytes (record {
                path = some p;
                data_buffer = record { len = valuelen; buff = value };
                acl = acls;
                flags = flags;
              }))
        ≤ max_message
      → Called env
          (waiting env zh completion_string completion data_pointer none)
          (request_header_bytes (next_header env zh create_op)
            ++ create_request_bytes (record {
              path = some p;
              data_buffer = record { len = valuelen; buff = value };
              acl = acls;
              flags = flags;
            }))
          zh
          (zoo_acreate env path value valuelen (some acls) flags completion data_pointer zh)
  unfolding zoo_acreate acreate_request
  zoo_acreate-Sent value valuelen acls flags completion data_pointer valid is_req small =
      Sent-Called (
        submit-Sent env
          (acreate_request env value valuelen (some acls) flags completion data_pointer) path p
          (create_request_bytes (record {
            path = some p;
            data_buffer = record { len = valuelen; buff = value };
            acl = acls;
            flags = flags;
          }))
          zh g h (omega arith) e valid alive
          (write_create_request env.realloc g.realloc_ok env.host
            (record {
              path = some p;
              data_buffer = record { len = valuelen; buff = value };
              acl = acls;
              flags = flags;
            })
            is_req)
          small)

  -- If memory is granted, on a well-formed handle in a state that it can leave: `zoo_aset` with a path that is
  -- valid under the chroot, and arguments that fit the wire types of a SetDataRequest of at most 2^28 bytes
  -- with its header, returns ZOK, puts exactly that message behind
  -- all others, and lets the caller's function and data wait as the last completion, with the next xid,
  -- the type of its operation and no watcher.
  pub zoo_aset-Sent :
      (buff : Option (List ℕ)) (buflen version dc data_pointer : ℕ)
      → is_valid_path (some p) 0 ≡ some true
      → IsSetDataRequest (record {
        path = some p;
        data_buffer = record { len = buflen; buff = buff };
        version = version;
      })
      → 8
          + length (
              set_data_request_bytes (record {
                path = some p;
                data_buffer = record { len = buflen; buff = buff };
                version = version;
              }))
        ≤ max_message
      → Called env
          (waiting env zh completion_stat dc data_pointer none)
          (request_header_bytes (next_header env zh setdata_op)
            ++ set_data_request_bytes (record {
              path = some p;
              data_buffer = record { len = buflen; buff = buff };
              version = version;
            }))
          zh
          (zoo_aset env path buff buflen version dc data_pointer zh)
  unfolding zoo_aset aset_request
  zoo_aset-Sent buff buflen version dc data_pointer valid is_req small = Sent-Called (
      submit-Sent env (aset_request env buff buflen version dc data_pointer) path p
        (set_data_request_bytes (record {
          path = some p;
          data_buffer = record { len = buflen; buff = buff };
          version = version;
        }))
        zh g h (omega arith) e valid alive
        (write_set_data_request env.realloc g.realloc_ok env.host
          (record {
            path = some p;
            data_buffer = record { len = buflen; buff = buff };
            version = version;
          })
          is_req)
        small)

  -- If memory is granted, on a well-formed handle in a state that it can leave: `zoo_adelete` with a path that is
  -- valid under the chroot, and arguments that fit the wire types of a DeleteRequest of at most 2^28 bytes
  -- with its header, returns ZOK, puts exactly that message behind
  -- all others, and lets the caller's function and data wait as the last completion, with the next xid,
  -- the type of its operation and no watcher.
  pub zoo_adelete-Sent :
      (version completion data_pointer : ℕ)
      → is_valid_path (some p) 0 ≡ some true
      → IsDeleteRequest (record { path = some p; version = version })
      → 8 + length (delete_request_bytes (record { path = some p; version = version }))
        ≤ max_message
      → Called env
          (waiting env zh completion_void completion data_pointer none)
          (request_header_bytes (next_header env zh delete_op)
            ++ delete_request_bytes (record { path = some p; version = version }))
          zh
          (zoo_adelete env path version completion data_pointer zh)
  unfolding zoo_adelete adelete_request
  zoo_adelete-Sent version completion data_pointer valid is_req small = Sent-Called (
      submit-Sent env (adelete_request env version completion data_pointer) path p
        (delete_request_bytes (record { path = some p; version = version })) zh g h (omega arith) e
        valid alive
        (write_delete_request env.realloc g.realloc_ok env.host
          (record { path = some p; version = version }) is_req)
        small)

  -- If memory is granted, on a well-formed handle in a state that it can leave: `zoo_awget` with a path that is
  -- valid under the chroot, and arguments that fit the wire types of a GetDataRequest of at most 2^28 bytes
  -- with its header, returns ZOK, puts exactly that message behind
  -- all others, and lets the caller's function and data wait as the last completion, with the next xid and
  -- a registration of the watcher and its context for the path unless the watcher is null.
  pub zoo_awget-Sent :
      (watcher ctx dc data_pointer : ℕ)
      → is_valid_path (some p) 0 ≡ some true
      → IsGetDataRequest (record { path = some p; watch = has_watcher watcher })
      → 8 + length (get_data_request_bytes (record { path = some p; watch = has_watcher watcher }))
        ≤ max_message
      → Called env
          (waiting env zh completion_data dc data_pointer
            (registered data_result_checker p watcher ctx))
          (request_header_bytes (next_header env zh getdata_op)
            ++ get_data_request_bytes (record { path = some p; watch = has_watcher watcher }))
          zh
          (zoo_awget env path watcher ctx dc data_pointer zh)
  unfolding zoo_awget awget_request create_watcher_registration
  zoo_awget-Sent watcher ctx dc data_pointer valid is_req small = Sent-Called (
      submit-Sent env (awget_request env watcher ctx dc data_pointer) path p
        (get_data_request_bytes (record { path = some p; watch = has_watcher watcher })) zh g h
        (omega arith) e valid alive
        (write_get_data_request env.realloc g.realloc_ok env.host
          (record { path = some p; watch = has_watcher watcher }) is_req)
        small)

  -- If memory is granted, on a well-formed handle in a state that it can leave: `zoo_awexists` with a path that is
  -- valid under the chroot, and arguments that fit the wire types of a ExistsRequest of at most 2^28 bytes
  -- with its header, returns ZOK, puts exactly that message behind
  -- all others, and lets the caller's function and data wait as the last completion, with the next xid and
  -- a registration of the watcher and its context for the path unless the watcher is null.
  pub zoo_awexists-Sent :
      (watcher ctx completion data_pointer : ℕ)
      → is_valid_path (some p) 0 ≡ some true
      → IsExistsRequest (record { path = some p; watch = has_watcher watcher })
      → 8 + length (exists_request_bytes (record { path = some p; watch = has_watcher watcher }))
        ≤ max_message
      → Called env
          (waiting env zh completion_stat completion data_pointer
            (registered exists_result_checker p watcher ctx))
          (request_header_bytes (next_header env zh exists_op)
            ++ exists_request_bytes (record { path = some p; watch = has_watcher watcher }))
          zh
          (zoo_awexists env path watcher ctx completion data_pointer zh)
  unfolding zoo_awexists awexists_request create_watcher_registration
  zoo_awexists-Sent watcher ctx completion data_pointer valid is_req small = Sent-Called (
      submit-Sent env (awexists_request env watcher ctx completion data_pointer) path p
        (exists_request_bytes (record { path = some p; watch = has_watcher watcher })) zh g h
        (omega arith) e valid alive
        (write_exists_request env.realloc g.realloc_ok env.host
          (record { path = some p; watch = has_watcher watcher }) is_req)
        small)

  -- If memory is granted, on a well-formed handle in a state that it can leave: `zoo_awget_children` with a path that is
  -- valid under the chroot, and arguments that fit the wire types of a GetChildrenRequest of at most 2^28 bytes
  -- with its header, returns ZOK, puts exactly that message behind
  -- all others, and lets the caller's function and data wait as the last completion, with the next xid and
  -- a registration of the watcher and its context for the path unless the watcher is null.
  pub zoo_awget_children-Sent :
      (watcher ctx dc data_pointer : ℕ)
      → is_valid_path (some p) 0 ≡ some true
      → IsGetChildrenRequest (record { path = some p; watch = has_watcher watcher })
      → 8
          + length
              (get_children_request_bytes (record { path = some p; watch = has_watcher watcher }))
        ≤ max_message
      → Called env
          (waiting env zh completion_stringlist dc data_pointer
            (registered child_result_checker p watcher ctx))
          (request_header_bytes (next_header env zh getchildren_op)
            ++ get_children_request_bytes (record { path = some p; watch = has_watcher watcher }))
          zh
          (zoo_awget_children env path watcher ctx dc data_pointer zh)
  unfolding zoo_awget_children awget_children_request create_watcher_registration
  zoo_awget_children-Sent watcher ctx dc data_pointer valid is_req small = Sent-Called (
      submit-Sent env (awget_children_request env watcher ctx dc data_pointer) path p
        (get_children_request_bytes (record { path = some p; watch = has_watcher watcher })) zh g h
        (omega arith) e valid alive
        (write_get_children_request env.realloc g.realloc_ok env.host
          (record { path = some p; watch = has_watcher watcher }) is_req)
        small)

  -- If memory is granted, on a well-formed handle in a state that it can leave: `zoo_aset_acl` with a path that is
  -- valid under the chroot, and arguments that fit the wire types of a SetAclRequest of at most 2^28 bytes
  -- with its header, returns ZOK, puts exactly that message behind
  -- all others, and lets the caller's function and data wait as the last completion, with the next xid,
  -- the type of its operation and no watcher.
  pub zoo_aset_acl-Sent :
      (version : ℕ) (acls : Vector Acl) (completion data_pointer : ℕ)
      → is_valid_path (some p) 0 ≡ some true
      → IsSetAclRequest (record { path = some p; acl = acls; version = version })
      → 8 + length (set_acl_request_bytes (record { path = some p; acl = acls; version = version }))
        ≤ max_message
      → Called env
          (waiting env zh completion_void completion data_pointer none)
          (request_header_bytes (next_header env zh setacl_op)
            ++ set_acl_request_bytes (record { path = some p; acl = acls; version = version }))
          zh
          (zoo_aset_acl env path version acls completion data_pointer zh)
  unfolding zoo_aset_acl aset_acl_request
  zoo_aset_acl-Sent version acls completion data_pointer valid is_req small = Sent-Called (
      submit-Sent env (aset_acl_request env version acls completion data_pointer) path p
        (set_acl_request_bytes (record { path = some p; acl = acls; version = version })) zh g h
        (omega arith) e valid alive
        (write_set_acl_request env.realloc g.realloc_ok env.host
          (record { path = some p; acl = acls; version = version }) is_req)
        small)
