-- ===== src/Auth.antt =====
-- zk/src/c/src/zookeeper.c: the authentication data of a handle and the functions that wait for the
-- answer to it. The lists are only walked and added to at their end, and are lists here; log lines
-- are left out.
pub mod Completions
pub mod Packets
use ruby_zookeeper.Prelude.{
  take, Outcome, ok, fail, fault, Run, ◌>>=◌, ◌>>◌, return, Void, ◌==◌, if◌then◌else◌, neg, is_neg,
  ℕ, ◌||◌, not, Option, none, some, List, [], ◌∷◌, ◌++◌,
}
use ruby_zookeeper.Jute.Serialize.{serialize_request_header, serialize_auth_packet}
use ruby_zookeeper.RecordIo.Archive.{
  Buffer, OArchive, create_buffer_oarchive, get_buffer, get_buffer_len,
}
use ruby_zookeeper.Session.{
  zok, zsystemerror, zmarshallingerror, zbadarguments, zinvalidstate, connected_state, Env,
  allocate_buffer,
}
use ruby_zookeeper.Wire.{BufferList}

-- `struct _auth_info` without its link.
pub record AuthInfo : Type 0 where
  pub state : ℕ
  pub scheme : List ℕ
  pub auth : Buffer
  pub completion : ℕ
  pub data_pointer : ℕ

pub record AuthCompletion : Type 0 where
  pub completion : ℕ
  pub auth_data : ℕ

-- `auth_completion_list_t`: an element on the stack, and those behind it.
pub record AuthCompletionList : Type 0 where
  pub first : AuthCompletion
  pub next : List AuthCompletion

-- What these functions use of the handle.
pub record AuthHandle : Type 0 where
  pub state : ℕ
  pub auth_h : List AuthInfo
  pub to_send : List BufferList

abbrev pub auth_failed_state : ℕ
auth_failed_state = neg 113

abbrev pub associating_state : ℕ
associating_state = 2

abbrev pub auth_xid : ℕ
auth_xid = neg 4

abbrev pub setauth_op : ℕ
setauth_op = 100

unfoldable pub get_last_auth : List AuthInfo → Option AuthInfo
get_last_auth [] = none
get_last_auth (element ∷ []) = some element
get_last_auth (element ∷ next ∷ rest) = get_last_auth (next ∷ rest)

unfoldable pub add_last_auth : List AuthInfo → AuthInfo → List AuthInfo
add_last_auth [] add_el = add_el ∷ []
add_last_auth (element ∷ rest) add_el = element ∷ add_last_auth rest add_el

unfoldable pub add_auth_completion : AuthCompletionList → ℕ → ℕ → AuthCompletionList
add_auth_completion a_list completion auth_data =
    let el : AuthCompletion = record { completion = completion; auth_data = auth_data } in
    if a_list.first.completion == 0
    then record { first = el; next = [] }
    else record { first = a_list.first; next = a_list.next ++ (el ∷ []) }

-- The list with the completions taken out, and `a_list` with them.
unfoldable pub get_auth_completions :
    List AuthInfo → AuthCompletionList → List AuthInfo × AuthCompletionList
get_auth_completions [] a_list = ([], a_list)
get_auth_completions (element ∷ rest) a_list =
    let a_list' =
      if element.completion == 0
      then a_list
      else add_auth_completion a_list element.completion element.data_pointer in
    let more = get_auth_completions rest a_list' in
    ((record element { completion = 0 }) ∷ more.0, more.1)

-- The loop `while (element->next != NULL)`.
unfoldable pub mark_active_auth : List AuthInfo → List AuthInfo
mark_active_auth [] = []
mark_active_auth (element ∷ []) = element ∷ []
mark_active_auth (element ∷ next ∷ rest) =
    (record element { state = 1 }) ∷ mark_active_auth (next ∷ rest)

-- `a_list.completion = NULL; a_list.next = NULL;`
abbrev pub no_completions : AuthCompletionList
no_completions = record { first = record { completion = 0; auth_data = 0 }; next = [] }

-- A call of a completion function, with the return code and its data.
abbrev pub Call : Type 0
Call = ℕ × ℕ × ℕ

unfoldable pub call_next : ℕ → List AuthCompletion → List Call
call_next rc [] = []
call_next rc (a ∷ rest) =
    let more = call_next rc rest in
    if a.completion == 0 then [] else (a.completion, rc, a.auth_data) ∷ more

-- The loop that calls the user's completion functions.
unfoldable pub call_completions : ℕ → AuthCompletionList → List Call
call_completions rc a_list = call_next rc (a_list.first ∷ a_list.next)

-- The handle afterwards, and the calls that are made.
unfoldable pub auth_completion_func : ℕ → AuthHandle → AuthHandle × List Call
auth_completion_func rc zh =
    let state = if not (rc == 0) then auth_failed_state else zh.state in
    let auth_h = if not (rc == 0) then zh.auth_h else mark_active_auth zh.auth_h in
    let taken = get_auth_completions auth_h no_completions in
    (record { state = state; auth_h = taken.0; to_send = zh.to_send }, call_completions rc taken.1)

module _ (env : Env) where
  -- The packet goes to the front of the queue.
  unfoldable pub queue_front_buffer_bytes : Option (List ℕ) → ℕ → Run (List BufferList) ℕ
  queue_front_buffer_bytes buff len queue = elim (allocate_buffer env buff len) [
    | none ↦ ok zsystemerror queue
    | some b ↦ ok zok (b ∷ queue)
  ]

  unfoldable pub marshal_auth : AuthInfo → Outcome OArchive Void
  marshal_auth auth =
      (serialize_request_header env.host env.realloc (record { xid = auth_xid; type = setauth_op })
          >> serialize_auth_packet env.host env.realloc
              (record { type = 0; scheme = some auth.scheme; auth = auth.auth }))
        create_buffer_oarchive

  unfoldable pub send_info_packet : AuthInfo → Run (List BufferList) ℕ
  send_info_packet auth queue = elim (marshal_auth auth) [
    | ok _ oa ↦ queue_front_buffer_bytes (get_buffer oa) (get_buffer_len oa) queue
    | fail rc oa ↦ ok rc queue
    | fault ↦ fault
  ]

  -- The loop `while (auth->next != NULL)`: the return code is the last one.
  unfoldable pub send_auths : ℕ → List AuthInfo → Run (List BufferList) ℕ
  send_auths rc [] = return rc
  send_auths rc (auth ∷ []) = return rc
  send_auths rc (auth ∷ next ∷ rest) = send_info_packet auth >>= λ rc'. send_auths rc' (next ∷ rest)

  unfoldable pub send_auth_info : List AuthInfo → Run (List BufferList) ℕ
  send_auth_info auth_h = do
    rc ← send_auths 0 auth_h
    return (if is_neg rc then zmarshallingerror else zok)

  unfoldable pub send_last_auth_info : List AuthInfo → Run (List BufferList) ℕ
  send_last_auth_info auth_h = elim (get_last_auth auth_h) [
    | none ↦ return zok
    | some auth ↦
        send_info_packet auth >>= λ rc. return (if is_neg rc then zmarshallingerror else zok)
  ]

  -- The certificate that is kept: nothing without one. The memory of the certificate has `certLen` bytes.
  unfoldable pub copy_cert : Option (List ℕ) → ℕ → Buffer
  copy_cert none cert_len = record { len = 0; buff = none }
  copy_cert (some cert) cert_len =
      if cert_len == 0
      then record { len = 0; buff = none }
      else record { len = cert_len; buff = some (take cert_len cert) }

  -- Memory for the certificate and for the entry is granted; `fresh_state` is what the new memory holds
  -- where the state of the entry stands, which is not set.
  unfoldable pub zoo_add_auth :
      ℕ → Option (List ℕ) → Option (List ℕ) → ℕ → ℕ → ℕ → AuthHandle → Outcome AuthHandle ℕ
  zoo_add_auth fresh_state none cert cert_len completion data_pointer zh = ok zbadarguments zh
  zoo_add_auth fresh_state (some scheme) cert cert_len completion data_pointer zh =
      let info : AuthInfo = record {
        state = fresh_state;
        scheme = scheme;
        auth = copy_cert cert cert_len;
        completion = completion;
        data_pointer = data_pointer;
      } in
      let auth_h = add_last_auth zh.auth_h info in
      if is_neg zh.state
      then ok zinvalidstate zh
      else if zh.state == connected_state || zh.state == associating_state
      then (elim (send_last_auth_info auth_h zh.to_send) [
        | ok rc queue ↦ ok rc (record { state = zh.state; auth_h = auth_h; to_send = queue })
        | fail rc queue ↦ fail rc (record { state = zh.state; auth_h = auth_h; to_send = queue })
        | fault ↦ fault
      ])
      else ok zok (record zh { auth_h = auth_h })
