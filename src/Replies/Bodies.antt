-- ===== src/Replies/Bodies.antt =====
-- The result that the body of a response carries, and the call that is made with it.
use ruby_zookeeper.Prelude.{
  ok, bind-ok, ◌==◌, if◌then◌else◌, ==_iff, Bool-cases, ℕ, ◌≡◌, refl, sym, ap, ◌∙◌, inl, inr, Bool,
  true, false, some, List, [], ◌∷◌, ◌++◌,
}
use ruby_zookeeper.Jute.Deserialize.{
  deserialize_set_data_response, deserialize_create_response, deserialize_get_data_response,
  deserialize_get_children_response, deserialize_get_acl_response,
}
use ruby_zookeeper.Jute.Format.{
  IsSetDataResponse, set_data_response_bytes, IsCreateResponse, create_response_bytes,
  IsGetDataResponse, get_data_response_bytes, IsGetChildrenResponse, get_children_response_bytes,
  IsGetAclResponse, get_acl_response_bytes,
}
use ruby_zookeeper.Jute.Readers.{
  read_set_data_response, read_create_response, read_get_data_response, read_get_children_response,
  read_get_acl_response,
}
use ruby_zookeeper.Jute.Types.{ReplyHeader}
use ruby_zookeeper.RecordIo.Archive.{IArchive}
use ruby_zookeeper.RecordIo.Read.{Left}
use ruby_zookeeper.Replies.{
  ping_xid, Body, no_body, data_body, stat_body, strings_body, string_body, acl_body, Event,
  completed,
}
use ruby_zookeeper.Replies.Deliver.{deserialize_body, body_called, call_completion}
use ruby_zookeeper.Session.{
  Env, CompletionType, completion_watch, completion_void, completion_stat, completion_data,
  completion_stringlist, completion_acllist, completion_string, Completion,
}
use mathlib.Core.Path.{subst}

-- The bytes of a result behind the header of its response.
abbrev pub body_bytes : Body → List ℕ
body_bytes no_body = []
body_bytes (data_body res) = get_data_response_bytes res
body_bytes (stat_body res) = set_data_response_bytes res
body_bytes (strings_body res) = get_children_response_bytes res
body_bytes (string_body res) = create_response_bytes res
body_bytes (acl_body res) = get_acl_response_bytes res

-- A result of a type that a completion waits for.
abbrev pub IsBody : CompletionType → Body → Type 0
IsBody completion_data (data_body res) = IsGetDataResponse res
IsBody completion_stat (stat_body res) = IsSetDataResponse res
IsBody completion_stringlist (strings_body res) = IsGetChildrenResponse res
IsBody completion_string (string_body res) = IsCreateResponse res
IsBody completion_acllist (acl_body res) = IsGetAclResponse res
IsBody completion_void no_body = Unit {0}
IsBody _ _ = ⊥

-- The call for an answer: the return code of its header, and the result when that is 0.
abbrev pub call_for : (c : Completion) → ReplyHeader → Body → Event
call_for c header body =
    completed c.completion_type c.c header.err (if header.err == 0 then body else no_body)
      c.data_pointer

module _ (env : Env) (malloc : ℕ → ℕ → Bool) (granted : (off n : ℕ) → malloc off n ≡ true) where
  -- A body is read as the result that its bytes are of.
  body-read :
      (t : CompletionType) (body : Body) (ia : IArchive)
      → IsBody t body
      → Left [] ia (body_bytes body ++ [])
      → (ia' : IArchive) × (deserialize_body env malloc t ia ≡ ok body ia')
  unfolding deserialize_body
  body-read completion_data (data_body res) ia is left =
      let (ia', run, more) =
        (read_get_data_response malloc granted env.host res is).run [] ia [] left in
      (ia', bind-ok (deserialize_get_data_response env.host malloc) _ run)
  body-read completion_stat (stat_body res) ia is left =
      let (ia', run, more) =
        (read_set_data_response malloc granted env.host res is).run [] ia [] left in
      (ia', bind-ok (deserialize_set_data_response env.host malloc) _ run)
  body-read completion_stringlist (strings_body res) ia is left =
      let (ia', run, more) =
        (read_get_children_response malloc granted env.host res is).run [] ia [] left in
      (ia', bind-ok (deserialize_get_children_response env.host malloc) _ run)
  body-read completion_string (string_body res) ia is left =
      let (ia', run, more) =
        (read_create_response malloc granted env.host res is).run [] ia [] left in
      (ia', bind-ok (deserialize_create_response env.host malloc) _ run)
  body-read completion_acllist (acl_body res) ia is left =
      let (ia', run, more) =
        (read_get_acl_response malloc granted env.host res is).run [] ia [] left in
      (ia', bind-ok (deserialize_get_acl_response env.host malloc) _ run)
  body-read completion_void no_body ia is left = (ia, refl)
  body-read completion_data no_body ia is left = absurd is
  body-read completion_data (stat_body res) ia is left = absurd is
  body-read completion_data (strings_body res) ia is left = absurd is
  body-read completion_data (string_body res) ia is left = absurd is
  body-read completion_data (acl_body res) ia is left = absurd is
  body-read completion_stat no_body ia is left = absurd is
  body-read completion_stat (data_body res) ia is left = absurd is
  body-read completion_stat (strings_body res) ia is left = absurd is
  body-read completion_stat (string_body res) ia is left = absurd is
  body-read completion_stat (acl_body res) ia is left = absurd is
  body-read completion_stringlist no_body ia is left = absurd is
  body-read completion_stringlist (data_body res) ia is left = absurd is
  body-read completion_stringlist (stat_body res) ia is left = absurd is
  body-read completion_stringlist (string_body res) ia is left = absurd is
  body-read completion_stringlist (acl_body res) ia is left = absurd is
  body-read completion_string no_body ia is left = absurd is
  body-read completion_string (data_body res) ia is left = absurd is
  body-read completion_string (stat_body res) ia is left = absurd is
  body-read completion_string (strings_body res) ia is left = absurd is
  body-read completion_string (acl_body res) ia is left = absurd is
  body-read completion_acllist no_body ia is left = absurd is
  body-read completion_acllist (data_body res) ia is left = absurd is
  body-read completion_acllist (stat_body res) ia is left = absurd is
  body-read completion_acllist (strings_body res) ia is left = absurd is
  body-read completion_acllist (string_body res) ia is left = absurd is
  body-read completion_void (data_body res) ia is left = absurd is
  body-read completion_void (stat_body res) ia is left = absurd is
  body-read completion_void (strings_body res) ia is left = absurd is
  body-read completion_void (string_body res) ia is left = absurd is
  body-read completion_void (acl_body res) ia is left = absurd is
  body-read completion_watch no_body ia is left = absurd is
  body-read completion_watch (data_body res) ia is left = absurd is
  body-read completion_watch (stat_body res) ia is left = absurd is
  body-read completion_watch (strings_body res) ia is left = absurd is
  body-read completion_watch (string_body res) ia is left = absurd is
  body-read completion_watch (acl_body res) ia is left = absurd is

  -- The call with a result of a type that is not void.
  value_called :
      (c : Completion) (hdr : ReplyHeader) (body : Body) (ia : IArchive)
      → IsBody c.completion_type body
      → ((hdr.err == 0) ≡ true → Left [] ia (body_bytes body ++ []))
      → (if hdr.err == 0
          then body_called env malloc c ia
          else some (completed c.completion_type c.c hdr.err no_body c.data_pointer ∷ []))
        ≡ some (call_for c hdr body ∷ [])
  unfolding body_called
  value_called c hdr body ia is left = elim (Bool-cases (hdr.err == 0)) [
    | inl fine ↦
        let (ia', run) = body-read c.completion_type body ia is (left fine) in
        let zero_err : 0 ≡ hdr.err = sym ((==_iff hdr.err 0).0 fine) in
        rw (fine) (
          rw (run, body_called)
            (ap (λ rc. some (completed c.completion_type c.c rc body c.data_pointer ∷ []))
              zero_err))
    | inr wrong ↦ rw wrong refl
  ]

  typed_called :
      (t : CompletionType) (c : Completion) (hdr : ReplyHeader) (body : Body) (ia : IArchive)
      → c.completion_type ≡ t
      → IsBody t body
      → ((hdr.err == 0) ≡ true → Left [] ia (body_bytes body ++ []))
      → (if hdr.err == 0
          then body_called env malloc c ia
          else some (completed c.completion_type c.c hdr.err no_body c.data_pointer ∷ []))
        ≡ some
            (completed t c.c hdr.err (if hdr.err == 0 then body else no_body) c.data_pointer ∷ [])
  typed_called t c hdr body ia e is left =
      let result = if hdr.err == 0 then body else no_body in
      value_called c hdr body ia (subst (λ t'. IsBody t' body) (sym e) is) left
      ∙ ap (λ t'. some (completed t' c.c hdr.err result c.data_pointer ∷ [])) e

  void_body : (body : Body) → IsBody completion_void body → body ≡ no_body
  void_body no_body is = refl
  void_body (data_body res) is = absurd is
  void_body (stat_body res) is = absurd is
  void_body (strings_body res) is = absurd is
  void_body (string_body res) is = absurd is
  void_body (acl_body res) is = absurd is

  void_called :
      (c : Completion) (hdr : ReplyHeader) (body : Body)
      → body ≡ no_body
      → completed completion_void c.c hdr.err no_body c.data_pointer
        ≡ completed completion_void c.c hdr.err
            (if hdr.err == 0 then body else no_body)
            c.data_pointer
  void_called c hdr body nothing = elim (Bool-cases (hdr.err == 0)) [
    | inl fine ↦
        rw fine (ap (λ t. completed completion_void c.c hdr.err t c.data_pointer) (sym nothing))
    | inr wrong ↦ rw wrong refl
  ]

  pub call_completion-result :
      (t : CompletionType) (c : Completion) (hdr : ReplyHeader) (body : Body) (ia : IArchive)
      → c.completion_type ≡ t
      → IsBody t body
      → (hdr.xid == ping_xid) ≡ false
      → ((hdr.err == 0) ≡ true → Left [] ia (body_bytes body ++ []))
      → call_completion env malloc c hdr ia ≡ some (call_for c hdr body ∷ [])
  unfolding call_completion
  call_completion-result completion_watch c hdr no_body ia e is no_ping left = absurd is
  call_completion-result completion_watch c hdr (data_body res) ia e is no_ping left = absurd is
  call_completion-result completion_watch c hdr (stat_body res) ia e is no_ping left = absurd is
  call_completion-result completion_watch c hdr (strings_body res) ia e is no_ping left = absurd is
  call_completion-result completion_watch c hdr (string_body res) ia e is no_ping left = absurd is
  call_completion-result completion_watch c hdr (acl_body res) ia e is no_ping left = absurd is
  call_completion-result completion_void c hdr body ia e is no_ping left =
      rw (e, call_completion)
        (rw no_ping (ap (λ event. some (event ∷ [])) (void_called c hdr body (void_body body is))))
  call_completion-result completion_stat c hdr body ia e is no_ping left =
      rw (e, call_completion) (typed_called completion_stat c hdr body ia e is left)
  call_completion-result completion_data c hdr body ia e is no_ping left =
      rw (e, call_completion) (typed_called completion_data c hdr body ia e is left)
  call_completion-result completion_stringlist c hdr body ia e is no_ping left =
      rw (e, call_completion) (typed_called completion_stringlist c hdr body ia e is left)
  call_completion-result completion_acllist c hdr body ia e is no_ping left =
      rw (e, call_completion) (typed_called completion_acllist c hdr body ia e is left)
  call_completion-result completion_string c hdr body ia e is no_ping left =
      rw (e, call_completion) (typed_called completion_string c hdr body ia e is left)
