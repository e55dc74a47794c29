-- ===== src/Auth/Completions.antt =====
-- Which functions are called when the server answers to authentication data.
use ruby_zookeeper.Prelude.{
  All, All-append, ◌==◌, if◌then◌else◌, Bool-cases, ℕ, ◌≡◌, refl, sym, ap, ◌∙◌, ◌⊎◌, inl, inr,
  false, List, [], ◌∷◌, ◌++◌, map,
}
use ruby_zookeeper.Auth.{
  AuthInfo, AuthCompletion, AuthCompletionList, AuthHandle, auth_failed_state, add_auth_completion,
  get_auth_completions, mark_active_auth, no_completions, Call, call_next, call_completions,
  auth_completion_func,
}
use mathlib.Core.List.{append_assoc, append-nil}

-- The call for an element, if it waits.
abbrev pub waiting : ℕ → List AuthInfo → List Call
waiting rc [] = []
waiting rc (element ∷ rest) =
    let more = waiting rc rest in
    if element.completion == 0 then more else (element.completion, rc, element.data_pointer) ∷ more

abbrev pub clear : AuthInfo → AuthInfo
clear element = record element { completion = 0 }

abbrev pub activate : AuthInfo → AuthInfo
activate element = record element { state = 1 }

-- All of the list are functions.
abbrev AllSet : List AuthCompletion → Type 0
AllSet cs = All (λ c. (c.completion == 0) ≡ false) cs

-- A list that has been filled: the first element is set before there is a next one.
abbrev Filled : AuthCompletionList → Type 0
Filled l = AllSet (l.first ∷ l.next) ⊎ (l ≡ no_completions)

call_next-append :
    (rc : ℕ) (cs ds : List AuthCompletion)
    → AllSet cs
    → call_next rc (cs ++ ds) ≡ call_next rc cs ++ call_next rc ds
unfolding call_next
call_next-append rc [] ds h = refl
call_next-append rc (c ∷ cs) ds h =
    rw h.0 (ap (λ t. (c.completion, rc, c.auth_data) ∷ t) (call_next-append rc cs ds h.1))

added-calls :
    (rc c d : ℕ) (l : AuthCompletionList)
    → Filled l
    → (c == 0) ≡ false
    → (call_completions rc (add_auth_completion l c d) ≡ call_completions rc l ++ ((c, rc, d) ∷ []))
      × Filled (add_auth_completion l c d)
unfolding call_completions add_auth_completion call_next
added-calls rc c d l (inl are_set) h =
    let el : AuthCompletion = record { completion = c; auth_data = d } in
    (
      rw (are_set.0, call_next-append rc l.next (el ∷ []) are_set.1, h) (rw are_set.0 refl),
      rw are_set.0 (
          inl (
            are_set.0,
            All-append (λ c. (c.completion == 0) ≡ false) l.next (el ∷ []) are_set.1 (h, tt),
          )),
    )
added-calls rc c d l (inr e) h = rw e (rw h refl, inl (h, tt))

get_auth_completions-waiting :
    (rc : ℕ) (auths : List AuthInfo) (l : AuthCompletionList)
    → Filled l
    → (call_completions rc (get_auth_completions auths l).1
        ≡ call_completions rc l ++ waiting rc auths)
      × ((get_auth_completions auths l).0 ≡ map clear auths)
unfolding get_auth_completions
get_auth_completions-waiting rc [] l filled = (sym (append-nil (call_completions rc l)), refl)
get_auth_completions-waiting rc (a ∷ auths) l filled = elim (Bool-cases (a.completion == 0)) [
  | inl idle ↦
      let (calls, cleared) = get_auth_completions-waiting rc auths l filled in
      rw idle (calls, ap (λ t. clear a ∷ t) cleared)
  | inr busy ↦
      let (more, filled') = added-calls rc a.completion a.data_pointer l filled busy in
      let (calls, cleared) =
        get_auth_completions-waiting rc auths (add_auth_completion l a.completion a.data_pointer)
          filled' in
      rw busy (
        calls
            ∙ ap (λ t. t ++ waiting rc auths) more
            ∙ append_assoc (call_completions rc l) ((a.completion, rc, a.data_pointer) ∷ [])
                (waiting rc auths),
        ap (λ t. clear a ∷ t) cleared,
      )
]

mark_active_auth-append :
    (auths : List AuthInfo) (a : AuthInfo)
    → mark_active_auth (auths ++ (a ∷ [])) ≡ map activate auths ++ (a ∷ [])
unfolding mark_active_auth
mark_active_auth-append [] a = refl
mark_active_auth-append (b ∷ []) a = refl
mark_active_auth-append (b ∷ c ∷ auths) a =
    ap (λ t. activate b ∷ t) (mark_active_auth-append (c ∷ auths) a)

waiting-activate :
    (rc : ℕ) (auths : List AuthInfo) (a : AuthInfo)
    → waiting rc (map activate auths ++ (a ∷ [])) ≡ waiting rc (auths ++ (a ∷ []))
waiting-activate rc [] a = refl
waiting-activate rc (b ∷ auths) a = rw (waiting-activate rc auths a) refl

-- When the server answers with the code `rc` to a handle that has authentication data, the user's
-- functions that wait are called with `rc` and their data, once each, in the order in which the data was
-- added, and none waits any more. A code other than 0 makes the state of the handle AUTH_FAILED;
-- the code 0 keeps it and marks all data as active but the last that was added.
pub auth_completion_func_lem :
    (rc : ℕ) (zh : AuthHandle) (auths : List AuthInfo) (a : AuthInfo)
    → zh.auth_h ≡ auths ++ (a ∷ [])
    → ((auth_completion_func rc zh).1 ≡ waiting rc (auths ++ (a ∷ [])))
      × ((auth_completion_func rc zh).0.auth_h
          ≡ map clear (if rc == 0 then map activate auths ++ (a ∷ []) else auths ++ (a ∷ [])))
      × ((auth_completion_func rc zh).0.state ≡ (if rc == 0 then zh.state else auth_failed_state))
unfolding auth_completion_func call_completions call_next
auth_completion_func_lem rc zh auths a e = elim (Bool-cases (rc == 0)) [
  | inl fine ↦
      let (calls, cleared) =
        get_auth_completions-waiting rc (map activate auths ++ (a ∷ [])) no_completions
          (inr refl) in
      rw (fine, e, mark_active_auth-append auths a)
        (calls ∙ waiting-activate rc auths a, cleared, refl)
  | inr failed ↦
      let (calls, cleared) =
        get_auth_completions-waiting rc (auths ++ (a ∷ [])) no_completions (inr refl) in
      rw (failed, e) (calls, cleared, refl)
]
