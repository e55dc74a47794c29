-- ===== src/Examples/Auths.antt =====
-- Authentication data at concrete values.
use ruby_zookeeper.Prelude.{
  ◌==◌, if◌then◌else◌, ℕ, ◌≡◌, refl, true, some, [], ◌∷◌, ◌++◌, map, arith,
}
use ruby_zookeeper.Auth.{
  AuthInfo, AuthHandle, auth_failed_state, auth_completion_func, send_auth_info,
}
use ruby_zookeeper.Auth.Completions.{waiting, clear, activate, auth_completion_func_lem}
use ruby_zookeeper.Auth.Packets.{IsAuthInfo, in_front, Queues, send_auth_info-Queues, new_auth}
use ruby_zookeeper.RecordIo.{big}
use ruby_zookeeper.Session.{zok, Env}
use ruby_zookeeper.Session.Stream.{pending}
use ruby_zookeeper.Session.Submit.{Grants}

abbrev granting : Env
granting = record {
  host = big;
  realloc = λ n. true;
  entry_granted = λ n. true;
  buffer_granted = λ n. true;
  time = 1000;
  now = 5;
  synchronous_marker = 99;
}

granting-Grants : Grants granting
granting-Grants = record { realloc_ok = λ n. refl; entry_ok = λ n. refl; buffer_ok = λ n. refl }

abbrev info : ℕ → AuthInfo
info completion = record {
  state = 0;
  scheme = 100 ∷ [];
  auth = record { len = 2; buff = some (1 ∷ 2 ∷ []) };
  completion = completion;
  data_pointer = 40;
}

abbrev handle : AuthHandle
handle = record { state = 3; auth_h = info 7 ∷ info 0 ∷ info 8 ∷ []; to_send = [] }

auth_completion_func_lem_example :
    ((auth_completion_func 0 handle).1 ≡ waiting 0 ((info 7 ∷ info 0 ∷ []) ++ (info 8 ∷ [])))
    × ((auth_completion_func 0 handle).0.auth_h
        ≡ map clear (
            if 0 == 0
            then map activate (info 7 ∷ info 0 ∷ []) ++ (info 8 ∷ [])
            else (info 7 ∷ info 0 ∷ []) ++ (info 8 ∷ [])))
    × ((auth_completion_func 0 handle).0.state
        ≡ (if 0 == 0 then handle.state else auth_failed_state))
auth_completion_func_lem_example =
    auth_completion_func_lem 0 handle (info 7 ∷ info 0 ∷ []) (info 8) refl

info-IsAuthInfo : IsAuthInfo (info 7)
info-IsAuthInfo = record {
  packet_ok = record {
    type_ok = omega arith;
    scheme_ok = omega arith;
    auth_ok = (some (1 ∷ 2 ∷ []), omega arith, refl);
  };
  short = omega arith;
}

send_auth_info-Queues_example :
    Queues
      (send_auth_info granting ((info 7 ∷ []) ++ (info 8 ∷ [])))
      zok
      (in_front (info 7 ∷ []) (pending []))
      []
send_auth_info-Queues_example =
    send_auth_info-Queues granting granting-Grants (info 7 ∷ []) (info 8) [] (info-IsAuthInfo, tt)
      tt

abbrev added : AuthInfo
added = new_auth granting granting-Grants 0 (100 ∷ []) (some (1 ∷ 2 ∷ [])) 2 7 40
