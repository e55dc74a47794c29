-- ===== src/Session/Called.antt =====
-- What a request leaves in the handle, said by the completion that its caller is to get.
use ruby_zookeeper.Prelude.{
  All, Outcome, ok, ◌==◌, if◌then◌else◌, ℕ, ◌+◌, ◌≡◌, Option, none, some, List, [], ◌∷◌, ◌++◌,
}
use ruby_zookeeper.Jute.Types.{CString}
use ruby_zookeeper.Session.{
  zok, Env, CompletionType, ResultChecker, WatcherRegistration, Completion, Zhandle, get_xid,
}
use ruby_zookeeper.Session.Requests.{Request}
use ruby_zookeeper.Session.Stream.{IsQueued}
use ruby_zookeeper.Session.Submit.{stream, framed, awaited, Sent}

-- A completion for the next xid.
abbrev pub waiting :
    Env → Zhandle → CompletionType → ℕ → ℕ → Option WatcherRegistration → Completion
waiting env zh completion_type c data_pointer watcher = record {
  xid = (get_xid env zh.xid).0;
  completion_type = completion_type;
  c = c;
  data_pointer = data_pointer;
  watcher = watcher;
}

-- The registration of a watcher that is not null.
abbrev pub registered : ResultChecker → List ℕ → ℕ → ℕ → Option WatcherRegistration
registered checker path watcher ctx =
    if watcher == 0
    then none
    else some (record { watcher = watcher; context = ctx; checker = checker; path = path })

-- The packet of `bs` stands behind all bytes of the stream, and `c` behind those that wait.
pub record Called (env : Env) (c : Completion) (bs : List ℕ) (zh : Zhandle) (o : Outcome Zhandle ℕ)
    : Type 0 where
  pub after : Zhandle
  pub run : o ≡ ok zok after
  pub queued : All IsQueued after.to_send
  pub grown : stream after ≡ stream zh ++ framed bs
  pub waits : after.sent_requests ≡ zh.sent_requests ++ (c ∷ [])
  pub sync :
      after.outstanding_sync
      ≡ (if c.c == env.synchronous_marker then zh.outstanding_sync + 1 else zh.outstanding_sync)
  pub same_state : after.state ≡ zh.state
  pub same_chroot : after.chroot ≡ zh.chroot

pub Sent-Called :
    {env : Env} {r : Request} {xid : ℕ} {path : CString} {bs : List ℕ} {zh : Zhandle}
    {o : Outcome Zhandle ℕ}
    → Sent env r xid path bs zh o
    → Called env (awaited r xid path) bs zh o
Sent-Called s = record {
  after = s.after;
  run = s.run;
  queued = s.queued;
  grown = s.grown;
  waits = s.waits;
  sync = s.sync;
  same_state = s.same_state;
  same_chroot = s.same_chroot;
}
