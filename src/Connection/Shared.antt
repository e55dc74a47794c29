-- ===== src/Connection/Shared.antt =====
-- `zookeeper_process` as a step of the handles that calls and closes share.
use ruby_zookeeper.Prelude.{
  Outcome, ok, fail, fault, Void, ◌==◌, Bool-cases, some-injective, ℕ, ◌+◌, ◌≡◌, refl, sym, ap, ◌∙◌,
  inl, inr, Bool, false, not, some, List, arith,
}
use ruby_zookeeper.Connection.{Net}
use ruby_zookeeper.Connection.Check.{process_events}
use ruby_zookeeper.Connection.Close.{Round, api_prolog, finished, zookeeper_process}
use ruby_zookeeper.Connection.Closing.{Reached, enters, works, leaves, IsCounted, Reached-IsCounted}
use ruby_zookeeper.Connection.Kept.{SteadyRun}
use ruby_zookeeper.Connection.Rounds.{process_events-Steady}
use ruby_zookeeper.Replies.{zruntimeinconsistency, Handle}
use ruby_zookeeper.Session.{zok, zinvalidstate, Env, is_unrecoverable}
use ruby_zookeeper.Watchers.{HashTable}
use mathlib.Core.Path.{subst}

-- From a handle on which no call is under way and no close was asked for: a call of `zookeeper_process`
-- on any handle that comes from it and was not given back, if it does not fault, leads to one that comes
-- from it too, whatever the server sends and whichever code is returned. So behind every such call the
-- memory has been given back exactly when a close was asked for and no call is counted as under way.
pub zookeeper_process-Reached :
    (env : Env) (malloc : ℕ → ℕ → Bool) (rounds : List Round) (net : Net) {H : HashTable}
    (readable writable : Bool) (h0 h h' : Handle H) (rc : ℕ)
    → h0.freed ≡ false
    → h0.ref_counter ≡ 0
    → h0.close_requested ≡ 0
    → Reached env malloc rounds h0 h
    → h.freed ≡ false
    → zookeeper_process env malloc rounds net readable writable h ≡ some (rc, h')
    → Reached env malloc rounds h0 h' × IsCounted h'
unfolding zookeeper_process api_prolog
zookeeper_process-Reached env malloc rounds net {H = H} readable writable h0 h h' rc alive idle
      fresh reached in_use run =
    (there, Reached-IsCounted env malloc rounds h0 h' alive idle fresh there)
  where
    entered : Handle H
    entered = record h { ref_counter = h.ref_counter + 1 }

    worked :
        (o : Outcome (Handle H) Void)
        → SteadyRun entered o
        → finished env malloc rounds o ≡ some (rc, h')
        → Reached env malloc rounds h0 h'
    worked (ok _ h1) s e =
        leaves h1 h' zok rc (works entered h1 (enters h reached in_use) in_use s)
          (s.in_use ∙ in_use) (omega (arith, s.counter)) e
    worked (fail code h1) s e = elim (Bool-cases (code == zruntimeinconsistency)) [
      | inl out_of_order ↦
          let e' : some (code, h1) ≡ some (rc, h') = sym (rw out_of_order refl) ∙ e in
          subst (Reached env malloc rounds h0) (ap (λ t. t.1) (some-injective e'))
            (works entered h1 (enters h reached in_use) in_use s)
      | inr other ↦
          leaves h1 h' code rc (works entered h1 (enters h reached in_use) in_use s)
            (s.in_use ∙ in_use) (omega (arith, s.counter)) (sym (rw other refl) ∙ e)
    ]
    worked fault s e = absurd (cc e)

    there : Reached env malloc rounds h0 h'
    there = elim (Bool-cases (not (is_unrecoverable h.zh == 0))) [
      | inl dead ↦
          let e' : some (zinvalidstate, h) ≡ some (rc, h') = sym (rw dead refl) ∙ run in
          subst (Reached env malloc rounds h0) (ap (λ t. t.1) (some-injective e')) reached
      | inr usable ↦
          worked (process_events env malloc net readable writable entered)
            (process_events-Steady env malloc net readable writable entered)
            (sym (rw usable refl) ∙ run)
    ]
