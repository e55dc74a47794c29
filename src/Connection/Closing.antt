-- ===== src/Connection/Closing.antt =====
-- Calls of the API and `zookeeper_close` in any order: a step relation on handles.
use ruby_zookeeper.Prelude.{
  ◌==◌, if◌then◌else◌, ==_iff, Bool-cases, Option-cases, some-injective, ℕ, ◌-◌, ◌<◌, ◌≡◌, refl,
  sym, ap, ◌∙◌, inl, inr, Bool, true, false, ◌&&◌, not, Option, none, some, List, arith,
}
use ruby_zookeeper.Connection.Close.{
  Round, destroyed_with, close_session, zookeeper_close, api_prolog, api_epilog,
}
use ruby_zookeeper.Connection.Counted.{
  Steady, GivenBack, destroyed_with-GivenBack, close_session-GivenBack,
}
use ruby_zookeeper.Replies.{Handle}
use ruby_zookeeper.Session.{zok, connected_state, Env}
use ruby_zookeeper.Watchers.{HashTable}
use mathlib.Core.Path.{subst}

module _ (env : Env) (malloc : ℕ → ℕ → Bool) (rounds : List Round) {H : HashTable} where
  -- The handles that come from `h0`: a call of the API begins or ends, its work leaves the counts
  -- alone, or the handle is closed. Nothing is done with a handle that was given back.
  pub data Reached (h0 : Handle H) : Handle H → Type 0 where
    start : Reached h0 h0
    enters :
        (h : Handle H)
        → Reached h0 h
        → h.freed ≡ false
        → Reached h0 (api_prolog env malloc rounds h)
    works : (h h' : Handle H) → Reached h0 h → h.freed ≡ false → Steady h h' → Reached h0 h'
    leaves :
        (h h' : Handle H) (rc rc' : ℕ)
        → Reached h0 h
        → h.freed ≡ false
        → 0 < h.ref_counter
        → api_epilog env malloc rounds rc h ≡ some (rc', h')
        → Reached h0 h'
    closes :
        (h h' : Handle H) (rc : ℕ)
        → Reached h0 h
        → h.freed ≡ false
        → zookeeper_close env malloc rounds h ≡ some (rc, h')
        → Reached h0 h'

-- Given back exactly when a close was asked for and no call is under way.
pub record IsCounted {H : HashTable} (h : Handle H) : Type 0 where
  pub gone : h.freed ≡ true → ((h.close_requested == 0) ≡ false) × (h.ref_counter ≡ 0)
  pub there : h.freed ≡ false → (h.close_requested == 0) ≡ false → 0 < h.ref_counter

-- The handle after `zookeeper_close`.
record Closed {H : HashTable} (h h' : Handle H) : Type 0 where
  counter : h'.ref_counter ≡ h.ref_counter
  requested : (h'.close_requested == 0) ≡ false
  freed : h'.freed ≡ (if h.ref_counter == 0 then true else h.freed)

abbrev ClosedAfter : {H : HashTable} → Handle H → Option (ℕ × Handle H) → Type 0
ClosedAfter h none = Unit {0}
ClosedAfter h (some (rc, h')) = Closed h h'

module _ (env : Env) (malloc : ℕ → ℕ → Bool) (rounds : List Round) {H : HashTable} where
  zookeeper_close-Closed : (h : Handle H) → ClosedAfter h (zookeeper_close env malloc rounds h)
  unfolding zookeeper_close
  zookeeper_close-Closed h =
      let asked = record h { close_requested = 1 } in
      elim (Bool-cases (h.ref_counter == 0)) [
        | inr busy ↦ rw busy (record { counter = refl; requested = refl; freed = rw busy refl })
        | inl idle ↦ elim (Bool-cases (h.zh.state == connected_state)) [
          | inl joined ↦
              rw (idle, joined)
                (back (close_session env malloc rounds asked) idle
                  (close_session-GivenBack env malloc rounds asked))
          | inr apart ↦
              rw (idle, apart)
                (back (destroyed_with env malloc rounds zok asked) idle
                  (destroyed_with-GivenBack env malloc rounds zok asked))
        ]
      ]
    where
      back :
          (r : Option (ℕ × Handle H))
          → (h.ref_counter == 0) ≡ true
          → GivenBack (record h { close_requested = 1 }) r
          → ClosedAfter h r
      back none idle g = tt
      back (some (rc, h')) idle g = record {
        counter = g.0.counter;
        requested = rw (g.0.requested) refl;
        freed = rw idle g.1;
      }

  idle-IsCounted : (h h' : Handle H) → Closed h h' → (h.ref_counter == 0) ≡ true → IsCounted h'
  idle-IsCounted h h' c idle =
      let freed : h'.freed ≡ true = c.freed ∙ rw idle refl in
      record {
        gone = λ e. (c.requested, c.counter ∙ (==_iff h.ref_counter 0).0 idle);
        there = λ e e'. absurd (cc (sym e ∙ freed));
      }

  busy-IsCounted :
      (h h' : Handle H)
      → Closed h h'
      → h.freed ≡ false
      → (h.ref_counter == 0) ≡ false
      → IsCounted h'
  busy-IsCounted h h' c alive busy =
      let kept : h'.freed ≡ false = c.freed ∙ rw busy alive in
      record { gone = λ e. absurd (cc (sym e ∙ kept)); there = λ e e'. ground (arith, c.counter) }

  leaves-IsCounted :
      (rc rc' : ℕ) (h h' : Handle H)
      → h.freed ≡ false
      → 0 < h.ref_counter
      → api_epilog env malloc rounds rc h ≡ some (rc', h')
      → IsCounted h'
  unfolding api_epilog
  leaves-IsCounted rc rc' h h' alive busy e =
      let left = record h { ref_counter = h.ref_counter - 1 } in
      elim (Bool-cases (left.ref_counter == 0 && not (left.close_requested == 0))) [
        | inl last ↦ elim (Option-cases (zookeeper_close env malloc rounds left)) [
          | inl nothing ↦
              let e' : none ≡ some (rc', h') = sym (rw last (rw nothing refl)) ∙ e in absurd (cc e')
          | inr (r, closed) ↦
              let e' : some (rc, r.1) ≡ some (rc', h') = sym (rw last (rw closed refl)) ∙ e in
              let same : r.1 ≡ h' = ap (λ t. t.1) (some-injective e') in
              let c : Closed left r.1 = rw closed at (zookeeper_close-Closed left) in
              subst IsCounted same (idle-IsCounted left r.1 c (ground (arith, last)))
        ]
        | inr more ↦
            let e' : some (rc, left) ≡ some (rc', h') = sym (rw more refl) ∙ e in
            let same : left ≡ h' = ap (λ t. t.1) (some-injective e') in
            subst IsCounted same (record {
              gone = λ gone. absurd (cc (sym gone ∙ alive));
              there = λ there asked. ground (arith, more, asked);
            })
      ]

  -- For a handle on which no call is under way and no close was asked for: in every handle that comes
  -- from it, by calls of the API that begin and end, nested and in any order, and by closes between or
  -- within them, the memory has been given back exactly when a close was asked for and no call is
  -- under way.
  pub Reached-IsCounted :
      (h0 h : Handle H)
      → h0.freed ≡ false
      → h0.ref_counter ≡ 0
      → h0.close_requested ≡ 0
      → Reached env malloc rounds h0 h
      → IsCounted h
  unfolding api_prolog
  Reached-IsCounted h0 h alive idle fresh start =
      let unasked : (h0.close_requested == 0) ≡ true = rw fresh refl in
      record {
        gone = λ e. absurd (cc (sym e ∙ alive));
        there = λ e e'. absurd (cc (sym e' ∙ unasked));
      }
  Reached-IsCounted h0 h alive idle fresh (enters h1 r alive') = record {
    gone = λ e. absurd (cc (sym e ∙ alive'));
    there = λ e e'. omega arith;
  }
  Reached-IsCounted h0 h alive idle fresh (works h1 h' r alive' s) =
      let before = Reached-IsCounted h0 h1 alive idle fresh r in
      record {
        gone = λ e. absurd (cc (sym e ∙ s.in_use ∙ alive'));
        there = λ e e'. rw (s.counter) (before.there alive' (rw (s.requested) at e'));
      }
  Reached-IsCounted h0 h alive idle fresh (leaves h1 h' rc rc' r alive' busy e) =
      leaves-IsCounted rc rc' h1 h' alive' busy e
  Reached-IsCounted h0 h alive idle fresh (closes h1 h' rc r alive' e) =
      let c : Closed h1 h' = rw e at (zookeeper_close-Closed h1) in
      elim (Bool-cases (h1.ref_counter == 0)) [
        | inl idle' ↦ idle-IsCounted h1 h' c idle'
        | inr busy ↦ busy-IsCounted h1 h' c alive' busy
      ]
