-- ===== src/Connection/Steps.antt =====
-- `check_events` leaves the count of the calls under way, the request to close and the memory of the
-- handle alone.
use ruby_zookeeper.Prelude.{
  Outcome, ok, fail, fault, ◌==◌, neg, is_neg, Bool-cases, ℕ, zero, suc, refl, inl, inr, Bool, ◌&&◌,
  not, none, some,
}
use ruby_zookeeper.Connection.{Net, socket_error}
use ruby_zookeeper.Connection.Check.{
  is_nil, flushed, flush_events, own_received, primer_received, read_event, exchange, check_events,
}
use ruby_zookeeper.Connection.Handshake.{finish_handshake}
use ruby_zookeeper.Connection.Kept.{SteadyRun, later_run, each_some, then_run, socket_error-Steady}
use ruby_zookeeper.Connection.Worked.{prime_connection-Steady, finish_handshake-Steady}
use ruby_zookeeper.Replies.{connecting_state, Input, no_input, primer_input, own_input, Handle}
use ruby_zookeeper.Session.{zconnectionloss, Env, Zhandle, allocate_buffer}
use ruby_zookeeper.Watchers.{HashTable}
use ruby_zookeeper.Wire.{BufferList}
use ruby_zookeeper.Wire.Receive.{Inlet, recv_buffer}

module _ (env : Env) (malloc : ℕ → ℕ → Bool) (net : Net) {H : HashTable} where
  flushed-Steady : (h : Handle H) (o : Outcome Zhandle ℕ) → SteadyRun h (flushed env malloc net h o)
  unfolding flushed
  flushed-Steady h (ok rc zh) =
      let h1 = record h { zh = zh } in
      elim (Bool-cases (is_neg rc)) [
        | inl e ↦ rw e (
            later_run {h = h} {h1 = h1} (socket_error env malloc zconnectionloss h1)
              (record { counter = refl; requested = refl; in_use = refl })
              (socket_error-Steady env malloc zconnectionloss h1))
        | inr e ↦ rw e (record { counter = refl; requested = refl; in_use = refl })
      ]
  flushed-Steady h (fail rc zh) =
      let h1 = record h { zh = zh } in
      later_run {h = h} {h1 = h1} (socket_error env malloc zconnectionloss h1)
        (record { counter = refl; requested = refl; in_use = refl })
        (socket_error-Steady env malloc zconnectionloss h1)
  flushed-Steady h fault = tt

  flush_events-Steady :
      (writable : Bool) (h : Handle H) → SteadyRun h (flush_events env malloc net writable h)
  unfolding flush_events
  flush_events-Steady writable h = elim (Bool-cases (not (is_nil h.zh.to_send) && writable)) [
    | inl e ↦ rw e (flushed-Steady h _)
    | inr e ↦ rw e (record { counter = refl; requested = refl; in_use = refl })
  ]

  own_received-Steady :
      (h : Handle H) (o : Outcome (BufferList × Inlet) ℕ)
      → SteadyRun h (own_received env malloc net h o)
  unfolding own_received
  own_received-Steady h (ok zero (b, s)) = record {
    counter = refl;
    requested = refl;
    in_use = refl;
  }
  own_received-Steady h (ok (suc n) (b, s)) = record {
    counter = refl;
    requested = refl;
    in_use = refl;
  }
  own_received-Steady h (fail rc (b, s)) =
      let h1 = record h { input_buffer = own_input b; inlet = s } in
      later_run {h = h} {h1 = h1} (socket_error env malloc zconnectionloss h1)
        (record { counter = refl; requested = refl; in_use = refl })
        (socket_error-Steady env malloc zconnectionloss h1)
  own_received-Steady h fault = tt

  primer_received-Steady :
      (h : Handle H) (o : Outcome (BufferList × Inlet) ℕ)
      → SteadyRun h (primer_received env malloc net h o)
  unfolding primer_received
  primer_received-Steady h (ok zero (b, s)) = record {
    counter = refl;
    requested = refl;
    in_use = refl;
  }
  primer_received-Steady h (ok (suc n) (b, s)) =
      let h1 = record h { primer_buffer = b; inlet = s; last_recv = env.now } in
      later_run {h = h} {h1 = h1} (finish_handshake env malloc h1)
        (record { counter = refl; requested = refl; in_use = refl })
        (finish_handshake-Steady env malloc h1)
  primer_received-Steady h (fail rc (b, s)) =
      let h1 = record h { primer_buffer = b; inlet = s } in
      later_run {h = h} {h1 = h1} (socket_error env malloc zconnectionloss h1)
        (record { counter = refl; requested = refl; in_use = refl })
        (socket_error-Steady env malloc zconnectionloss h1)
  primer_received-Steady h fault = tt

  by_input :
      (h : Handle H) (i : Input)
      → SteadyRun h (elim i [
        | no_input ↦ elim (allocate_buffer env none 0) [
          | none ↦ fault
          | some b ↦ own_received env malloc net h (recv_buffer env.host net.granted (b, h.inlet))
        ]
        | own_input b ↦
            own_received env malloc net h (recv_buffer env.host net.granted (b, h.inlet))
        | primer_input ↦
            primer_received env malloc net h
              (recv_buffer env.host net.granted (h.primer_buffer, h.inlet))
      ])
  by_input h no_input = each_some h (allocate_buffer env none 0) _ (λ b. own_received-Steady h _)
  by_input h (own_input b) = own_received-Steady h _
  by_input h primer_input = primer_received-Steady h _

  read_event-Steady : (h : Handle H) → SteadyRun h (read_event env malloc net h)
  unfolding read_event
  read_event-Steady h = by_input h h.input_buffer

  exchange-Steady :
      (readable writable : Bool) (h : Handle H)
      → SteadyRun h (exchange env malloc net readable writable h)
  unfolding exchange
  exchange-Steady readable writable h =
      then_run h (flush_events env malloc net writable h) _ (flush_events-Steady writable h) (λ h1.
        elim (Bool-cases readable) [
          | inl e ↦ rw e (read_event-Steady h1)
          | inr e ↦ rw e (record { counter = refl; requested = refl; in_use = refl })
        ])

  pub check_events-Steady :
      (readable writable : Bool) (h : Handle H)
      → SteadyRun h (check_events env malloc net readable writable h)
  unfolding check_events
  check_events-Steady readable writable h = elim (Bool-cases (h.fd == neg 1)) [
    | inl e ↦ rw e (record { counter = refl; requested = refl; in_use = refl })
    | inr e ↦ elim (Bool-cases (writable && h.zh.state == connecting_state)) [
      | inl f ↦ elim (Bool-cases net.sound) [
        | inl g ↦ rw (e, f) (rw g (prime_connection-Steady env malloc h))
        | inr g ↦ rw (e, f) (rw g (socket_error-Steady env malloc zconnectionloss h))
      ]
      | inr f ↦ rw (e, f) (exchange-Steady readable writable h)
    ]
  ]
