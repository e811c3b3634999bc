-- ===== src/Timers/Order.antt =====
-- What the operations of src/timers.c do to the active timers: their order, and the round trip of a
-- timer that is set and cancelled.
use lambda_moo_plus_foo.Prelude.{
  ltb, leb, lt→ltb, leb-false, ==_iff, Bool-cases, some_injective, ℕ, ◌+◌, ◌%◌, ◌^◌, ◌<◌, ◌≡◌, refl,
  sym, ap, ◌∙◌, inl, inr, Bool, true, false, Option, none, some, List, [], ◌∷◌, arith,
}
use lambda_moo_plus_foo.Timers.{
  TimerEntry, Timers, left_over, stop_timers, wakeup_handler, deliver, restart_timers, insert_timer,
  set_timer, is_timer, unlink_timer, cancel_timer, wakeup_from, wakeup_call,
}
use lambda_moo_plus_foo.Timers.Signals.{
  drop_due, remaining, wakeup_handler-active, deliver-active, restart_timers-active,
  restart_timers-blocked, restart_timers-virtual,
}
use lambda_moo_plus_foo.Timers.Sorted.{
  IsSorted, Unused, insert_timer-IsSorted, unlink_timer-IsSorted, drop_due-IsSorted,
  remaining-IsSorted,
}

module _ {P D : Type 0} where
  unlink_timer-insert_timer :
      (this : TimerEntry P D) (ts : List (TimerEntry P D))
      → Unused this.id ts
      → unlink_timer this.id (insert_timer this ts) ≡ (true, ts)
  unfolding unlink_timer insert_timer
  unlink_timer-insert_timer this [] u = rw ((==_iff this.id this.id).1 refl) refl
  unlink_timer-insert_timer this (t ∷ ts) u = elim (Bool-cases (leb t.when this.when)) [
    | inl e ↦ rw (e, u.0, unlink_timer-insert_timer this ts u.1) refl
    | inr e ↦ rw (e, (==_iff this.id this.id).1 refl) refl
  ]

  is_timer-left_over :
      (id left : ℕ) (o : Option (TimerEntry P D)) → is_timer id (left_over left o) ≡ is_timer id o
  is_timer-left_over id left none = refl
  is_timer-left_over id left (some t) = refl

  -- A timer that is not due stands in front of the others, or behind those that are not due.
  drop_due-insert_timer :
      (now : ℕ) (this : TimerEntry P D) (ts : List (TimerEntry P D))
      → now < this.when
      → drop_due now (insert_timer this ts) ≡ insert_timer this (drop_due now ts)
  unfolding insert_timer
  drop_due-insert_timer now this [] h = rw (lt→ltb now this.when h) refl
  drop_due-insert_timer now this (t ∷ ts) h = elim (Bool-cases (leb t.when this.when)) [
    | inl e ↦ elim (Bool-cases (ltb now t.when)) [
      | inl f ↦ rw (e, f, e) refl
      | inr f ↦ rw (e, f) (drop_due-insert_timer now this ts h)
    ]
    | inr e ↦
        let later : ltb now t.when ≡ true = ground (arith, leb-false _ _ e) in
        rw (e, lt→ltb now this.when h, later, e) refl
  ]

  remaining-insert_timer :
      (blocked : Bool) (now : ℕ) (this : TimerEntry P D) (ts : List (TimerEntry P D))
      → now < this.when
      → remaining blocked now (insert_timer this ts) ≡ insert_timer this (remaining blocked now ts)
  remaining-insert_timer true now this ts h = refl
  remaining-insert_timer false now this ts h = drop_due-insert_timer now this ts h

  drop_due-Unused :
      (id now : ℕ) (ts : List (TimerEntry P D)) → Unused id ts → Unused id (drop_due now ts)
  drop_due-Unused id now [] u = tt
  drop_due-Unused id now (t ∷ ts) u = elim (Bool-cases (ltb now t.when)) [
    | inl e ↦ rw e u
    | inr e ↦ rw e (drop_due-Unused id now ts u.1)
  ]

  remaining-Unused :
      (blocked : Bool) (id now : ℕ) (ts : List (TimerEntry P D))
      → Unused id ts
      → Unused id (remaining blocked now ts)
  remaining-Unused true id now ts u = u
  remaining-Unused false id now ts u = drop_due-Unused id now ts u

  unlinked :
      (left now id : ℕ) (s : Timers P D)
      → IsSorted s.active_timers
      → IsSorted (cancel_timer left now id s).1.active_timers
  unfolding cancel_timer stop_timers
  unlinked left now id s h = elim (Bool-cases (is_timer id s.virtual_timer)) [
    | inl e ↦ rw (e, restart_timers-active now _) (remaining-IsSorted s.alarm_blocked now _ h)
    | inr e ↦
        rw (e, restart_timers-active now _)
          (remaining-IsSorted s.alarm_blocked now _ (unlink_timer-IsSorted id s.active_timers h))
  ]

  wakeup_from-IsSorted :
      (now : ℕ) (s : Timers P D) (ts : List (TimerEntry P D))
      → IsSorted ts
      → (r : Timers P D) → wakeup_from now s ts ≡ some r
      → IsSorted r.active_timers
  unfolding wakeup_from
  wakeup_from-IsSorted now s [] h r e = cc
  wakeup_from-IsSorted now s (t ∷ ts) h r e =
      let same : deliver now ts (wakeup_handler now t ts s) ≡ r = some_injective e in
      rw
        (
          sym same,
          deliver-active now ts (wakeup_handler now t ts s) (wakeup_handler-active now t ts s),
        )
        (drop_due-IsSorted now ts h.1)

  wakeup_from-none : (now : ℕ) (s : Timers P D) → wakeup_from now s [] ≡ none
  unfolding wakeup_from
  wakeup_from-none now s = refl

  -- Setting a timer, cancelling one and the alarm of the first one all keep the active timers in
  -- the order in which they are due; the alarm faults if no timer is active.
  pub set_timer-cancel_timer-IsSorted :
      (left now seconds id : ℕ) (proc : Option P) (info : D) (s : Timers P D)
      → IsSorted s.active_timers
      → IsSorted (set_timer left now seconds proc info s).1.active_timers
        × IsSorted (cancel_timer left now id s).1.active_timers
        × ((r : Timers P D) → wakeup_call now s ≡ some r → IsSorted r.active_timers)
        × (s.active_timers ≡ [] → wakeup_call now s ≡ none)
  unfolding set_timer wakeup_call stop_timers
  set_timer-cancel_timer-IsSorted left now seconds id proc info s h = (
    rw (restart_timers-active now _)
        (remaining-IsSorted s.alarm_blocked now _ (insert_timer-IsSorted _ s.active_timers h)),
    unlinked left now id s h,
    wakeup_from-IsSorted now s s.active_timers h,
    λ e. rw e (wakeup_from-none now s),
  )

  -- Setting a timer for a second or more, where no timer has the next number, gives that number, and
  -- cancelling it in the state after that, at whatever time, finds it. The other active timers are
  -- then as before, where SIGALRM is blocked; where it is not, those in front that are due when the
  -- timer is set, and those that are then in front and due when it is cancelled, have been taken
  -- off, and no others.
  pub cancel_timer-set_timer :
      (left now seconds : ℕ) (proc : Option P) (info : D) (s : Timers P D) (left' now' : ℕ)
      → 0 < seconds
      → Unused s.next_id s.active_timers
      → is_timer s.next_id s.virtual_timer ≡ false
      → ((set_timer left now seconds proc info s).0 ≡ s.next_id)
        × ((cancel_timer left' now' s.next_id (set_timer left now seconds proc info s).1).0 ≡ true)
        × ((cancel_timer left' now' s.next_id
              (set_timer left now seconds proc info s).1).1.active_timers
            ≡ remaining s.alarm_blocked now' (remaining s.alarm_blocked now s.active_timers))
  unfolding set_timer cancel_timer stop_timers
  cancel_timer-set_timer left now seconds proc info s left' now' p u v =
      let this : TimerEntry P D = record {
        when = now + seconds;
        proc = proc;
        timer_data = info;
        id = s.next_id;
      } in
      let b = s.alarm_blocked in
      let others = remaining b now s.active_timers in
      let begun : Timers P D = record (stop_timers left s) {
        active_timers = insert_timer this s.active_timers;
        next_id = (s.next_id + 1) % 2 ^ 32;
      } in
      let now_active : (restart_timers now begun).active_timers ≡ insert_timer this others =
        restart_timers-active now begun
        ∙ remaining-insert_timer b now this s.active_timers (omega arith) in
      let not_virtual : is_timer s.next_id (restart_timers now begun).virtual_timer ≡ false =
        restart_timers-virtual s.next_id now begun
          (is_timer-left_over s.next_id left s.virtual_timer ∙ v) in
      let gone : unlink_timer s.next_id (insert_timer this others) ≡ (true, others) =
        unlink_timer-insert_timer this others
          (remaining-Unused b s.next_id now s.active_timers u) in
      rw (not_virtual, now_active, gone)
        (
          refl,
          refl,
          restart_timers-active now'
                (record (stop_timers left' (restart_timers now begun)) { active_timers = others })
              ∙ ap (λ c. remaining c now' others) (restart_timers-blocked now begun),
        )
