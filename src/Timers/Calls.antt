-- ===== src/Timers/Calls.antt =====
-- A timer of src/timers.c that is due at once.
use lambda_moo_plus_foo.Prelude.{
  ltb, leb, ℕ, suc, ◌+◌, ◌%◌, ◌^◌, ◌≡◌, refl, ap, ◌∙◌, true, false, Option, none, List, [], ◌∷◌,
  ◌++◌, arith,
}
use lambda_moo_plus_foo.Timers.{
  TimerEntry, Timers, stop_timers, call_of, virtual_wakeup, restart_blocked, wakeup_handler,
  deliver, restart_timers, insert_timer, set_timer, is_timer, unlink_timer, cancel_timer,
}
use lambda_moo_plus_foo.Timers.Signals.{
  drop_due, remaining, restart_timers-active, restart_timers-virtual,
}
use lambda_moo_plus_foo.Timers.Sorted.{NotBefore, Unused}

module _ {P D : Type 0} where
  insert_timer-first :
      (now : ℕ) (this : TimerEntry P D) (ts : List (TimerEntry P D))
      → this.when ≡ now
      → NotBefore (suc now) ts
      → insert_timer this ts ≡ this ∷ ts
  unfolding insert_timer
  insert_timer-first now this [] e h = refl
  insert_timer-first now this (t ∷ ts) e h =
      let later : leb t.when this.when ≡ false = ground (arith, h.0) in rw later refl

  unlink_timer-Unused :
      (id : ℕ) (ts : List (TimerEntry P D)) → Unused id ts → unlink_timer id ts ≡ (false, ts)
  unfolding unlink_timer
  unlink_timer-Unused id [] u = refl
  unlink_timer-Unused id (t ∷ ts) u = rw (u.0, unlink_timer-Unused id ts u.1) refl

  -- No signal is sent for timers that are not due.
  deliver-NotBefore :
      (now : ℕ) (ts : List (TimerEntry P D)) (s : Timers P D)
      → NotBefore (suc now) ts
      → deliver now ts s ≡ s
  unfolding deliver
  deliver-NotBefore now [] s h = refl
  deliver-NotBefore now (t ∷ ts) s h =
      let later : ltb now t.when ≡ true = ground (arith, h.0) in rw later refl

  -- The state in which the timers other than `this` are left.
  deliver-first :
      (now : ℕ) (this : TimerEntry P D) (ts : List (TimerEntry P D)) (s : Timers P D)
      → this.when ≡ now
      → NotBefore (suc now) ts
      → deliver now (this ∷ ts) s ≡ wakeup_handler now this ts s
  unfolding deliver
  deliver-first now this ts s e h =
      let due : ltb now this.when ≡ false = ground arith in
      rw due (deliver-NotBefore now ts (wakeup_handler now this ts s) h)

  restart_timers-calls :
      (now : ℕ) (this : TimerEntry P D) (ts : List (TimerEntry P D)) (s : Timers P D)
      → s.alarm_blocked ≡ false
      → s.virtual_timer ≡ none
      → s.active_timers ≡ this ∷ ts
      → this.when ≡ now
      → NotBefore (suc now) ts
      → (restart_timers now s).calls ≡ s.calls ++ call_of this.proc this
  unfolding restart_timers wakeup_handler restart_blocked virtual_wakeup
  restart_timers-calls now this ts s b v a e h = rw (b, a, deliver-first now this ts _ e h, v) refl

  drop_due-NotBefore :
      (now : ℕ) (ts : List (TimerEntry P D)) → NotBefore (suc now) ts → drop_due now ts ≡ ts
  drop_due-NotBefore now [] h = refl
  drop_due-NotBefore now (t ∷ ts) h =
      let later : ltb now t.when ≡ true = ground (arith, h.0) in rw later refl

  drop_due-first :
      (now : ℕ) (this : TimerEntry P D) (ts : List (TimerEntry P D))
      → this.when ≡ now
      → NotBefore (suc now) ts
      → drop_due now (this ∷ ts) ≡ ts
  drop_due-first now this ts e h =
      let due : ltb now this.when ≡ false = ground arith in rw due (drop_due-NotBefore now ts h)

  -- Setting a timer for no seconds, where SIGALRM is not blocked, no virtual timer is set and no
  -- other timer is due: its procedure, if any, is called once, with its number and data, before
  -- `set_timer` returns, and no other is. The active timers are as before, and cancelling the number
  -- that is returned, which no other timer has, finds nothing.
  pub set_timer_at_once :
      (left now : ℕ) (proc : Option P) (info : D) (s : Timers P D) (left' now' : ℕ)
      → s.alarm_blocked ≡ false
      → s.virtual_timer ≡ none
      → NotBefore (suc now) s.active_timers
      → Unused s.next_id s.active_timers
      → ((set_timer left now 0 proc info s).1.active_timers ≡ s.active_timers)
        × ((set_timer left now 0 proc info s).1.calls
            ≡ s.calls
              ++ call_of proc
                  (record { when = now + 0; proc = proc; timer_data = info; id = s.next_id }))
        × ((cancel_timer left' now' s.next_id (set_timer left now 0 proc info s).1).0 ≡ false)
  unfolding set_timer cancel_timer stop_timers
  set_timer_at_once left now proc info s left' now' b v h u =
      let this : TimerEntry P D = record {
        when = now + 0;
        proc = proc;
        timer_data = info;
        id = s.next_id;
      } in
      let ts = s.active_timers in
      let first : insert_timer this ts ≡ this ∷ ts =
        insert_timer-first now this ts (omega arith) h in
      let begun : Timers P D = record (stop_timers left s) {
        active_timers = insert_timer this ts;
        next_id = (s.next_id + 1) % 2 ^ 32;
      } in
      let nothing_virtual : begun.virtual_timer ≡ none = rw v refl in
      let left_active : (restart_timers now begun).active_timers ≡ ts =
        restart_timers-active now begun
        ∙ ap (λ c. remaining c now (insert_timer this ts)) b
        ∙ ap (drop_due now) first
        ∙ drop_due-first now this ts (omega arith) h in
      let not_virtual : is_timer s.next_id (restart_timers now begun).virtual_timer ≡ false =
        restart_timers-virtual s.next_id now begun (rw nothing_virtual refl) in
      (
        left_active,
        restart_timers-calls now this ts begun b nothing_virtual first (omega arith) h,
        rw (not_virtual, left_active, unlink_timer-Unused s.next_id ts u) refl,
      )
