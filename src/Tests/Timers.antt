-- ===== src/Tests/Timers.antt =====
-- Timers.
use lambda_moo_plus_foo.Prelude.{ℕ, ◌≡◌, refl, true, false, none, some, [], ◌∷◌, arith}
use lambda_moo_plus_foo.Timers.{
  TimerEntry, Timers, stop_timers, real_wakeup, virtual_wakeup, restart_blocked, wakeup_handler,
  deliver, restart_timers, set_timer, set_virtual_timer, cancel_timer, wakeup_from, wakeup_call,
  no_wakeup, alarm,
}
use lambda_moo_plus_foo.Timers.Sorted.{IsSorted}
use lambda_moo_plus_foo.Timers.Calls.{set_timer_at_once}
use lambda_moo_plus_foo.Timers.Order.{set_timer-cancel_timer-IsSorted, cancel_timer-set_timer}

abbrev entry : (when id : ℕ) → TimerEntry ℕ ℕ
entry when id = record { when = when; proc = some 7; timer_data = 0; id = id }

-- At 100 seconds, two timers that are due at 105 and 120.
abbrev clock : Timers ℕ ℕ
clock = record {
  active_timers = entry 105 1 ∷ entry 120 0 ∷ [];
  virtual_timer = none;
  next_id = 2;
  alarm_set = alarm 5;
  interval_set = no_wakeup;
  alarm_blocked = false;
  calls = [];
}

set_timer-cancel_timer-IsSorted_example :
    IsSorted (set_timer 0 100 10 (some 7) 0 clock).1.active_timers
    × IsSorted (cancel_timer 0 100 1 clock).1.active_timers
    × ((r : Timers ℕ ℕ) → wakeup_call 100 clock ≡ some r → IsSorted r.active_timers)
    × (clock.active_timers ≡ [] → wakeup_call 100 clock ≡ none)
set_timer-cancel_timer-IsSorted_example =
    set_timer-cancel_timer-IsSorted 0 100 10 1 (some 7) 0 clock ((omega arith, tt), (tt, tt))

cancel_timer-set_timer_example :
    ((set_timer 0 100 10 (some 7) 0 clock).0 ≡ clock.next_id)
    × ((cancel_timer 0 103 clock.next_id (set_timer 0 100 10 (some 7) 0 clock).1).0 ≡ true)
    × ((cancel_timer 0 103 clock.next_id (set_timer 0 100 10 (some 7) 0 clock).1).1.active_timers
        ≡ entry 105 1 ∷ entry 120 0 ∷ [])
cancel_timer-set_timer_example =
    cancel_timer-set_timer 0 100 10 (some 7) 0 clock 0 103 (omega arith) (refl, (refl, tt)) refl

set_timer_at_once_example :
    ((set_timer 0 100 0 (some 8) 5 clock).1.active_timers ≡ clock.active_timers)
    × ((set_timer 0 100 0 (some 8) 5 clock).1.calls ≡ (8, 2, 5) ∷ [])
    × ((cancel_timer 0 101 clock.next_id (set_timer 0 100 0 (some 8) 5 clock).1).0 ≡ false)
set_timer_at_once_example =
    set_timer_at_once 0 100 (some 8) 5 clock 0 101 refl refl (omega arith, (omega arith, tt))
      (refl, (refl, tt))

-- At 120 seconds both timers are due, and one alarm calls both, in the order of their times.
both_called :
    wakeup_call 120 clock
    ≡ some (record clock {
      active_timers = [];
      alarm_set = no_wakeup;
      calls = (7, 1, 0) ∷ (7, 0, 0) ∷ [];
    })
unfolding wakeup_call wakeup_from deliver wakeup_handler restart_blocked real_wakeup virtual_wakeup
both_called = refl

-- A virtual timer for no seconds is gone when `set_virtual_timer` reads its number.
virtual_gone : set_virtual_timer 0 100 0 (some 8) 5 clock ≡ none
unfolding set_virtual_timer stop_timers restart_timers real_wakeup deliver virtual_wakeup
virtual_gone = refl
