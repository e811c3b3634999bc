-- ===== src/Timers.antt =====
-- The timers of src/timers.c, with virtual interval timers. `P` and `D` are the types of the
-- procedures and of their data. The clock, which is read once in an operation, and the rest of a
-- virtual interval that the system reports, are arguments; the list of free entries is memory
-- management.
pub mod Signals
pub mod Sorted
pub mod Order
pub mod Calls
use lambda_moo_plus_foo.Prelude.{
  ltb, leb, ◌==◌, if◌then◌else◌, ℕ, ◌+◌, ◌-◌, ◌%◌, ◌^◌, Bool, true, false, Option, none, some, List,
  [], ◌∷◌, ◌++◌,
}

-- `Timer_Entry`; a null procedure is `none`.
pub record TimerEntry (P D : Type 0) : Type 0 where
  pub when : ℕ
  pub proc : Option P
  pub timer_data : D
  pub id : ℕ

-- What the system is asked for: nothing, an alarm after some seconds, or a signal at once.
pub data Wakeup : Type 0 where
  no_wakeup : Wakeup
  alarm : ℕ → Wakeup
  at_once : Wakeup

-- The static variables, what `alarm` and `setitimer` were last asked for, whether SIGALRM is blocked,
-- as it is in its handler, and the calls of procedures so far, with their numbers and data. What the
-- procedures do is not modelled.
pub record Timers (P D : Type 0) : Type 0 where
  pub active_timers : List (TimerEntry P D)
  pub virtual_timer : Option (TimerEntry P D)
  pub next_id : ℕ
  pub alarm_set : Wakeup
  pub interval_set : Wakeup
  pub alarm_blocked : Bool
  pub calls : List (P × ℕ × D)

module _ {P D : Type 0} where
  abbrev pub with_when : ℕ → TimerEntry P D → TimerEntry P D
  with_when n t = record t { when = n }

  abbrev pub left_over : ℕ → Option (TimerEntry P D) → Option (TimerEntry P D)
  left_over left none = none
  left_over left (some t) = some (with_when left t)

  -- Both requests are withdrawn, and `virtual_timer->when = oitimer.it_value.tv_sec`.
  unfoldable pub stop_timers : ℕ → Timers P D → Timers P D
  stop_timers left s = record s {
    virtual_timer = left_over left s.virtual_timer;
    alarm_set = no_wakeup;
    interval_set = no_wakeup;
  }

  -- `if (proc) (*proc)(id, data);`
  abbrev pub call_of : Option P → TimerEntry P D → List (P × ℕ × D)
  call_of none t = []
  call_of (some p) t = (p, t.id, t.timer_data) ∷ []

  abbrev pub called : TimerEntry P D → Timers P D → Timers P D
  called t s = record s { calls = s.calls ++ call_of t.proc t }

  -- `virtual_wakeup_call`, with the virtual timer.
  abbrev pub virtual_handler : TimerEntry P D → Timers P D → Timers P D
  virtual_handler t s = called t (record s { virtual_timer = none })

  -- The request for the first active timer; with none, the last one stands.
  unfoldable pub real_wakeup : ℕ → List (TimerEntry P D) → Wakeup → Wakeup
  real_wakeup now [] last = last
  real_wakeup now (t ∷ ts) last = if ltb now t.when then alarm (t.when - now) else at_once

  abbrev pub ask : ℕ → Timers P D → Timers P D
  ask now s = record s { alarm_set = real_wakeup now s.active_timers s.alarm_set }

  -- The second half of `restart_timers`. SIGVTALRM is blocked only in its handler, which does not
  -- restart timers itself, so that the signal that `kill` sends is handled before `kill` returns.
  unfoldable pub virtual_wakeup : Option (TimerEntry P D) → Timers P D → Timers P D
  virtual_wakeup none s = s
  virtual_wakeup (some t) s =
      if ltb 0 t.when then record s { interval_set = alarm t.when } else virtual_handler t s

  -- `restart_timers` where SIGALRM is blocked: a signal that is sent waits.
  unfoldable pub restart_blocked : ℕ → Timers P D → Timers P D
  unfolding real_wakeup virtual_wakeup
  restart_blocked now s = virtual_wakeup s.virtual_timer (ask now s)

  -- `wakeup_call`, with the first active timer and the others. SIGALRM is blocked while it runs.
  unfoldable pub wakeup_handler :
      ℕ → TimerEntry P D → List (TimerEntry P D) → Timers P D → Timers P D
  unfolding restart_blocked
  wakeup_handler now t ts s =
      called t (restart_blocked now (record s { active_timers = ts; alarm_set = no_wakeup }))

  -- The signals that are sent to the process while its first active timer is due, each of them
  -- handled when the handler of the one before returns.
  unfoldable pub deliver : ℕ → List (TimerEntry P D) → Timers P D → Timers P D
  unfolding wakeup_handler
  deliver now [] s = s
  deliver now (t ∷ ts) s =
      let rest = deliver now ts (wakeup_handler now t ts s) in if ltb now t.when then s else rest

  abbrev pub unless_blocked : Bool → ℕ → Timers P D → Timers P D
  unless_blocked true now s = s
  unless_blocked false now s = deliver now s.active_timers s

  -- Where SIGALRM is not blocked, a signal that `kill` sends is handled before `kill` returns.
  unfoldable pub restart_timers : ℕ → Timers P D → Timers P D
  unfolding real_wakeup deliver virtual_wakeup
  restart_timers now s =
      let a = unless_blocked s.alarm_blocked now (ask now s) in virtual_wakeup a.virtual_timer a

  -- The `while` loop of `set_timer`, and the entry linked in where it stops.
  unfoldable pub insert_timer : TimerEntry P D → List (TimerEntry P D) → List (TimerEntry P D)
  insert_timer this [] = this ∷ []
  insert_timer this (t ∷ ts) =
      if leb t.when this.when then t ∷ insert_timer this ts else this ∷ t ∷ ts

  -- The number of a timer is an `int`; `next_id++` wraps around.
  unfoldable pub set_timer : (left now seconds : ℕ) → Option P → D → Timers P D → ℕ × Timers P D
  unfolding stop_timers insert_timer restart_timers
  set_timer left now seconds proc info s =
      let this : TimerEntry P D = record {
        when = now + seconds;
        proc = proc;
        timer_data = info;
        id = s.next_id;
      } in
      (
        s.next_id,
        restart_timers now (record (stop_timers left s) {
          active_timers = insert_timer this s.active_timers;
          next_id = (s.next_id + 1) % 2 ^ 32;
        }),
      )

  -- `none` is the number -1: there is a virtual timer already. The number is read from the new timer
  -- behind `restart_timers`: where its handler has run, that follows a null pointer, an outer `none`.
  abbrev pub number_of : Timers P D → Option (TimerEntry P D) → Option (Option ℕ × Timers P D)
  number_of s none = none
  number_of s (some t) = some (some t.id, s)

  abbrev pub new_virtual :
      (left now seconds : ℕ) → Option P → D → Timers P D → Option (Option ℕ × Timers P D)
  new_virtual left now seconds proc info s =
      let s' = restart_timers now (record (stop_timers left s) {
        virtual_timer =
            some (record { when = seconds; proc = proc; timer_data = info; id = s.next_id });
        next_id = (s.next_id + 1) % 2 ^ 32;
      }) in
      number_of s' s'.virtual_timer

  unfoldable pub set_virtual_timer :
      (left now seconds : ℕ) → Option P → D → Timers P D → Option (Option ℕ × Timers P D)
  unfolding stop_timers restart_timers
  set_virtual_timer left now seconds proc info s = elim s.virtual_timer [
    | some t ↦ some (none, s)
    | none ↦ new_virtual left now seconds proc info s
  ]

  abbrev pub is_timer : ℕ → Option (TimerEntry P D) → Bool
  is_timer id none = false
  is_timer id (some t) = t.id == id

  -- The `while` loop of `cancel_timer`: the list without the first entry of that number.
  unfoldable pub unlink_timer : ℕ → List (TimerEntry P D) → Bool × List (TimerEntry P D)
  unlink_timer id [] = (false, [])
  unlink_timer id (t ∷ ts) =
      let rest = unlink_timer id ts in if t.id == id then (true, ts) else (rest.0, t ∷ rest.1)

  unfoldable pub cancel_timer : (left now id : ℕ) → Timers P D → Bool × Timers P D
  unfolding stop_timers unlink_timer restart_timers
  cancel_timer left now id s =
      let s' = stop_timers left s in
      let r = unlink_timer id s.active_timers in
      if is_timer id s.virtual_timer
      then (true, restart_timers now (record s' { virtual_timer = none }))
      else (r.0, restart_timers now (record s' { active_timers = r.1 }))

  -- The first active timer of a number: the seconds until it is due, below 0 if it is late.
  unfoldable pub interval_from : ℕ → ℕ → List (TimerEntry P D) → ℕ
  interval_from now id [] = 0
  interval_from now id (t ∷ ts) =
      if t.id == id then (t.when + 2 ^ 32 - now % 2 ^ 32) % 2 ^ 32 else interval_from now id ts

  unfoldable pub timer_wakeup_interval : (left now id : ℕ) → Timers P D → ℕ
  unfolding interval_from
  timer_wakeup_interval left now id s =
      if is_timer id s.virtual_timer then left else interval_from now id s.active_timers

  -- An alarm: the handler, and the signals that it sends. `none` is a signal with no timer set,
  -- which follows a null pointer.
  unfoldable pub wakeup_from : ℕ → Timers P D → List (TimerEntry P D) → Option (Timers P D)
  unfolding wakeup_handler deliver
  wakeup_from now s [] = none
  wakeup_from now s (t ∷ ts) = some (deliver now ts (wakeup_handler now t ts s))

  unfoldable pub wakeup_call : ℕ → Timers P D → Option (Timers P D)
  unfolding wakeup_from
  wakeup_call now s = wakeup_from now s s.active_timers

  abbrev pub virtual_from : Timers P D → Option (TimerEntry P D) → Option (Timers P D)
  virtual_from s none = none
  virtual_from s (some t) = some (virtual_handler t s)

  unfoldable pub virtual_wakeup_call : Timers P D → Option (Timers P D)
  virtual_wakeup_call s = virtual_from s s.virtual_timer
