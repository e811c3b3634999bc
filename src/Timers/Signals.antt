-- ===== src/Timers/Signals.antt =====
-- What the signals that `restart_timers` of src/timers.c sends leave of the active timers.
use lambda_moo_plus_foo.Prelude.{
  ltb, if◌then◌else◌, Bool-cases, ℕ, ◌≡◌, refl, ◌∙◌, inl, inr, Bool, true, false, Option, none,
  some, List, [], ◌∷◌,
}
use lambda_moo_plus_foo.Timers.{
  TimerEntry, Timers, ask, virtual_wakeup, restart_blocked, wakeup_handler, deliver, unless_blocked,
  restart_timers, is_timer,
}

module _ {P D : Type 0} where
  -- The list without the timers in front that are due.
  abbrev pub drop_due : ℕ → List (TimerEntry P D) → List (TimerEntry P D)
  drop_due now [] = []
  drop_due now (t ∷ ts) = let rest = drop_due now ts in if ltb now t.when then t ∷ ts else rest

  -- The active timers behind `restart_timers`.
  abbrev pub remaining : (blocked : Bool) → ℕ → List (TimerEntry P D) → List (TimerEntry P D)
  remaining true now ts = ts
  remaining false now ts = drop_due now ts

  virtual_wakeup-active :
      (o : Option (TimerEntry P D)) (s : Timers P D)
      → ((virtual_wakeup o s).active_timers ≡ s.active_timers)
        × ((virtual_wakeup o s).alarm_blocked ≡ s.alarm_blocked)
  unfolding virtual_wakeup
  virtual_wakeup-active none s = (refl, refl)
  virtual_wakeup-active (some t) s = elim (Bool-cases (ltb 0 t.when)) [
    | inl e ↦ rw e (refl, refl)
    | inr e ↦ rw e (refl, refl)
  ]

  pub wakeup_handler-active :
      (now : ℕ) (t : TimerEntry P D) (ts : List (TimerEntry P D)) (s : Timers P D)
      → (wakeup_handler now t ts s).active_timers ≡ ts
  unfolding wakeup_handler restart_blocked
  wakeup_handler-active now t ts s = (virtual_wakeup-active s.virtual_timer _).0

  wakeup_handler-blocked :
      (now : ℕ) (t : TimerEntry P D) (ts : List (TimerEntry P D)) (s : Timers P D)
      → (wakeup_handler now t ts s).alarm_blocked ≡ s.alarm_blocked
  unfolding wakeup_handler restart_blocked
  wakeup_handler-blocked now t ts s = (virtual_wakeup-active s.virtual_timer _).1

  pub deliver-active :
      (now : ℕ) (ts : List (TimerEntry P D)) (s : Timers P D)
      → s.active_timers ≡ ts
      → (deliver now ts s).active_timers ≡ drop_due now ts
  unfolding deliver
  deliver-active now [] s h = h
  deliver-active now (t ∷ ts) s h = elim (Bool-cases (ltb now t.when)) [
    | inl e ↦ rw e h
    | inr e ↦
        rw e (deliver-active now ts (wakeup_handler now t ts s) (wakeup_handler-active now t ts s))
  ]

  deliver-blocked :
      (now : ℕ) (ts : List (TimerEntry P D)) (s : Timers P D)
      → (deliver now ts s).alarm_blocked ≡ s.alarm_blocked
  unfolding deliver
  deliver-blocked now [] s = refl
  deliver-blocked now (t ∷ ts) s = elim (Bool-cases (ltb now t.when)) [
    | inl e ↦ rw e refl
    | inr e ↦
        rw e
          (deliver-blocked now ts (wakeup_handler now t ts s) ∙ wakeup_handler-blocked now t ts s)
  ]

  unless_blocked-active :
      (b : Bool) (now : ℕ) (s : Timers P D)
      → ((unless_blocked b now s).active_timers ≡ remaining b now s.active_timers)
        × ((unless_blocked b now s).alarm_blocked ≡ s.alarm_blocked)
  unless_blocked-active true now s = (refl, refl)
  unless_blocked-active false now s =
      (deliver-active now s.active_timers s refl, deliver-blocked now s.active_timers s)

  pub restart_timers-active :
      (now : ℕ) (s : Timers P D)
      → (restart_timers now s).active_timers ≡ remaining s.alarm_blocked now s.active_timers
  unfolding restart_timers
  restart_timers-active now s =
      let a = unless_blocked s.alarm_blocked now (ask now s) in
      (virtual_wakeup-active a.virtual_timer a).0
      ∙ (unless_blocked-active s.alarm_blocked now (ask now s)).0

  pub restart_timers-blocked :
      (now : ℕ) (s : Timers P D) → (restart_timers now s).alarm_blocked ≡ s.alarm_blocked
  unfolding restart_timers
  restart_timers-blocked now s =
      let a = unless_blocked s.alarm_blocked now (ask now s) in
      (virtual_wakeup-active a.virtual_timer a).1
      ∙ (unless_blocked-active s.alarm_blocked now (ask now s)).1

  -- No virtual timer of that number.
  abbrev IsOther : ℕ → Timers P D → Type 0
  IsOther id s = is_timer id s.virtual_timer ≡ false

  virtual_wakeup-IsOther :
      (id : ℕ) (o : Option (TimerEntry P D)) (s : Timers P D)
      → s.virtual_timer ≡ o
      → is_timer id o ≡ false
      → IsOther id (virtual_wakeup o s)
  unfolding virtual_wakeup
  virtual_wakeup-IsOther id none s e h = rw e refl
  virtual_wakeup-IsOther id (some t) s e h = elim (Bool-cases (ltb 0 t.when)) [
    | inl f ↦ rw (f, e) h
    | inr f ↦ rw f refl
  ]

  deliver-IsOther :
      (id now : ℕ) (ts : List (TimerEntry P D)) (s : Timers P D)
      → IsOther id s
      → IsOther id (deliver now ts s)
  unfolding deliver wakeup_handler restart_blocked
  deliver-IsOther id now [] s h = h
  deliver-IsOther id now (t ∷ ts) s h = elim (Bool-cases (ltb now t.when)) [
    | inl e ↦ rw e h
    | inr e ↦ rw e (
        deliver-IsOther id now ts (wakeup_handler now t ts s)
          (virtual_wakeup-IsOther id s.virtual_timer _ refl h))
  ]

  unless_blocked-IsOther :
      (b : Bool) (id now : ℕ) (s : Timers P D) → IsOther id s → IsOther id (unless_blocked b now s)
  unless_blocked-IsOther true id now s h = h
  unless_blocked-IsOther false id now s h = deliver-IsOther id now s.active_timers s h

  pub restart_timers-virtual :
      (id now : ℕ) (s : Timers P D)
      → is_timer id s.virtual_timer ≡ false
      → is_timer id (restart_timers now s).virtual_timer ≡ false
  unfolding restart_timers
  restart_timers-virtual id now s h =
      virtual_wakeup-IsOther id _ _ refl
        (unless_blocked-IsOther s.alarm_blocked id now (ask now s) h)
