-- ===== src/Timers/Sorted.antt =====
-- The order in which the active timers of src/timers.c are due, and their numbers, in a list of
-- them.
use lambda_moo_plus_foo.Prelude.{
  ltb, leb, ◌==◌, leb→le, leb-false, Bool-cases, ℕ, ◌≤◌, ◌≡◌, inl, inr, Bool, true, false, List, [],
  ◌∷◌, arith,
}
use lambda_moo_plus_foo.Timers.{TimerEntry, insert_timer, unlink_timer}
use lambda_moo_plus_foo.Timers.Signals.{drop_due, remaining}

module _ {P D : Type 0} where
  -- No timer of the list is due before `w`.
  abbrev pub NotBefore : ℕ → List (TimerEntry P D) → Type 0
  NotBefore w [] = Unit
  NotBefore w (t ∷ ts) = (w ≤ t.when) × NotBefore w ts

  abbrev pub IsSorted : List (TimerEntry P D) → Type 0
  IsSorted [] = Unit
  IsSorted (t ∷ ts) = NotBefore t.when ts × IsSorted ts

  -- No timer of the list has this number.
  abbrev pub Unused : ℕ → List (TimerEntry P D) → Type 0
  Unused id [] = Unit
  Unused id (t ∷ ts) = ((t.id == id) ≡ false) × Unused id ts

  NotBefore-weaken :
      (v w : ℕ) (ts : List (TimerEntry P D)) → v ≤ w → NotBefore w ts → NotBefore v ts
  NotBefore-weaken v w [] h n = tt
  NotBefore-weaken v w (t ∷ ts) h n = (omega (arith, n.0), NotBefore-weaken v w ts h n.1)

  insert_timer-NotBefore :
      (w : ℕ) (this : TimerEntry P D) (ts : List (TimerEntry P D))
      → w ≤ this.when
      → NotBefore w ts
      → NotBefore w (insert_timer this ts)
  unfolding insert_timer
  insert_timer-NotBefore w this [] h n = (h, tt)
  insert_timer-NotBefore w this (t ∷ ts) h n = elim (Bool-cases (leb t.when this.when)) [
    | inl e ↦ rw e (n.0, insert_timer-NotBefore w this ts h n.1)
    | inr e ↦ rw e (h, n)
  ]

  pub insert_timer-IsSorted :
      (this : TimerEntry P D) (ts : List (TimerEntry P D))
      → IsSorted ts
      → IsSorted (insert_timer this ts)
  unfolding insert_timer
  insert_timer-IsSorted this [] h = (tt, tt)
  insert_timer-IsSorted this (t ∷ ts) h = elim (Bool-cases (leb t.when this.when)) [
    | inl e ↦ rw e (
      insert_timer-NotBefore t.when this ts (leb→le _ _ e) h.0,
      insert_timer-IsSorted this ts h.1,
    )
    | inr e ↦
        let early : this.when ≤ t.when = omega (arith, leb-false _ _ e) in
        rw e ((early, NotBefore-weaken this.when t.when ts early h.0), h)
  ]

  unlink_timer-NotBefore :
      (w id : ℕ) (ts : List (TimerEntry P D)) → NotBefore w ts → NotBefore w (unlink_timer id ts).1
  unfolding unlink_timer
  unlink_timer-NotBefore w id [] n = tt
  unlink_timer-NotBefore w id (t ∷ ts) n = elim (Bool-cases (t.id == id)) [
    | inl e ↦ rw e n.1
    | inr e ↦ rw e (n.0, unlink_timer-NotBefore w id ts n.1)
  ]

  pub unlink_timer-IsSorted :
      (id : ℕ) (ts : List (TimerEntry P D)) → IsSorted ts → IsSorted (unlink_timer id ts).1
  unfolding unlink_timer
  unlink_timer-IsSorted id [] h = tt
  unlink_timer-IsSorted id (t ∷ ts) h = elim (Bool-cases (t.id == id)) [
    | inl e ↦ rw e h.1
    | inr e ↦ rw e (unlink_timer-NotBefore t.when id ts h.0, unlink_timer-IsSorted id ts h.1)
  ]

  drop_due-NotBefore :
      (w now : ℕ) (ts : List (TimerEntry P D)) → NotBefore w ts → NotBefore w (drop_due now ts)
  drop_due-NotBefore w now [] n = tt
  drop_due-NotBefore w now (t ∷ ts) n = elim (Bool-cases (ltb now t.when)) [
    | inl e ↦ rw e n
    | inr e ↦ rw e (drop_due-NotBefore w now ts n.1)
  ]

  pub drop_due-IsSorted :
      (now : ℕ) (ts : List (TimerEntry P D)) → IsSorted ts → IsSorted (drop_due now ts)
  drop_due-IsSorted now [] h = tt
  drop_due-IsSorted now (t ∷ ts) h = elim (Bool-cases (ltb now t.when)) [
    | inl e ↦ rw e h
    | inr e ↦ rw e (drop_due-IsSorted now ts h.1)
  ]

  pub remaining-IsSorted :
      (blocked : Bool) (now : ℕ) (ts : List (TimerEntry P D))
      → IsSorted ts
      → IsSorted (remaining blocked now ts)
  remaining-IsSorted true now ts h = h
  remaining-IsSorted false now ts h = drop_due-IsSorted now ts h
