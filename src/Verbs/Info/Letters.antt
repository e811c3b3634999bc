-- ===== src/Verbs/Info/Letters.antt =====
-- The letters that `verb_info` writes, and the room for them: src/verbs.c.
use lambda_moo_plus_foo.Prelude.{
  ltb, if◌then◌else◌, ltb→lt, ltb-false, Bool-cases, length, ℕ, ◌+◌, ◌≤◌, ◌≡◌, refl, ◌↔◌, inl, inr,
  Bool, true, false, not, ◌&&◌, ◌||◌, none, arith,
}
use lambda_moo_plus_foo.Text.{Text}
use lambda_moo_plus_foo.Verbs.Info.{
  vf_read, vf_write, vf_exec, vf_debug, vf_not_o, has_flag, letter, last_letter, letters_of,
  verb_letters, fitting, written_letters,
}

length-letter :
    (b : Bool) (c : ℕ) (s : Text) → length (letter b c s) ≡ (if b then 1 else 0) + length s
length-letter true c s = omega arith
length-letter false c s = omega arith

fitting-none : (s : Text) → (fitting s ≡ none) ↔ (5 ≤ length s)
fitting-none s = elim (Bool-cases (ltb (length s) 5)) [
  | inl e ↦ (λ h. cc (rw e at h), λ h. absurd (omega (arith, ltb→lt _ _ e)))
  | inr e ↦ (λ h. ltb-false _ _ e, λ h. rw e refl)
]

length-last_letter :
    (blocked not_o : Bool)
    → length (last_letter blocked not_o)
      ≡ (if (not blocked && not not_o) || (blocked && not_o) then 1 else 0)
length-last_letter false false = refl
length-last_letter true true = refl
length-last_letter false true = refl
length-last_letter true false = refl

five_letters :
    (r w x d e : Bool) (s : Text)
    → length s ≡ (if e then 1 else 0)
    → (5 ≤ length (letters_of r w x d s)) ↔ (((r && w) && (x && d) && e) ≡ true)
five_letters true true true true true s h = (λ k. refl, λ k. omega arith)
five_letters true true true true false s h = (λ k. absurd (omega arith), λ k. cc)
five_letters true true true false e s h = (λ k. absurd (ground arith), λ k. cc)
five_letters true true false d e s h =
    (λ k. absurd (ground (arith, length-letter d b'd' s)), λ k. cc)
five_letters true false x d e s h = (
  λ k. absurd (ground (arith, length-letter x b'x' (letter d b'd' s), length-letter d b'd' s)),
  λ k. cc,
)
five_letters false w x d e s h = (
  λ k. absurd (
      ground (
        arith,
        length-letter w b'w' (letter x b'x' (letter d b'd' s)),
        length-letter x b'x' (letter d b'd' s),
        length-letter d b'd' s,
      )),
  λ k. cc,
)

-- The letters fit into the copy of "xxxx" unless a verb has all four permissions and a fifth letter,
-- "o" or in the other notation "b"; then the zero behind them is written past its end.
pub written_letters-none :
    (blocked : Bool) (flags : ℕ)
    → (written_letters blocked flags ≡ none) ↔ (
        ((has_flag flags vf_read && has_flag flags vf_write)
          && (has_flag flags vf_exec && has_flag flags vf_debug)
          && ((not blocked && not (has_flag flags vf_not_o))
              || (blocked && has_flag flags vf_not_o)))
        ≡ true)
unfolding written_letters verb_letters
written_letters-none blocked flags =
    let (a, b) = fitting-none (verb_letters blocked flags) in
    let (c, d) =
      five_letters (has_flag flags vf_read) (has_flag flags vf_write) (has_flag flags vf_exec)
        (has_flag flags vf_debug)
        ((not blocked && not (has_flag flags vf_not_o)) || (blocked && has_flag flags vf_not_o))
        (last_letter blocked (has_flag flags vf_not_o)) (length-last_letter _ _) in
    (λ h. c (a h), λ h. b (d h))
