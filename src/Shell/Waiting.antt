-- ===== src/Shell/Waiting.antt =====
-- hw2/myshell.c, `process_arglist`: the children of a line, and which of them it waits for.
use oscourse24btau.Common.{
  ℕ, ◌+◌, ◌≡◌, ◌≢◌, ◌++◌, refl, sym, ◌∙◌, false, inl, inr, Bool-cases, Option-cases, List, [], ◌∷◌,
  arith,
}
use mathlib.Core.Path.{subst}
use oscourse24btau.Shell.Words.{Word, ampersand, last_is}
use oscourse24btau.Shell.Process.{
  Marks, no_marks, scan, Mode, reads, truncates, appends, Event, makes_pipe, closes_pipe, announces,
  forks, waits, Success, run_pipe, run_redirect, run_command, run_marked, process_arglist,
}
use oscourse24btau.Shell.Scan.{last_is-snoc}
use oscourse24btau.Shell.Spec.{background_word}
use oscourse24btau.Shell.Laws.{in_front}

-- The children of a line, by their numbers from `n` on, and those that the parent waits for.
unfoldable pub children : ℕ → List Event → List ℕ
children n [] = []
children n (forks c ∷ l) = n ∷ children (n + 1) l
children n (makes_pipe ∷ l) = children n l
children n (closes_pipe ∷ l) = children n l
children n (announces ∷ l) = children n l
children n (waits i ∷ l) = children n l

unfoldable pub waited : List Event → List ℕ
waited [] = []
waited (waits i ∷ l) = i ∷ waited l
waited (forks c ∷ l) = waited l
waited (makes_pipe ∷ l) = waited l
waited (closes_pipe ∷ l) = waited l
waited (announces ∷ l) = waited l

AllWaited : List Event × ℕ → Type 0
AllWaited r = r.1 ≡ 1 → waited r.0 ≡ children 1 r.0

pipe-AllWaited : (ok : Success) (args : List Word) (i : ℕ) → AllWaited (run_pipe ok args i)
unfolding AllWaited run_pipe waited children
pipe-AllWaited ok args i = elim (Bool-cases ok.pipe) [
  | inr a ↦ simp a (λ e. absurd (ground (arith, e)))
  | inl a ↦ elim (Bool-cases ok.fork1) [
    | inr b ↦ simp (a, b) (λ e. absurd (ground (arith, e)))
    | inl b ↦ elim (Bool-cases ok.fork2) [
      | inr c ↦ simp (a, b, c) (λ e. absurd (ground (arith, e)))
      | inl c ↦ simp (a, b, c) (λ e. refl)
    ]
  ]
]

redirect-AllWaited :
    (ok : Success) (mode : Mode) (args : List Word) (i : ℕ)
    → AllWaited (run_redirect ok mode args i)
unfolding AllWaited run_redirect waited children
redirect-AllWaited ok mode args i = elim (Bool-cases ok.fork1) [
  | inr b ↦ simp b (λ e. absurd (ground (arith, e)))
  | inl b ↦ simp b (λ e. refl)
]

command-AllWaited : (ok : Success) (args : List Word) → AllWaited (run_command ok false args)
unfolding AllWaited run_command waited children
command-AllWaited ok args = elim (Bool-cases ok.fork1) [
  | inr b ↦ simp b (λ e. absurd (ground (arith, e)))
  | inl b ↦ simp b (λ e. refl)
]

marked-AllWaited :
    (ok : Success) (args : List Word) (m : Marks) → AllWaited (run_marked ok false args m)
unfolding run_marked
marked-AllWaited ok args m = elim (Option-cases m.pipe_index) [
  | inr (i, e) ↦ rw (run_marked, e) (pipe-AllWaited ok args i)
  | inl a ↦ elim (Option-cases m.input_redirect_index) [
    | inr (i, e) ↦ rw (run_marked, a, e) (redirect-AllWaited ok reads args i)
    | inl b ↦ elim (Option-cases m.output_redirect_index) [
      | inr (i, e) ↦ rw (run_marked, a, b, e) (redirect-AllWaited ok truncates args i)
      | inl c ↦ elim (Option-cases m.output_append_index) [
        | inr (i, e) ↦ rw (run_marked, a, b, c, e) (redirect-AllWaited ok appends args i)
        | inl d ↦ rw (run_marked, a, b, c, d) (command-AllWaited ok args)
      ]
    ]
  ]
]

-- Whatever the words are and whichever calls fail: when a line that does not end in `&` is processed
-- to the end (the result is 1), the shell has waited for each child that it made, once and in the order
-- in which it made them.
pub children-waited :
    (ok : Success) (args : List Word) (events : List Event)
    → ((l : List Word) → args ≢ l ++ background_word ∷ [])
    → process_arglist ok args ≡ (events, 1)
    → waited events ≡ children 1 events
unfolding AllWaited
children-waited ok args events not_last run =
    let e : last_is ampersand args ≡ false = elim (Bool-cases (last_is ampersand args)) [
      | inl q ↦ let (l, q') = last_is-snoc ampersand args q in absurd (not_last l q')
      | inr q ↦ q
    ] in
    let same : run_marked ok false args (scan 0 args no_marks) ≡ (events, 1) =
      sym (in_front ok args e) ∙ run in
    subst AllWaited same (marked-AllWaited ok args (scan 0 args no_marks)) refl
