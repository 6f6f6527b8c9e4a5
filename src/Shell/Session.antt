-- ===== src/Shell/Session.antt =====
-- hw2: a whole session of the shell.
use oscourse24btau.Common.{ℕ, ◌+◌, ◌≡◌, refl, ◌∙◌, ap, Bool, true, List, [], ◌∷◌, ◌++◌}
use oscourse24btau.Shell.Words.{Word}
use oscourse24btau.Shell.Process.{Event, Success, process_arglist}
use oscourse24btau.Shell.Spec.{Demands, no_words, of_pipe, of_file, of_command, of_background}
use oscourse24btau.Shell.Laws.{process_pipe, process_redirect, process_command}
use oscourse24btau.Shell.Main.{Turn, count_words, run_words, main_loop, prepare, shell_main}

-- The pipe and the forks succeed; files and programs may fail.
pub record IsForking (ok : Success) : Type 0 where
  pub pipe : ok.pipe ≡ true
  pub fork1 : ok.fork1 ≡ true
  pub fork2 : ok.fork2 ≡ true

-- The lines of a session and what they call for, one after the other. The memory suffices and the
-- forks succeed.
pub data Session (words : List ℕ → List Word) : List Turn → List Event → Type 0 where
  no_line : Session words [] []
  line :
      {t : Turn} {turns : List Turn} {events others : List Event}
      → t.allocates ≡ true
      → ((i : ℕ) → t.reallocates i ≡ true)
      → IsForking t.success
      → Demands t.success (words t.line) events
      → Session words turns others
      → Session words (t ∷ turns) (events ++ others)

count_words_lem :
    (reallocates : ℕ → Bool) (count : ℕ) (l : List Word)
    → ((i : ℕ) → reallocates i ≡ true)
    → count_words reallocates count l ≡ true
unfolding count_words
count_words_lem reallocates count [] all = refl
count_words_lem reallocates count (w ∷ l) all =
    rw (all (count + 1)) (count_words_lem reallocates (count + 1) l all)

-- A line with words that is processed to its end.
run_words-word :
    (ok : Success) (w : Word) (l : List Word) {events : List Event} (later : List Event × ℕ)
    → process_arglist ok (w ∷ l) ≡ (events, 1)
    → run_words ok (w ∷ l) later ≡ (events ++ later.0, later.1)
unfolding run_words
run_words-word ok w l later e = rw (run_words, e) refl

run_words-append :
    (ok : Success) (l : List Word) (x : Word) (r : List Word) {events : List Event}
    (later : List Event × ℕ)
    → process_arglist ok (l ++ x ∷ r) ≡ (events, 1)
    → run_words ok (l ++ x ∷ r) later ≡ (events ++ later.0, later.1)
run_words-append ok [] x r later e = run_words-word ok x r later e
run_words-append ok (w ∷ l) x r later e = run_words-word ok w (l ++ x ∷ r) later e

run_words_lem :
    {ok : Success} {l : List Word} {events : List Event} (later : List Event × ℕ)
    → IsForking ok
    → Demands ok l events
    → run_words ok l later ≡ (events ++ later.0, later.1)
unfolding run_words
run_words_lem later f no_words = refl
run_words_lem {ok} later f (of_pipe l r p q) =
    run_words-append ok l _ r later (process_pipe ok l r p q f.pipe f.fork1 f.fork2)
run_words_lem {ok} later f (of_file l file p q x) =
    run_words-append ok l _ (file ∷ []) later (process_redirect ok l file p q f.fork1 x)
run_words_lem {ok} later f (of_command w l p) =
    run_words-word ok w l later (process_command ok (w ∷ l) p f.fork1).0
run_words_lem {ok} later f (of_background l p) =
    run_words-append ok l _ [] later (process_command ok l p f.fork1).1

main_loop_lem :
    (words : List ℕ → List Word) {turns : List Turn} {events : List Event}
    → Session words turns events
    → main_loop words turns ≡ (events, 0)
unfolding main_loop
main_loop_lem words no_line = refl
main_loop_lem words (line {t} {others} a r f d more) =
    simp (main_loop, a, count_words_lem t.reallocates 0 (words t.line) r)
      (ap (run_words t.success (words t.line)) (main_loop_lem words more)
        ∙ run_words_lem (others, 0) f d)

pub session :
    (words : List ℕ → List Word) (turns : List Turn) (events : List Event)
    → Session words turns events
    → shell_main true true words turns ≡ (events, 0)
unfolding shell_main prepare
session words turns events s = main_loop_lem words s
