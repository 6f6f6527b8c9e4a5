-- ===== src/Shell/Laws.antt =====
-- hw2/myshell.c, `process_arglist`: what the shell makes of each form of a line.
use oscourse24btau.Common.{◌≡◌, refl, ◌∙◌, ap, Bool, true, false, List, [], ◌∷◌, ◌++◌, length}
use oscourse24btau.Shell.Words.{
  Word, same_word, bar, less, greater, twice_greater, ampersand, last_is, word_at,
}
use oscourse24btau.Shell.Process.{
  no_marks, mark, scan, Mode, Call, reads, truncates, appends, Success, exec_child, redirection,
  run_pipe, run_redirect, run_command, run_marked, process_arglist,
}
use oscourse24btau.Shell.Spec.{
  pipe_word, background_word, program, piped, Redirects, from_file, to_file, to_end, redirected,
  foreground, background,
}
use oscourse24btau.Shell.Scan.{
  IsPlain, AllPlain, scan-one, scan-AllPlain, last_is-append, last_is-plain, without_last-append,
  take-length, drop-length, word_at-length,
}

pub in_front :
    (ok : Success) (args : List Word)
    → last_is ampersand args ≡ false
    → process_arglist ok args ≡ run_marked ok false args (scan 0 args no_marks)
unfolding process_arglist
in_front ok args e = rw (process_arglist, e) refl

behind_mark :
    (x : Word) (l r : List Word)
    → same_word x ampersand ≡ false
    → AllPlain r
    → last_is ampersand (l ++ x ∷ r) ≡ false
unfolding last_is
behind_mark x l [] e p = last_is-append ampersand x l [] ∙ e
behind_mark x l (y ∷ r) e p = last_is-append ampersand x l (y ∷ r) ∙ last_is-plain (y ∷ r) p

-- One mark between plain words: the branch of the mark, at its place.
marked :
    (ok : Success) (l r : List Word) (x : Word)
    → same_word x ampersand ≡ false
    → AllPlain l
    → AllPlain r
    → process_arglist ok (l ++ x ∷ r)
      ≡ run_marked ok false (l ++ x ∷ r) (mark (length l) x no_marks)
marked ok l r x e p q =
    in_front ok (l ++ x ∷ r) (behind_mark x l r e q)
    ∙ ap (run_marked ok false (l ++ x ∷ r)) (scan-one l r x no_marks p q)

exec_child-program : (succeeds : Bool) (l : List Word) → exec_child succeeds l ≡ program succeeds l
exec_child-program true l = refl
exec_child-program false l = refl

-- A line with one `|` between plain words runs the words before it with their output to a pipe and
-- the words behind it with their input from the pipe, closes its own ends of the pipe and waits for
-- both, when the pipe and the two forks succeed; a child whose program cannot be run exits.
pub process_pipe :
    (ok : Success) (l r : List Word)
    → AllPlain l
    → AllPlain r
    → ok.pipe ≡ true
    → ok.fork1 ≡ true
    → ok.fork2 ≡ true
    → process_arglist ok (l ++ pipe_word ∷ r) ≡ (piped ok l r, 1)
unfolding run_marked run_pipe mark same_word
process_pipe ok l r p q made forked1 forked2 =
    marked ok l r bar refl p q
    ∙ simp
        (
          made,
          forked1,
          forked2,
          take-length l (bar ∷ r),
          drop-length bar l r,
          exec_child-program ok.exec1 l,
          exec_child-program ok.exec2 r,
        )
        refl

run_redirect-redirected :
    (ok : Success) (mode : Mode) (x file : Word) (l : List Word) {call : Call}
    → ok.fork1 ≡ true
    → redirection mode ≡ call
    → run_redirect ok mode (l ++ x ∷ file ∷ []) (length l) ≡ (redirected ok mode call l file, 1)
unfolding run_redirect word_at
run_redirect-redirected ok mode x file l forked same =
    simp
      (
        forked,
        take-length l (x ∷ file ∷ []),
        word_at-length x l (file ∷ []),
        same,
        exec_child-program ok.exec1 l,
      )
      refl

-- A line of plain words, one of `<`, `>` and `>>`, and a file whose name is a plain word runs the
-- words with their input from the file, or with their output to it, cut or extended, and waits for the
-- child, when the fork succeeds; the child exits if the file cannot be opened or the program cannot be
-- run.
pub process_redirect :
    (ok : Success) (l : List Word) (file : Word)
    → AllPlain l
    → IsPlain file
    → ok.fork1 ≡ true
    → {x : Word} {mode : Mode} {call : Call} → Redirects x mode call
    → process_arglist ok (l ++ x ∷ file ∷ []) ≡ (redirected ok mode call l file, 1)
unfolding run_marked mark same_word
process_redirect ok l file p q forked from_file =
    marked ok l (file ∷ []) less refl p (q, tt)
    ∙ run_redirect-redirected ok reads less file l forked refl
process_redirect ok l file p q forked to_file =
    marked ok l (file ∷ []) greater refl p (q, tt)
    ∙ run_redirect-redirected ok truncates greater file l forked refl
process_redirect ok l file p q forked to_end =
    marked ok l (file ∷ []) twice_greater refl p (q, tt)
    ∙ run_redirect-redirected ok appends twice_greater file l forked refl

-- A line of plain words runs them and waits for the child; with `&` behind them it does not wait, and
-- `&` is not passed to the program. Both when the fork succeeds; a child whose program cannot be run
-- exits.
pub process_command :
    (ok : Success) (l : List Word)
    → AllPlain l
    → ok.fork1 ≡ true
    → (process_arglist ok l ≡ (foreground ok l, 1))
      × (process_arglist ok (l ++ background_word ∷ []) ≡ (background ok l, 1))
unfolding run_marked run_command process_arglist
process_command ok l p forked = (
  in_front ok l (last_is-plain l p)
      ∙ ap (run_marked ok false l) (scan-AllPlain l 0 no_marks p)
      ∙ simp (forked, exec_child-program ok.exec1 l) refl,
  rw (last_is-append ampersand ampersand l [], without_last-append ampersand l)
      (ap (run_marked ok true l) (scan-AllPlain l 0 no_marks p)
        ∙ simp (forked, exec_child-program ok.exec1 l) refl),
)
