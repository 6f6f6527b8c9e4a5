-- ===== src/Shell/Tests.antt =====
-- hw2/myshell.c, `process_arglist`: runs.
use oscourse24btau.Common.{
  arith, ◌≡◌, ◌≢◌, ◌∙◌, ap, sym, refl, true, false, List, [], ◌∷◌, ◌++◌, some, ◌==◌, ◌||◌, Bool,
  if◌then◌else◌, ℕ,
}
use oscourse24btau.Shell.Main.{
  Turn, shell_main, main_loop, prepare, count_words, run_words, child, no_child, sigchld_handler,
}
use oscourse24btau.Shell.Session.{Session, line}
use oscourse24btau.Shell.Spec.{to_file}
use oscourse24btau.Shell.Words.{Word, same_word, bar, greater, ampersand, last_is, without_last}
use oscourse24btau.Shell.Process.{
  mark, scan, truncates, close_read, close_write, stdout_to_pipe, stdin_from_pipe, opens,
  stdout_to_file, close_file, execs, exits, Event, makes_pipe, closes_pipe, announces, forks, waits,
  Success, run_pipe, run_command, run_marked, process_arglist,
}
use oscourse24btau.Shell.Scan.{IsPlain, last_is-append}
use oscourse24btau.Shell.Laws.{process_pipe, process_redirect, process_command}
use oscourse24btau.Shell.Waiting.{children, waited, children-waited}

abbrev ls : Word
ls = 108 ∷ 115 ∷ []

abbrev wc : Word
wc = 119 ∷ 99 ∷ []

abbrev all_well : Success
all_well = record {
  pipe = true;
  fork1 = true;
  fork2 = true;
  open_file = true;
  exec1 = true;
  exec2 = true;
}

ls-IsPlain : IsPlain ls
ls-IsPlain = record {
  no_bar = λ e. ground (arith, e);
  no_less = λ e. ground (arith, e);
  no_greater = λ e. ground (arith, e);
  no_twice = λ e. ground (arith, e);
  no_ampersand = λ e. ground (arith, e);
}

wc-IsPlain : IsPlain wc
wc-IsPlain = record {
  no_bar = λ e. ground (arith, e);
  no_less = λ e. ground (arith, e);
  no_greater = λ e. ground (arith, e);
  no_twice = λ e. ground (arith, e);
  no_ampersand = λ e. ground (arith, e);
}

process_pipe_example : process_arglist all_well ((ls ∷ []) ++ bar ∷ (wc ∷ [])) ≡ (
  makes_pipe
      ∷ forks (close_read ∷ stdout_to_pipe ∷ close_write ∷ execs (ls ∷ []) ∷ [])
      ∷ forks (close_write ∷ stdin_from_pipe ∷ close_read ∷ execs (wc ∷ []) ∷ [])
      ∷ closes_pipe
      ∷ waits 1
      ∷ waits 2
      ∷ [],
  1,
)
process_pipe_example =
    process_pipe all_well (ls ∷ []) (wc ∷ []) (ls-IsPlain, tt) (wc-IsPlain, tt) refl refl refl

process_redirect_example : process_arglist all_well ((ls ∷ []) ++ greater ∷ wc ∷ []) ≡ (
  forks (opens truncates (some wc) ∷ stdout_to_file ∷ close_file ∷ execs (ls ∷ []) ∷ [])
      ∷ waits 1
      ∷ [],
  1,
)
process_redirect_example =
    process_redirect all_well (ls ∷ []) wc (ls-IsPlain, tt) wc-IsPlain refl to_file

process_command_example :
    (process_arglist all_well (ls ∷ []) ≡ (forks (execs (ls ∷ []) ∷ []) ∷ waits 1 ∷ [], 1))
    × (process_arglist all_well ((ls ∷ []) ++ ampersand ∷ [])
        ≡ (forks (execs (ls ∷ []) ∷ []) ∷ announces ∷ [], 1))
process_command_example = process_command all_well (ls ∷ []) (ls-IsPlain, tt) refl

-- `ls | & > wc`: the special words behind a `|` are passed to the program.
abbrev odd : List Word
odd = ls ∷ bar ∷ ampersand ∷ greater ∷ wc ∷ []

abbrev odd_events : List Event
odd_events =
    makes_pipe
    ∷ forks (close_read ∷ stdout_to_pipe ∷ close_write ∷ execs (ls ∷ []) ∷ [])
    ∷ forks
        (close_write ∷ stdin_from_pipe ∷ close_read ∷ execs (ampersand ∷ greater ∷ wc ∷ []) ∷ [])
    ∷ closes_pipe
    ∷ waits 1
    ∷ waits 2
    ∷ []

odd_test : process_arglist all_well odd ≡ (odd_events, 1)
unfolding process_arglist last_is same_word scan mark run_marked run_pipe
odd_test = refl

odd_last_test : last_is ampersand odd ≡ false
unfolding last_is same_word
odd_last_test = refl

odd_ends : (l : List Word) → odd ≢ l ++ ampersand ∷ []
unfolding last_is same_word
odd_ends l e =
    let background : last_is ampersand odd ≡ true =
      ap (last_is ampersand) e ∙ last_is-append ampersand ampersand l [] in
    absurd (cc (sym odd_last_test ∙ background))

children-waited_example : waited odd_events ≡ children 1 odd_events
children-waited_example = children-waited all_well odd odd_events odd_ends odd_test

-- A line of `&` alone forks a child for a program without a name.
lone_ampersand_test :
    process_arglist all_well (ampersand ∷ []) ≡ (forks (execs [] ∷ []) ∷ announces ∷ [], 1)
unfolding process_arglist last_is without_last same_word scan run_marked run_command
lone_ampersand_test = refl

-- A pipe that ends in `&` is waited for, and nothing is announced.
background_pipe_test : process_arglist all_well (ls ∷ bar ∷ wc ∷ ampersand ∷ []) ≡ (
  makes_pipe
      ∷ forks (close_read ∷ stdout_to_pipe ∷ close_write ∷ execs (ls ∷ []) ∷ [])
      ∷ forks (close_write ∷ stdin_from_pipe ∷ close_read ∷ execs (wc ∷ []) ∷ [])
      ∷ closes_pipe
      ∷ waits 1
      ∷ waits 2
      ∷ [],
  1,
)
unfolding process_arglist last_is without_last same_word scan mark run_marked run_pipe
background_pipe_test = refl

-- When the second fork fails, the first child is not waited for and the pipe stays open.
failed_fork_test : process_arglist (record all_well { fork2 = false }) (ls ∷ bar ∷ wc ∷ []) ≡ (
  makes_pipe ∷ forks (close_read ∷ stdout_to_pipe ∷ close_write ∷ execs (ls ∷ []) ∷ []) ∷ [],
  0,
)
unfolding process_arglist last_is same_word scan mark run_marked run_pipe
failed_fork_test = refl

-- Words between blanks, tabs and line feeds.
abbrev is_blank : ℕ → Bool
is_blank c = (c == 32) || ((c == 9) || (c == 10))

abbrev flush : Word → List Word
flush [] = []
flush (c ∷ w) = (c ∷ w) ∷ []

abbrev split : Word → List ℕ → List Word
split w [] = flush w
split w (c ∷ l) =
    let here = split [] l in
    let on = split (w ++ (c ∷ [])) l in if is_blank c then flush w ++ here else on

-- The lines `ls|wc` with blanks around the bar, an empty one, and ` ls`; the second program fails.
abbrev first_turn : Turn
first_turn = record {
  line = 108 ∷ 115 ∷ 32 ∷ 124 ∷ 32 ∷ 119 ∷ 99 ∷ 10 ∷ [];
  allocates = true;
  reallocates = λ i. true;
  success = all_well;
}

abbrev second_turn : Turn
second_turn = record first_turn { line = 10 ∷ [] }

abbrev third_turn : Turn
third_turn = record first_turn {
  line = 32 ∷ 108 ∷ 115 ∷ 10 ∷ [];
  success = record all_well { exec1 = false };
}

abbrev turns : List Turn
turns = first_turn ∷ second_turn ∷ third_turn ∷ []

session_test : shell_main true true (split []) turns ≡ (
  makes_pipe
      ∷ forks (close_read ∷ stdout_to_pipe ∷ close_write ∷ execs (ls ∷ []) ∷ [])
      ∷ forks (close_write ∷ stdin_from_pipe ∷ close_read ∷ execs (wc ∷ []) ∷ [])
      ∷ closes_pipe
      ∷ waits 1
      ∷ waits 2
      ∷ forks (execs (ls ∷ []) ∷ exits ∷ [])
      ∷ waits 1
      ∷ [],
  0,
)
unfolding shell_main main_loop prepare count_words run_words process_arglist last_is same_word scan
    mark run_marked run_pipe run_command
session_test = refl

reap_test : sigchld_handler (child 7 ∷ child 9 ∷ no_child ∷ child 8 ∷ []) ≡ 7 ∷ 9 ∷ []
unfolding sigchld_handler
reap_test = refl
