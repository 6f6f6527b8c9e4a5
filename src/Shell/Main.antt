-- ===== src/Shell/Main.antt =====
-- hw2/shell.c: the loop over lines; `prepare`, `finalize` and the handler of SIGCHLD of hw2/myshell.c.
-- What `strtok` makes of a line is the argument `words`.
use oscourse24btau.Common.{ℕ, ◌+◌, Bool, true, false, not, List, [], ◌∷◌, ◌++◌, ◌==◌, if◌then◌else◌}
use oscourse24btau.Shell.Words.{Word}
use oscourse24btau.Shell.Process.{Event, Success, process_arglist}

-- One turn of the loop in which `getline` gives a line: whether `malloc` succeeds, and `realloc` for
-- each count, and which calls of `process_arglist` succeed.
pub record Turn : Type 0 where
  pub line : List ℕ
  pub allocates : Bool
  pub reallocates : ℕ → Bool
  pub success : Success

-- The loop that counts the words: whether it gets behind the last one.
unfoldable pub count_words : (ℕ → Bool) → ℕ → List Word → Bool
count_words reallocates count [] = true
count_words reallocates count (w ∷ l) =
    let rest = count_words reallocates (count + 1) l in
    if reallocates (count + 1) then rest else false

abbrev pub finalize : ℕ
finalize = 0

-- What `main` returns behind its loop.
abbrev pub exit_code : ℕ
exit_code = if finalize == 0 then 0 else 1

-- A turn whose words are there, before the turns that do `later`.
unfoldable pub run_words : Success → List Word → List Event × ℕ → List Event × ℕ
unfolding process_arglist
run_words ok [] later = later
run_words ok (w ∷ l) later =
    let (events, go_on) = process_arglist ok (w ∷ l) in
    if go_on == 0 then (events, exit_code) else (events ++ later.0, later.1)

-- The loop of `main`: what the shell does, and its exit code. `getline` fails behind the last turn.
unfoldable pub main_loop : (List ℕ → List Word) → List Turn → List Event × ℕ
unfolding count_words run_words
main_loop words [] = ([], exit_code)
main_loop words (t ∷ turns) =
    let later = main_loop words turns in
    if not t.allocates
    then ([], 1)
    else if not (count_words t.reallocates 0 (words t.line))
    then ([], 1)
    else run_words t.success (words t.line) later

-- Whether each call of `sigaction` succeeds is an argument.
unfoldable pub prepare : Bool → Bool → ℕ
prepare sigchld sigint = if not sigchld then 1 else if not sigint then 1 else 0

unfoldable pub shell_main : Bool → Bool → (List ℕ → List Word) → List Turn → List Event × ℕ
unfolding prepare main_loop
shell_main sigchld sigint words turns =
    if not (prepare sigchld sigint == 0) then ([], 1) else main_loop words turns

-- What `waitpid` answers: a child, or that there is none.
pub data Wait : Type 0 where
  child : ℕ → Wait
  no_child : Wait

-- The handler of SIGCHLD: the children that it reaps.
unfoldable pub sigchld_handler : List Wait → List ℕ
sigchld_handler [] = []
sigchld_handler (no_child ∷ answers) = []
sigchld_handler (child pid ∷ answers) = pid ∷ sigchld_handler answers
