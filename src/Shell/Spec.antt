-- ===== src/Shell/Spec.antt =====
-- hw2/shell.pdf: what the shell is to do for each form of a line, written without the code of
-- hw2/myshell.c. Which calls succeed is an argument.
use oscourse24btau.Common.{Bool, true, false, some, List, [], ◌∷◌, ◌++◌, if◌then◌else◌}
use oscourse24btau.Shell.Words.{Word}
use oscourse24btau.Shell.Scan.{IsPlain, AllPlain}
use oscourse24btau.Shell.Process.{
  Mode, reads, truncates, appends, Call, close_read, close_write, stdout_to_pipe, stdin_from_pipe,
  opens, stdin_from_file, stdout_to_file, close_file, execs, exits, Event, makes_pipe, closes_pipe,
  announces, forks, waits, Success,
}

-- The words `|` and `&`.
abbrev pub pipe_word : Word
pipe_word = 124 ∷ []

abbrev pub background_word : Word
background_word = 38 ∷ []

-- A child runs its program, and exits if it cannot.
abbrev pub program : Bool → List Word → List Call
program true argv = execs argv ∷ []
program false argv = execs argv ∷ exits ∷ []

-- Two commands at the two ends of a pipe.
abbrev pub piped : Success → (l r : List Word) → List Event
piped ok l r =
    makes_pipe
    ∷ forks (close_read ∷ stdout_to_pipe ∷ close_write ∷ program ok.exec1 l)
    ∷ forks (close_write ∷ stdin_from_pipe ∷ close_read ∷ program ok.exec2 r)
    ∷ closes_pipe
    ∷ waits 1
    ∷ waits 2
    ∷ []

-- The words that redirect, `<`, `>` and `>>`, the way they open the file, and what becomes the file in the child.
pub data Redirects : Word → Mode → Call → Type 0 where
  from_file : Redirects (60 ∷ []) reads stdin_from_file
  to_file : Redirects (62 ∷ []) truncates stdout_to_file
  to_end : Redirects (62 ∷ 62 ∷ []) appends stdout_to_file

-- A command whose input or output is a file; the child exits if the file cannot be opened.
abbrev pub redirected : Success → Mode → Call → (l : List Word) → (file : Word) → List Event
redirected ok mode call l file =
    forks (
      if ok.open_file
      then opens mode (some file) ∷ call ∷ close_file ∷ program ok.exec1 l
      else opens mode (some file) ∷ exits ∷ [])
    ∷ waits 1
    ∷ []

abbrev pub foreground : Success → List Word → List Event
foreground ok l = forks (program ok.exec1 l) ∷ waits 1 ∷ []

abbrev pub background : Success → List Word → List Event
background ok l = forks (program ok.exec1 l) ∷ announces ∷ []

-- What each form of a line calls for. shell.pdf has no other forms.
pub data Demands (ok : Success) : List Word → List Event → Type 0 where
  no_words : Demands ok [] []
  of_pipe :
      (l r : List Word) → AllPlain l → AllPlain r → Demands ok (l ++ pipe_word ∷ r) (piped ok l r)
  of_file :
      (l : List Word) (file : Word) {x : Word} {mode : Mode} {call : Call}
      → AllPlain l
      → IsPlain file
      → Redirects x mode call
      → Demands ok (l ++ x ∷ file ∷ []) (redirected ok mode call l file)
  of_command :
      (w : Word) (l : List Word) → AllPlain (w ∷ l) → Demands ok (w ∷ l) (foreground ok (w ∷ l))
  of_background :
      (l : List Word) → AllPlain l → Demands ok (l ++ background_word ∷ []) (background ok l)
