-- ===== src/Shell/Process.antt =====
-- hw2/myshell.c, `process_arglist`: what it asks of the operating system. Which calls succeed is an
-- argument; a line becomes the list of what the parent does, with the calls of each child.
use oscourse24btau.Common.{
  ℕ, ◌+◌, Bool, not, Option, none, some, List, [], ◌∷◌, if◌then◌else◌, take, drop,
}
use oscourse24btau.Shell.Words.{
  Word, same_word, bar, less, greater, twice_greater, ampersand, last_is, without_last, word_at,
}

-- The variables `pipe_index` and so on; -1 is `none`.
pub record Marks : Type 0 where
  pub pipe_index : Option ℕ
  pub input_redirect_index : Option ℕ
  pub output_redirect_index : Option ℕ
  pub output_append_index : Option ℕ

abbrev pub no_marks : Marks
no_marks = record {
  pipe_index = none;
  input_redirect_index = none;
  output_redirect_index = none;
  output_append_index = none;
}

-- One turn of the loop over the words, and the loop from the word `i`.
unfoldable pub mark : ℕ → Word → Marks → Marks
unfolding same_word
mark i w m =
    if same_word w bar
    then record m { pipe_index = some i }
    else if same_word w less
    then record m { input_redirect_index = some i }
    else if same_word w greater
    then record m { output_redirect_index = some i }
    else if same_word w twice_greater
    then record m { output_append_index = some i }
    else m

unfoldable pub scan : ℕ → List Word → Marks → Marks
unfolding mark
scan i [] m = m
scan i (w ∷ l) m = scan (i + 1) l (mark i w m)

-- `O_RDONLY`, `O_WRONLY | O_CREAT | O_TRUNC`, `O_WRONLY | O_CREAT | O_APPEND`
pub data Mode : Type 0 where
  reads truncates appends : Mode

-- The calls of a child. The argument of `execs` is the vector up to its NULL.
pub data Call : Type 0 where
  close_read close_write stdout_to_pipe stdin_from_pipe : Call
  opens : Mode → Option Word → Call
  stdin_from_file stdout_to_file close_file : Call
  execs : List Word → Call
  exits : Call

-- What the parent does; its children count from 1.
pub data Event : Type 0 where
  makes_pipe closes_pipe announces : Event
  forks : List Call → Event
  waits : ℕ → Event

-- Which calls succeed.
pub record Success : Type 0 where
  pub pipe : Bool
  pub fork1 : Bool
  pub fork2 : Bool
  pub open_file : Bool
  pub exec1 : Bool
  pub exec2 : Bool

abbrev pub exec_child : Bool → List Word → List Call
exec_child succeeds argv = execs argv ∷ (if succeeds then [] else exits ∷ [])

-- The branch of `|`.
unfoldable pub run_pipe : Success → List Word → ℕ → List Event × ℕ
run_pipe ok args i =
    if not ok.pipe
    then ([], 0)
    else if not ok.fork1
    then (makes_pipe ∷ [], 0)
    else let first =
        close_read ∷ stdout_to_pipe ∷ close_write ∷ exec_child ok.exec1 (take i args) in
      if not ok.fork2
      then (makes_pipe ∷ forks first ∷ [], 0)
      else let second =
          close_write ∷ stdin_from_pipe ∷ close_read ∷ exec_child ok.exec2 (drop (i + 1) args) in
        (makes_pipe ∷ forks first ∷ forks second ∷ closes_pipe ∷ waits 1 ∷ waits 2 ∷ [], 1)

abbrev pub redirection : Mode → Call
redirection reads = stdin_from_file
redirection truncates = stdout_to_file
redirection appends = stdout_to_file

-- The branches of `<`, `>` and `>>`.
unfoldable pub run_redirect : Success → Mode → List Word → ℕ → List Event × ℕ
unfolding word_at
run_redirect ok mode args i =
    if not ok.fork1
    then ([], 0)
    else let opening = opens mode (word_at args (i + 1)) in
      let child =
        if ok.open_file
        then opening ∷ redirection mode ∷ close_file ∷ exec_child ok.exec1 (take i args)
        else opening ∷ exits ∷ [] in
      (forks child ∷ waits 1 ∷ [], 1)

-- The last branch.
unfoldable pub run_command : Success → Bool → List Word → List Event × ℕ
run_command ok bg_process args =
    if not ok.fork1
    then ([], 0)
    else (forks (exec_child ok.exec1 args) ∷ (if bg_process then announces else waits 1) ∷ [], 1)

-- The choice of the branch.
unfoldable pub run_marked : Success → Bool → List Word → Marks → List Event × ℕ
unfolding run_pipe run_redirect run_command
run_marked ok bg_process args m = elim m.pipe_index [
  | some i ↦ run_pipe ok args i
  | none ↦ elim m.input_redirect_index [
    | some i ↦ run_redirect ok reads args i
    | none ↦ elim m.output_redirect_index [
      | some i ↦ run_redirect ok truncates args i
      | none ↦ elim m.output_append_index [
        | some i ↦ run_redirect ok appends args i
        | none ↦ run_command ok bg_process args
      ]
    ]
  ]
]

unfoldable pub process_arglist : Success → List Word → List Event × ℕ
unfolding last_is without_last scan run_marked
process_arglist ok arglist =
    let bg_process = last_is ampersand arglist in
    let args = if bg_process then without_last arglist else arglist in
    run_marked ok bg_process args (scan 0 args no_marks)
