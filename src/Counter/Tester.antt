-- ===== src/Counter/Tester.antt =====
-- hw5/tester2.c: the test program of the server and the client. The numbers of `rand`, and the answers
-- of the calls that the client and the server make, are arguments.
use oscourse24btau.Common.{
  ℕ, zero, suc, ◌+◌, ◌%◌, Bool, ◌&&◌, not, Option, none, some, List, [], ◌∷◌, ltb, leb, ◌==◌,
  if◌then◌else◌,
}
use oscourse24btau.Counter.Wire.{Answer, bytes, closed}
use oscourse24btau.Counter.Server.{
  Totals, sent, gave_up, pending, count_printable_characters, no_counts, handle_sigint,
}
use oscourse24btau.Counter.Client.{SendAnswer, ReadAnswer}
use oscourse24btau.Counter.Main.{ClientSetup, End, fails, prints, waiting, client_main}

-- One round of `create_test_file`: the character, from the two numbers of `rand`.
abbrev pub random_char : ℕ → ℕ → ℕ → ℕ
random_char printable_ratio first second =
    if ltb (first % 100) printable_ratio then 32 + second % 95 else second % 32

-- The bytes that `create_test_file` writes. `rand i` is what the call number `i` returns.
unfoldable pub create_test_file : (ℕ → ℕ) → ℕ → ℕ → ℕ → List ℕ
create_test_file rand i zero printable_ratio = []
create_test_file rand i (suc size) printable_ratio =
    random_char printable_ratio (rand i) (rand (i + 1))
    ∷ create_test_file rand (i + 2) size printable_ratio

-- The loop of `count_printable_chars` over the bytes of the file.
unfoldable pub count_from : ℕ → List ℕ → ℕ
count_from count [] = count
count_from count (c ∷ l) = count_from (if leb 32 c && leb c 126 then count + 1 else count) l

unfoldable pub count_printable_chars : List ℕ → ℕ
unfolding count_from
count_printable_chars file = count_from 0 file

-- A run of the client, and what it meets: the answers of its calls, and those of the server's
-- (`replies` is whether its last `send` succeeds).
pub record Meeting : Type 0 where
  pub setup : ClientSetup
  pub first : SendAnswer
  pub reads : List ReadAnswer
  pub sends : List SendAnswer
  pub client_memory : List ℕ
  pub server_memory : List ℕ
  pub answers : List Answer
  pub replies : Bool

-- The client comes to `connect` and it succeeds, so the server gets a connection.
abbrev pub reaches_server : ClientSetup → Bool
reaches_server s = (s.argc == 4) && s.opens_file && s.makes_socket && s.knows_address && s.connects

abbrev pub client_run : Meeting → Answer → End
client_run m reply = (client_main m.setup m.first m.reads m.sends m.client_memory reply).0

-- A client that does not fail before its last `recv` waits there while the server does not reply.
abbrev pub without_reply : End → End
without_reply fails = fails
without_reply (prints n) = waiting
without_reply waiting = waiting

-- How the client ends, from what the server sends back before it closes the connection.
unfoldable pub client_end : Meeting → Totals → End
client_end m totals =
    if reaches_server m.setup
    then elim (count_printable_characters m.server_memory m.answers m.replies totals).0 [
      | sent reply ↦ client_run m (bytes reply)
      | gave_up ↦ client_run m closed
      | pending ↦ without_reply (client_run m closed)
    ]
    else client_run m closed

-- The totals of the server behind it.
unfoldable pub totals_after : Meeting → Totals → Totals
totals_after m totals =
    if reaches_server m.setup
    then (count_printable_characters m.server_memory m.answers m.replies totals).1
    else totals

-- What a test shows: the expected count, what the client prints, its exit code, and the verdict.
pub record Verdict : Type 0 where
  pub expected : Option ℕ
  pub printed : Option ℕ
  pub client_exit_code : ℕ
  pub passed : Bool

-- `run_client`, and the printing of the test: `none` if the client does not end.
unfoldable pub verdict : Option ℕ → (ℕ → Bool) → End → Option Verdict
verdict expected is_good waiting = none
verdict expected is_good fails =
    some (record { expected = expected; printed = none; client_exit_code = 1; passed = is_good 1 })
verdict expected is_good (prints n) =
    some
      (record { expected = expected; printed = some n; client_exit_code = 0; passed = is_good 0 })

-- The tests in the order of `main`, each with what is expected and how its exit code is judged.
unfoldable pub expectations : (ℕ → ℕ → ℕ) → List (Option ℕ × (ℕ → Bool))
expectations rand =
    (some (count_printable_chars (create_test_file (rand 0) 0 1000 80)), (λ code. code == 0))
    ∷ (some (count_printable_chars (create_test_file (rand 1) 0 10000000 50)), (λ code. code == 0))
    ∷ (none, (λ code. code == 0))
    ∷ (none, (λ code. not (code == 0)))
    ∷ (some (count_printable_chars (create_test_file (rand 2) 0 1000 100)), (λ code. code == 0))
    ∷ (some (count_printable_chars (create_test_file (rand 3) 0 1000 0)), (λ code. code == 0))
    ∷ []

-- The tests one after the other, while the server goes on: the verdicts, and the server's totals.
unfoldable pub run_tests :
    List (Option ℕ × (ℕ → Bool)) → List Meeting → Totals → Option (List Verdict × Totals)
unfolding verdict client_end totals_after
run_tests [] ms totals = some ([], totals)
run_tests (t ∷ ts) [] totals = none
run_tests ((expected, is_good) ∷ ts) (m ∷ ms) totals =
    elim (verdict expected is_good (client_end m totals)) [
      | none ↦ none
      | some v ↦ elim (run_tests ts ms (totals_after m totals)) [
        | none ↦ none
        | some (vs, last) ↦ some (v ∷ vs, last)
      ]
    ]

-- The SIGINT after the tests: what the server prints.
abbrev pub at_sigint : Option (List Verdict × Totals) → Option (List Verdict × List (ℕ × ℕ))
at_sigint none = none
at_sigint (some (vs, totals)) = some (vs, handle_sigint totals)

-- `main`: the verdicts, and what the server prints.
unfoldable pub tester_main : (ℕ → ℕ → ℕ) → List Meeting → Option (List Verdict × List (ℕ × ℕ))
tester_main rand ms = at_sigint (run_tests (expectations rand) ms no_counts)
