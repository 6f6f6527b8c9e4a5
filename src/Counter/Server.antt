-- ===== src/Counter/Server.antt =====
-- hw5/pcc_server.c: one connection, and the loop over connections. The answers of `recv` are a list,
-- one for each call.
use oscourse24btau.Common.{
  ℕ, ◌+◌, ◌-◌, ◌%◌, ◌^◌, Bool, true, false, ◌&&◌, List, [], ◌∷◌, ltb, leb, ◌==◌, if◌then◌else◌,
  length, take, Option, none, some, not, zero, suc,
}
use oscourse24btau.Counter.Wire.{htonl, ntohl, overwrite, Answer, bytes, closed, failed}

-- `PRINTABLE_CHAR_MIN`, `PRINTABLE_CHAR_MAX` and `NUM_PRINTABLE_CHARS`
abbrev pub printable_char_min : ℕ
printable_char_min = 32

abbrev pub printable_char_max : ℕ
printable_char_max = 126

abbrev pub num_printable_chars : ℕ
num_printable_chars = 95

-- The array `pcc_total`, or the local one, of 95 entries: indices from 95 on are outside. The code writes
-- at `b - 32` after the test of `b`, and its loops stop at 95.
abbrev pub Totals : Type 0
Totals = ℕ → ℕ

-- The test of one character. A byte of 128 or more is negative as a `char` and fails the first test
-- of the source; as a number it fails the second.
abbrev pub is_printable : ℕ → Bool
is_printable b = leb printable_char_min b && leb b printable_char_max

-- The local variables of `count_printable_characters`.
pub record Locals : Type 0 where
  pub file_size : ℕ
  pub printable_count : ℕ
  pub printable_chars_local : Totals

abbrev pub increment_at : Totals → ℕ → Totals
increment_at t j i = if j == i then (t i + 1) % 2 ^ 32 else t i

abbrev pub count_char : ℕ → Locals → Locals
count_char b s =
    if is_printable b
    then record s {
      printable_chars_local = increment_at s.printable_chars_local (b - printable_char_min);
      printable_count = (s.printable_count + 1) % 2 ^ 32;
    }
    else s

unfoldable pub count_buffer : List ℕ → Locals → Locals
count_buffer [] s = s
count_buffer (b ∷ l) s = count_buffer l (count_char b s)

-- The end of the `while`: the function has returned, it waits in `recv` for more, or the loop is over.
pub data Loop : Type 0 where
  returned : Loop
  waits : Loop
  over : Locals → Loop

-- How many bytes `recv` may deliver: what is left of the file, and no more than the buffer.
abbrev pub to_read : ℕ → ℕ
to_read file_size = if ltb file_size 1024 then file_size else 1024

-- The `while`. An answer with more bytes than `to_read` delivers only the first ones.
unfoldable pub receive_loop : List Answer → Locals → Loop
unfolding count_buffer
receive_loop [] s = if s.file_size == 0 then over s else waits
receive_loop (a ∷ answers) s = elim (s.file_size == 0) [
  | true ↦ over s
  | false ↦ elim a [
    | closed ↦ returned
    | failed ↦ returned
    | bytes l ↦
        let buffer = take (to_read s.file_size) l in
        receive_loop answers (record (count_buffer buffer s) {
          file_size = (s.file_size + 2 ^ 32 - length buffer) % 2 ^ 32;
        })
  ]
]

abbrev pub no_counts : Totals
no_counts i = 0

-- `pcc_total[i] += printable_chars_local[i]`
abbrev pub add_local : Totals → Totals → Totals
add_local pcc_total t i =
    if ltb i num_printable_chars then (pcc_total i + t i) % 2 ^ 32 else pcc_total i

-- How `count_printable_characters` leaves: with the count sent, without, or not yet.
pub data Report : Type 0 where
  sent : List ℕ → Report
  gave_up : Report
  pending : Report

unfoldable pub finish : Bool → Totals → Loop → Report × Totals
finish sends pcc_total returned = (gave_up, pcc_total)
finish sends pcc_total waits = (pending, pcc_total)
finish sends pcc_total (over s) =
    if sends
    then (sent (htonl s.printable_count), add_local pcc_total s.printable_chars_local)
    else (gave_up, pcc_total)

-- `memory` is what `net_file_size` holds by chance; `sends` is whether the last `send` succeeds.
unfoldable pub count_printable_characters : List ℕ → List Answer → Bool → Totals → Report × Totals
unfolding receive_loop finish
count_printable_characters memory [] sends pcc_total = (pending, pcc_total)
count_printable_characters memory (closed ∷ answers) sends pcc_total = (gave_up, pcc_total)
count_printable_characters memory (failed ∷ answers) sends pcc_total = (gave_up, pcc_total)
count_printable_characters memory (bytes l ∷ answers) sends pcc_total = finish sends pcc_total (
    receive_loop answers (record {
      file_size = ntohl (overwrite l memory);
      printable_count = 0;
      printable_chars_local = no_counts;
    }))

-- A connection: what `net_file_size` holds by chance, and the answers of its `recv` and `send`.
pub record Connection : Type 0 where
  pub memory : List ℕ
  pub answers : List Answer
  pub sends : Bool

-- What one call of `accept` answers: a connection, an error, or `EINTR`.
pub data Accept : Type 0 where
  accepted : Connection → Accept
  not_accepted interrupted : Accept

-- The loop of `main`. It stays with a connection that is pending, and in `accept` without an answer.
unfoldable pub serve : List Accept → Totals → Totals
unfolding count_printable_characters
serve [] pcc_total = pcc_total
serve (interrupted ∷ l) pcc_total = pcc_total
serve (not_accepted ∷ l) pcc_total = serve l pcc_total
serve (accepted c ∷ l) pcc_total =
    let (report, totals) = count_printable_characters c.memory c.answers c.sends pcc_total in
    elim report [ sent count ↦ serve l totals | gave_up ↦ serve l totals | pending ↦ totals ]

-- The number of arguments, and which calls of the set-up succeed.
pub record ServerSetup : Type 0 where
  pub argc : ℕ
  pub handles_sigint : Bool
  pub makes_socket : Bool
  pub sets_options : Bool
  pub binds : Bool
  pub listens : Bool

-- `main`: the totals at the end of its loop, or `none` if it exits before with code 1.
unfoldable pub server_main : ServerSetup → List Accept → Option Totals
unfolding serve
server_main s l =
    if not (s.argc == 2)
    then none
    else if not s.handles_sigint
    then none
    else if not s.makes_socket
    then none
    else if not s.sets_options
    then none
    else if not s.binds
    then none
    else if not s.listens
    then none
    else some (serve l no_counts)

-- What the handler of SIGINT prints: each character with its total. `i` is the loop's variable, with
-- `n` rounds left.
unfoldable pub print_totals : ℕ → ℕ → Totals → List (ℕ × ℕ)
print_totals zero i pcc_total = []
print_totals (suc n) i pcc_total =
    (i + printable_char_min, pcc_total i) ∷ print_totals n (i + 1) pcc_total

unfoldable pub handle_sigint : Totals → List (ℕ × ℕ)
unfolding print_totals
handle_sigint pcc_total = print_totals num_printable_chars 0 pcc_total
