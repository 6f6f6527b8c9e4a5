-- ===== src/Counter/Tests.antt =====
-- hw5/pcc_server.c: runs of the server.
use oscourse24btau.Common.{
  some, false, ℕ, ◌+◌, ◌*◌, ◌%◌, ◌^◌, ◌≡◌, ◌<◌, refl, true, List, [], ◌∷◌, ◌++◌, arith,
}
use oscourse24btau.Counter.Wire.{htonl, ntohl, overwrite, Answer, bytes, closed}
use oscourse24btau.Counter.Server.{
  Totals, sent, gave_up, receive_loop, count_buffer, finish, no_counts, count_printable_characters,
  Connection, Accept, accepted, not_accepted, interrupted, serve, handle_sigint,
}
use oscourse24btau.Counter.Count.{printables, occurrences}
use oscourse24btau.Counter.Laws.{Chops, no_piece, piece}
use oscourse24btau.Counter.Contract.{at_closed, received, broken_off}
use oscourse24btau.Counter.Client.{
  SendAnswer, took, ReadAnswer, chunk, at_end, all_sent, send_file, copy_loop, send_loop, Reads,
  end_of_file, next_chunk, client_sends,
}
use oscourse24btau.Counter.Serve.{
  full, broken, Sessions, no_session, session, skipped, stopped, histogram, sigint-histogram,
}
use oscourse24btau.Counter.Interrupt.{receives, totals_within, interrupted-histogram}
use oscourse24btau.Counter.Main.{ClientSetup, IsReady, prints, fails, print_count, client_main}
use oscourse24btau.Counter.Whole.{file_counted}

-- `Hi`, a line feed and `H`
abbrev text : List ℕ
text = 72 ∷ 105 ∷ 10 ∷ 72 ∷ []

-- They arrive as three bytes and one.
abbrev pieces : List Answer
pieces = bytes (72 ∷ 105 ∷ 10 ∷ []) ∷ bytes (72 ∷ []) ∷ []

text-Chops : Chops text pieces
text-Chops =
    piece (72 ∷ 105 ∷ 10 ∷ []) (omega arith) (omega arith)
      (piece (72 ∷ []) (omega arith) (omega arith) no_piece)

start-Chops : Chops (72 ∷ []) (bytes (72 ∷ []) ∷ [])
start-Chops = piece (72 ∷ []) (omega arith) (omega arith) no_piece

abbrev by_chance : List ℕ
by_chance = 9 ∷ 9 ∷ 9 ∷ 9 ∷ []

reply_test :
    (count_printable_characters by_chance (bytes (htonl 4) ∷ pieces) true no_counts).0
    ≡ sent (0 ∷ 0 ∷ 0 ∷ 3 ∷ [])
unfolding count_printable_characters receive_loop count_buffer finish htonl ntohl
reply_test = refl

-- A `recv` that gets two of the four bytes of the size takes the others from the stack.
short_size_test : ntohl (overwrite (0 ∷ 0 ∷ []) by_chance) ≡ 9 * 256 + 9
unfolding ntohl
short_size_test = refl

received_example :
    (t' : Totals) × (count_printable_characters by_chance
        (bytes (htonl 4) ∷ pieces ++ [])
        true
        no_counts
      ≡ (sent (htonl (printables text)), t'))
    × ((i : ℕ) → i < 95 → t' i ≡ (no_counts i + occurrences (i + 32) text) % 2 ^ 32)
received_example = received by_chance text pieces [] no_counts (omega arith) text-Chops

broken_off_example :
    count_printable_characters by_chance
      (bytes (htonl 4) ∷ (bytes (72 ∷ []) ∷ []) ++ closed ∷ [])
      true
      no_counts
    ≡ (gave_up, no_counts)
broken_off_example =
    broken_off by_chance (72 ∷ []) 4 (bytes (72 ∷ []) ∷ []) [] closed true no_counts (omega arith)
      (omega arith) start-Chops at_closed refl

abbrev good_connection : Connection
good_connection = record {
  memory = by_chance;
  answers = bytes (htonl 4) ∷ pieces ++ [];
  sends = true;
}

abbrev bad_connection : Connection
bad_connection = record {
  memory = by_chance;
  answers = bytes (htonl 4) ∷ (bytes (72 ∷ []) ∷ []) ++ closed ∷ [];
  sends = true;
}

abbrev good : Accept
good = accepted good_connection

abbrev bad : Accept
bad = accepted bad_connection

three-Sessions : Sessions (good ∷ bad ∷ good ∷ []) (text ++ [] ++ text ++ [])
three-Sessions =
    let whole = full by_chance text pieces [] (omega arith) text-Chops in
    session whole (
      session
        (broken by_chance (72 ∷ []) 4 (bytes (72 ∷ []) ∷ []) [] closed true (omega arith)
          (omega arith) start-Chops at_closed refl)
        (session whole no_session))

-- The upper case H is the 40th character, and there are four of them.
serve_test : serve (good ∷ bad ∷ good ∷ []) no_counts 40 ≡ 4
unfolding serve count_printable_characters receive_loop count_buffer finish htonl ntohl
serve_test = refl

abbrev reads : List ReadAnswer
reads = chunk (72 ∷ 105 ∷ 10 ∷ []) ∷ chunk (72 ∷ []) ∷ at_end ∷ []

abbrev sends : List SendAnswer
sends = took 2 ∷ took 1 ∷ took 1 ∷ took 9 ∷ []

text-Reads : Reads text reads
text-Reads =
    next_chunk (72 ∷ 105 ∷ 10 ∷ []) (omega arith) (omega arith)
      (next_chunk (72 ∷ []) (omega arith) (omega arith) (end_of_file []))

client_sends_example :
    (left : List SendAnswer) × (send_file 4 (took 4) reads sends ≡ all_sent left (htonl 4 ++ text))
client_sends_example =
    client_sends text reads sends (omega arith) text-Reads
      (omega arith, (omega arith, (omega arith, (omega arith, tt)))) (omega arith)

client_test :
    send_file 4 (took 4) reads sends
    ≡ all_sent (took 9 ∷ []) (0 ∷ 0 ∷ 0 ∷ 4 ∷ 72 ∷ 105 ∷ 10 ∷ 72 ∷ [])
unfolding send_file copy_loop send_loop htonl
client_test = refl

-- A `send` of the size that takes two bytes is not repeated: the text follows at once.
short_send_test :
    send_file 4 (took 2) reads sends ≡ all_sent (took 9 ∷ []) (0 ∷ 0 ∷ 72 ∷ 105 ∷ 10 ∷ 72 ∷ [])
unfolding send_file copy_loop send_loop htonl
short_send_test = refl

-- A failed `accept`, a connection, and an interruption.
abbrev short_run : List Accept
short_run = not_accepted ∷ good ∷ interrupted ∷ bad ∷ []

short_run-Sessions : Sessions short_run (text ++ [])
short_run-Sessions =
    skipped (session (full by_chance text pieces [] (omega arith) text-Chops) stopped)

sigint-histogram_example : handle_sigint (serve short_run no_counts) ≡ histogram 95 32 (text ++ [])
sigint-histogram_example = sigint-histogram short_run (text ++ []) short_run-Sessions (omega arith)

-- SIGINT after eight rounds: the upper case H is the ninth character.
interrupted-histogram_example :
    handle_sigint (
      totals_within 8 true
        (serve (good ∷ []) no_counts)
        (receives by_chance (bytes (htonl 4) ∷ pieces ++ [])))
    ≡ histogram 8 32 ((text ++ []) ++ text) ++ histogram 87 40 (text ++ [])
interrupted-histogram_example =
    interrupted-histogram (good ∷ []) (text ++ []) by_chance text pieces [] 8
      (session (full by_chance text pieces [] (omega arith) text-Chops) no_session) text-Chops
      (omega arith) (omega arith)

abbrev setup : ClientSetup
setup = record {
  argc = 4;
  opens_file = true;
  makes_socket = true;
  knows_address = true;
  connects = true;
  file_size = some 4;
}

setup-IsReady : IsReady setup 4
setup-IsReady = record {
  argc = refl;
  file = refl;
  socket = refl;
  address = refl;
  connection = refl;
  size = refl;
}

file_counted_example :
    (reply : List ℕ) × (t' : Totals) × (count_printable_characters by_chance
        (bytes (htonl 4) ∷ pieces ++ [])
        true
        no_counts
      ≡ (sent reply, t'))
    × ((i : ℕ) → i < 95 → t' i ≡ (no_counts i + occurrences (i + 32) text) % 2 ^ 32)
    × (client_main setup (took 4) reads sends by_chance (bytes reply)
        ≡ (prints (printables text), htonl 4 ++ text))
file_counted_example =
    file_counted setup text reads sends pieces [] by_chance by_chance no_counts setup-IsReady
      (omega arith) text-Reads (omega arith, (omega arith, (omega arith, (omega arith, tt))))
      (omega arith) text-Chops

-- A client without a connection sends nothing.
no_connection_test :
    client_main (record setup { connects = false }) (took 4) reads sends by_chance closed
    ≡ (fails, [])
unfolding client_main
no_connection_test = refl

-- A server that closes instead of replying: the client prints what its variable holds by chance.
no_reply_test : (client_main setup (took 4) reads sends by_chance closed).0 ≡ prints 151587081
unfolding client_main print_count send_file copy_loop send_loop ntohl
no_reply_test = refl
