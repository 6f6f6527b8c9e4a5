-- ===== src/Counter/Exam.antt =====
-- hw5/tester2.c: a run of the test program in which every call takes one byte.
use oscourse24btau.Common.{
  ℕ, ◌≡◌, refl, true, false, some, none, List, [], ◌∷◌, ◌++◌, length, ap, suc, arith,
}
use oscourse24btau.Counter.Wire.{htonl, Answer, bytes}
use oscourse24btau.Counter.Laws.{Chops, no_piece, piece}
use oscourse24btau.Counter.Client.{
  SendAnswer, took, ReadAnswer, chunk, at_end, Reads, end_of_file, next_chunk, Take,
}
use oscourse24btau.Counter.Serve.{histogram}
use oscourse24btau.Counter.Tester.{Meeting, tester_main}
use oscourse24btau.Counter.Meetings.{Carries, Misses}
use oscourse24btau.Counter.Passes.{
  normal_file, large_file, printable_file, unprintable_file, all_files, good_verdicts,
  tester_passes,
}

one_byte_reads : List ℕ → List ReadAnswer
one_byte_reads [] = at_end ∷ []
one_byte_reads (b ∷ l) = chunk (b ∷ []) ∷ one_byte_reads l

one_byte_sends : List ℕ → List SendAnswer
one_byte_sends [] = []
one_byte_sends (b ∷ l) = took 1 ∷ one_byte_sends l

one_byte_answers : List ℕ → List Answer
one_byte_answers [] = []
one_byte_answers (b ∷ l) = bytes (b ∷ []) ∷ one_byte_answers l

one_byte-Reads : (l : List ℕ) → Reads l (one_byte_reads l)
unfolding one_byte_reads
one_byte-Reads [] = end_of_file []
one_byte-Reads (b ∷ l) = next_chunk (b ∷ []) (omega arith) (omega arith) (one_byte-Reads l)

one_byte-Take : (l : List ℕ) → Take (one_byte_sends l)
unfolding one_byte_sends
one_byte-Take [] = tt
one_byte-Take (b ∷ l) = (omega arith, one_byte-Take l)

length-one_byte_sends : (l : List ℕ) → length (one_byte_sends l) ≡ length l
unfolding one_byte_sends
length-one_byte_sends [] = refl
length-one_byte_sends (b ∷ l) = ap suc (length-one_byte_sends l)

one_byte-Chops : (l : List ℕ) → Chops l (one_byte_answers l)
unfolding one_byte_answers
one_byte-Chops [] = no_piece
one_byte-Chops (b ∷ l) = piece (b ∷ []) (omega arith) (omega arith) (one_byte-Chops l)

abbrev carry : List ℕ → Meeting
carry text = record {
  setup = record {
    argc = 4;
    opens_file = true;
    makes_socket = true;
    knows_address = true;
    connects = true;
    file_size = some (length text);
  };
  first = took 4;
  reads = one_byte_reads text;
  sends = one_byte_sends text;
  client_memory = 0 ∷ 0 ∷ 0 ∷ 0 ∷ [];
  server_memory = 0 ∷ 0 ∷ 0 ∷ 0 ∷ [];
  answers = bytes (htonl (length text)) ∷ one_byte_answers text ++ [];
  replies = true;
}

carry-Carries : (text : List ℕ) → Carries text (carry text)
carry-Carries text = record {
  ready = record {
    argc = refl;
    file = refl;
    socket = refl;
    address = refl;
    connection = refl;
    size = refl;
  };
  first = refl;
  reads = one_byte-Reads text;
  sends = one_byte-Take text;
  enough = omega (arith, length-one_byte_sends text);
  pieces = one_byte_answers text;
  rest = [];
  chops = one_byte-Chops text;
  answers = refl;
  replies = refl;
}

abbrev no_file : Meeting
no_file = record (carry []) {
  setup = record {
    argc = 4;
    opens_file = false;
    makes_socket = true;
    knows_address = true;
    connects = true;
    file_size = none;
  };
}

no_file-Misses : Misses no_file
no_file-Misses = record { argc = refl; file = refl }

-- A `rand` that counts.
abbrev counter : ℕ → ℕ → ℕ
counter t i = i

tester_passes_example :
    tester_main counter (
      carry (normal_file counter)
      ∷ carry (large_file counter)
      ∷ carry []
      ∷ no_file
      ∷ carry (printable_file counter)
      ∷ carry (unprintable_file counter)
      ∷ [])
    ≡ some (good_verdicts counter, histogram 95 32 (all_files counter))
tester_passes_example =
    tester_passes counter (carry (normal_file counter)) (carry (large_file counter)) (carry [])
      no_file (carry (printable_file counter)) (carry (unprintable_file counter))
      (carry-Carries (normal_file counter)) (carry-Carries (large_file counter)) (carry-Carries [])
      no_file-Misses (carry-Carries (printable_file counter))
      (carry-Carries (unprintable_file counter))
