-- ===== src/Counter/Passes.antt =====
-- hw5/tester2.c: the tests pass.
use mathlib.Core.Path.{subst}
use oscourse24btau.Common.{
  ℕ, ◌^◌, ◌<◌, ◌≡◌, refl, sym, ◌∙◌, ap, Bool, true, Option, none, some, List, [], ◌∷◌, ◌++◌, ◌==◌,
  not, length, length-append, arith,
}
use oscourse24btau.Counter.Server.{Totals, no_counts, handle_sigint}
use oscourse24btau.Counter.Count.{printables, occurrences}
use oscourse24btau.Counter.Main.{fails, prints}
use oscourse24btau.Counter.Serve.{histogram, print_totals-histogram}
use oscourse24btau.Counter.Tester.{
  create_test_file, count_printable_chars, Meeting, client_end, totals_after, Verdict, verdict,
  expectations, run_tests, at_sigint, tester_main,
}
use oscourse24btau.Counter.Files.{
  count_printable_chars-printables, length-create_test_file, all_printable, none_printable,
}
use oscourse24btau.Counter.Meetings.{Carries, Misses, Counts, Carries-Met, Misses-Missed}

-- What the test of a file that arrives shows, and of one that does not exist.
abbrev pub counted : Option ℕ → ℕ → Verdict
counted expected n = record {
  expected = expected;
  printed = some n;
  client_exit_code = 0;
  passed = true;
}

abbrev pub refused : Verdict
refused = record { expected = none; printed = none; client_exit_code = 1; passed = true }

run_tests-counted :
    (expected : Option ℕ) (m : Meeting) (totals : Totals) (n : ℕ)
    (ts : List (Option ℕ × (ℕ → Bool))) (ms : List Meeting) (vs : List Verdict) (last : Totals)
    → client_end m totals ≡ prints n
    → run_tests ts ms (totals_after m totals) ≡ some (vs, last)
    → run_tests ((expected, (λ code. code == 0)) ∷ ts) (m ∷ ms) totals
      ≡ some (counted expected n ∷ vs, last)
unfolding run_tests verdict
run_tests-counted expected m totals n ts ms vs last e e' = rw (e, verdict, e', run_tests)

run_tests-refused :
    (m : Meeting) (totals : Totals) (ts : List (Option ℕ × (ℕ → Bool))) (ms : List Meeting)
    (vs : List Verdict) (last : Totals)
    → client_end m totals ≡ fails
    → run_tests ts ms (totals_after m totals) ≡ some (vs, last)
    → run_tests ((none, (λ code. not (code == 0))) ∷ ts) (m ∷ ms) totals ≡ some (refused ∷ vs, last)
unfolding run_tests verdict
run_tests-refused m totals ts ms vs last e e' = rw (e, verdict, e', run_tests)

small_left : (l m : List ℕ) → length (l ++ m) < 2 ^ 32 → length l < 2 ^ 32
small_left l m small = omega (arith, length-append l m)

run_tests-nil : (totals : Totals) → run_tests [] [] totals ≡ some ([], totals)
unfolding run_tests
run_tests-nil totals = refl

module _ (rand : ℕ → ℕ → ℕ) where
  abbrev pub normal_file : List ℕ
  normal_file = create_test_file (rand 0) 0 1000 80

  abbrev pub large_file : List ℕ
  large_file = create_test_file (rand 1) 0 10000000 50

  abbrev pub printable_file : List ℕ
  printable_file = create_test_file (rand 2) 0 1000 100

  abbrev pub unprintable_file : List ℕ
  unprintable_file = create_test_file (rand 3) 0 1000 0

  -- All that the server gets.
  abbrev pub all_files : List ℕ
  all_files = (((normal_file ++ large_file) ++ []) ++ printable_file) ++ unprintable_file

  length-all_files : length all_files ≡ 10003000
  length-all_files = omega (
    arith,
    length-append (((normal_file ++ large_file) ++ []) ++ printable_file) unprintable_file,
    length-append ((normal_file ++ large_file) ++ []) printable_file,
    length-append (normal_file ++ large_file) [],
    length-append normal_file large_file,
    length-create_test_file (rand 0) 0 1000 80,
    length-create_test_file (rand 1) 0 10000000 50,
    length-create_test_file (rand 2) 0 1000 100,
    length-create_test_file (rand 3) 0 1000 0,
  )

  small-all_files : length all_files < 2 ^ 32
  small-all_files = omega (arith, length-all_files)

  -- What the six tests show.
  abbrev pub good_verdicts : List Verdict
  good_verdicts =
      counted (some (count_printable_chars normal_file)) (count_printable_chars normal_file)
      ∷ counted (some (count_printable_chars large_file)) (count_printable_chars large_file)
      ∷ counted none 0
      ∷ refused
      ∷ counted (some 1000) 1000
      ∷ counted (some 0) 0
      ∷ []

  module _ (m0 m1 m2 m3 m4 m5 : Meeting) (normal : Carries normal_file m0)
      (large : Carries large_file m1) (nothing : Carries [] m2) (missing : Misses m3)
      (printable : Carries printable_file m4) (unprintable : Carries unprintable_file m5) where
    meetings : List Meeting
    meetings = m0 ∷ m1 ∷ m2 ∷ m3 ∷ m4 ∷ m5 ∷ []

    shown : List Verdict
    shown =
        counted (some (count_printable_chars normal_file)) (printables normal_file)
        ∷ counted (some (count_printable_chars large_file)) (printables large_file)
        ∷ counted none (printables [])
        ∷ refused
        ∷ counted (some (count_printable_chars printable_file)) (printables printable_file)
        ∷ counted (some (count_printable_chars unprintable_file)) (printables unprintable_file)
        ∷ []

    all_met :
        (last : Totals) × (run_tests (expectations rand) meetings no_counts ≡ some (shown, last))
        × Counts all_files last
    unfolding expectations meetings shown Counts occurrences
    all_met =
        let before1 = normal_file ++ large_file in
        let before2 = before1 ++ [] in
        let before3 = before2 ++ printable_file in
        let small3 = small_left before3 unprintable_file small-all_files in
        let small2 = small_left before2 printable_file small3 in
        let small1 = small_left before1 [] small2 in
        let small0 = small_left normal_file large_file small1 in
        let t1 = totals_after m0 no_counts in
        let t2 = totals_after m1 t1 in
        let t3 = totals_after m2 t2 in
        let t4 = totals_after m3 t3 in
        let t5 = totals_after m4 t4 in
        let met0 = Carries-Met [] normal_file m0 no_counts normal small0 (λ i lt. refl) in
        let met1 = Carries-Met normal_file large_file m1 t1 large small1 met0.server in
        let met2 = Carries-Met before1 [] m2 t2 nothing small2 met1.server in
        let missed = Misses-Missed m3 t3 missing in
        let met4 =
          Carries-Met before2 printable_file m4 t4 printable small3
            (subst (Counts before2) (sym missed.server) met2.server) in
        let met5 =
          Carries-Met before3 unprintable_file m5 t5 unprintable small-all_files met4.server in
        (
          totals_after m5 t5,
          run_tests-counted _ m0 no_counts _ _ _ _ _ met0.client (
              run_tests-counted _ m1 t1 _ _ _ _ _ met1.client (
                run_tests-counted _ m2 t2 _ _ _ _ _ met2.client (
                  run_tests-refused m3 t3 _ _ _ _ missed.client (
                    run_tests-counted _ m4 t4 _ _ _ _ _ met4.client
                      (run_tests-counted _ m5 t5 _ _ _ _ _ met5.client (run_tests-nil _)))))),
          met5.server,
        )

    shown-good_verdicts : shown ≡ good_verdicts
    unfolding shown printables
    shown-good_verdicts =
        let one = λ (f : List ℕ). sym (count_printable_chars-printables f) in
        let full = all_printable (rand 2) 0 1000 in
        let blank = none_printable (rand 3) 0 1000 in
        λ i.
          counted (some (count_printable_chars normal_file)) (one normal_file i)
          ∷ counted (some (count_printable_chars large_file)) (one large_file i)
          ∷ counted none 0
          ∷ refused
          ∷ counted (some ((count_printable_chars-printables printable_file ∙ full) i)) (full i)
          ∷ counted (some ((count_printable_chars-printables unprintable_file ∙ blank) i)) (blank i)
          ∷ []

    -- When the calls of the client and the server carry the five files, and the sixth does not
    -- exist, all six tests pass, whatever `rand` returns: each client prints the number of printable
    -- characters that the test expects, 1000 and 0 for the last two files, and at the SIGINT the server
    -- prints how often each printable character occurs in the five files together.
    pub tester_passes :
        tester_main rand (m0 ∷ m1 ∷ m2 ∷ m3 ∷ m4 ∷ m5 ∷ [])
        ≡ some (good_verdicts, histogram 95 32 all_files)
    unfolding tester_main handle_sigint meetings Counts
    tester_passes =
        let (last, ran, counts) = all_met in
        ap at_sigint (ran ∙ ap (λ vs. some (vs, last)) shown-good_verdicts)
        ∙ ap (λ h. some (good_verdicts, h))
            (print_totals-histogram 95 0 last all_files counts (omega arith))
