-- ===== src/Counter/Files.antt =====
-- hw5/tester2.c: the files of the tests.
use oscourse24btau.Common.{
  ℕ, zero, suc, ◌+◌, ◌≡◌, refl, ◌∙◌, ap, inl, inr, true, false, List, [], ◌∷◌, Bool-cases, ◌&&◌,
  leb, length, arith,
}
use oscourse24btau.Counter.Count.{printables}
use oscourse24btau.Counter.Tester.{random_char, create_test_file, count_from, count_printable_chars}

count_from-printables : (n : ℕ) (l : List ℕ) → count_from n l ≡ n + printables l
unfolding count_from printables
count_from-printables n [] = omega arith
count_from-printables n (c ∷ l) = elim (Bool-cases (leb 32 c && leb c 126)) [
  | inl e ↦ rw e (count_from-printables (n + 1) l ∙ omega arith)
  | inr e ↦ rw e (count_from-printables n l ∙ omega arith)
]

-- The test program counts as the server does.
pub count_printable_chars-printables : (l : List ℕ) → count_printable_chars l ≡ printables l
unfolding count_printable_chars
count_printable_chars-printables l = count_from-printables 0 l ∙ omega arith

module _ (rand : ℕ → ℕ) where
  pub length-create_test_file : (i n ratio : ℕ) → length (create_test_file rand i n ratio) ≡ n
  unfolding create_test_file
  length-create_test_file i zero ratio = refl
  length-create_test_file i (suc n) ratio = ap suc (length-create_test_file (i + 2) n ratio)

  -- With a ratio of 100 each character is printable, and with 0 none is.
  pub all_printable : (i n : ℕ) → printables (create_test_file rand i n 100) ≡ n
  unfolding create_test_file printables
  all_printable i zero = refl
  all_printable i (suc n) =
      let c = random_char 100 (rand i) (rand (i + 1)) in
      let e : (leb 32 c && leb c 126) ≡ true = ground arith in
      rw e (omega (arith, all_printable (i + 2) n))

  pub none_printable : (i n : ℕ) → printables (create_test_file rand i n 0) ≡ 0
  unfolding create_test_file printables
  none_printable i zero = refl
  none_printable i (suc n) =
      let c = random_char 0 (rand i) (rand (i + 1)) in
      let e : (leb 32 c && leb c 126) ≡ false = ground arith in
      rw e (omega (arith, none_printable (i + 2) n))
