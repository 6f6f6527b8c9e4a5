-- ===== src/Shell/Words.antt =====
-- hw2/myshell.c: the words of a line, and the special ones among them.
use oscourse24btau.Common.{
  ℕ, zero, suc, Bool, true, false, ◌&&◌, Option, none, some, List, [], ◌∷◌, ◌==◌,
}

abbrev pub Word : Type 0
Word = List ℕ

-- `strcmp(a, b) == 0`
unfoldable pub same_word : Word → Word → Bool
same_word [] [] = true
same_word [] (c ∷ b) = false
same_word (c ∷ a) [] = false
same_word (c ∷ a) (c' ∷ b) = (c == c') && same_word a b

abbrev pub bar : Word
bar = 124 ∷ []

abbrev pub less : Word
less = 60 ∷ []

abbrev pub greater : Word
greater = 62 ∷ []

abbrev pub twice_greater : Word
twice_greater = 62 ∷ 62 ∷ []

abbrev pub ampersand : Word
ampersand = 38 ∷ []

-- `strcmp(arglist[count - 1], ...) == 0`, and the words before the last.
unfoldable pub last_is : Word → List Word → Bool
unfolding same_word
last_is w [] = false
last_is w (x ∷ []) = same_word x w
last_is w (x ∷ y ∷ l) = last_is w (y ∷ l)

unfoldable pub without_last : List Word → List Word
without_last [] = []
without_last (x ∷ []) = []
without_last (x ∷ y ∷ l) = x ∷ without_last (y ∷ l)

-- `arglist[i]`, NULL behind the words.
unfoldable pub word_at : List Word → ℕ → Option Word
word_at [] i = none
word_at (x ∷ l) zero = some x
word_at (x ∷ l) (suc i) = word_at l i
