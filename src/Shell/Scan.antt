-- ===== src/Shell/Scan.antt =====
-- hw2/myshell.c, `process_arglist`: what the loop over the words finds.
use oscourse24btau.Common.{
  ℕ, suc, ◌+◌, ◌≡◌, ◌≢◌, refl, ◌∙◌, ap, inl, inr, Bool-cases, true, false, List, [], ◌∷◌, ◌++◌,
  length, take, drop, arith,
}
use mathlib.Core.Path.{ap₂}
use oscourse24btau.Shell.Words.{
  Word, same_word, bar, less, greater, twice_greater, ampersand, last_is, without_last, word_at,
}
use oscourse24btau.Shell.Process.{Marks, mark, scan}

same_word-eq : (w v : Word) → same_word w v ≡ true → w ≡ v
unfolding same_word
same_word-eq [] [] e = refl
same_word-eq [] (d ∷ v) e = absurd (cc)
same_word-eq (c ∷ w) [] e = absurd (cc)
same_word-eq (c ∷ w) (d ∷ v) e =
    let head : c ≡ d = ground (arith, e) in
    let tail : same_word w v ≡ true = ground (arith, e) in
    ap₂ (λ x l. x ∷ l) head (same_word-eq w v tail)

pub same_word-ne : (w v : Word) → w ≢ v → same_word w v ≡ false
same_word-ne w v ne = elim (Bool-cases (same_word w v)) [
  | inl e ↦ absurd (ne (same_word-eq w v e))
  | inr e ↦ e
]

-- A word without a meaning to the shell: none of `|`, `<`, `>`, `>>` and `&`.
pub record IsPlain (w : Word) : Type 0 where
  pub no_bar : w ≢ 124 ∷ []
  pub no_less : w ≢ 60 ∷ []
  pub no_greater : w ≢ 62 ∷ []
  pub no_twice : w ≢ 62 ∷ 62 ∷ []
  pub no_ampersand : w ≢ 38 ∷ []

abbrev pub AllPlain : List Word → Type 0
AllPlain [] = Unit {0}
AllPlain (w ∷ l) = IsPlain w × AllPlain l

mark-plain : (i : ℕ) (w : Word) (m : Marks) → IsPlain w → mark i w m ≡ m
unfolding mark
mark-plain i w m p =
    rw
      (
        same_word-ne w bar p.no_bar,
        same_word-ne w less p.no_less,
        same_word-ne w greater p.no_greater,
        same_word-ne w twice_greater p.no_twice,
      )
      refl

-- Plain words leave no mark, and the words behind them are marked at their places.
pub scan-plain :
    (l r : List Word) (i : ℕ) (m : Marks) → AllPlain l → scan i (l ++ r) m ≡ scan (i + length l) r m
unfolding scan
scan-plain [] r i m p = ap (λ j. scan j r m) (omega arith)
scan-plain (w ∷ l) r i m p =
    ap (λ m'. scan (i + 1) (l ++ r) m') (mark-plain i w m p.0)
    ∙ scan-plain l r (i + 1) m p.1
    ∙ ap (λ j. scan j r m) (omega arith)

pub scan-AllPlain : (l : List Word) (i : ℕ) (m : Marks) → AllPlain l → scan i l m ≡ m
unfolding scan
scan-AllPlain [] i m p = refl
scan-AllPlain (w ∷ l) i m p =
    ap (λ m'. scan (i + 1) l m') (mark-plain i w m p.0) ∙ scan-AllPlain l (i + 1) m p.1

pub scan-one :
    (l r : List Word) (x : Word) (m : Marks)
    → AllPlain l
    → AllPlain r
    → scan 0 (l ++ x ∷ r) m ≡ mark (length l) x m
unfolding scan
scan-one l r x m p q =
    scan-plain l (x ∷ r) 0 m p
    ∙ scan-AllPlain r (0 + length l + 1) (mark (0 + length l) x m) q
    ∙ ap (λ j. mark j x m) (omega arith)

pub last_is-append : (w x : Word) (l r : List Word) → last_is w (l ++ x ∷ r) ≡ last_is w (x ∷ r)
unfolding last_is
last_is-append w x [] r = refl
last_is-append w x (y ∷ []) r = refl
last_is-append w x (y ∷ z ∷ l) r = last_is-append w x (z ∷ l) r

pub last_is-plain : (l : List Word) → AllPlain l → last_is ampersand l ≡ false
unfolding last_is
last_is-plain [] p = refl
last_is-plain (x ∷ []) p = same_word-ne x ampersand p.0.no_ampersand
last_is-plain (x ∷ y ∷ l) p = last_is-plain (y ∷ l) p.1

-- A line whose last word is `w`.
pub last_is-snoc :
    (w : Word) (args : List Word) → last_is w args ≡ true → (l : List Word) × (args ≡ l ++ w ∷ [])
unfolding last_is
last_is-snoc w [] e = absurd (cc)
last_is-snoc w (x ∷ []) e = ([], ap (λ y. y ∷ []) (same_word-eq x w e))
last_is-snoc w (x ∷ y ∷ args) e =
    let (l, q) = last_is-snoc w (y ∷ args) e in (x ∷ l, ap (λ r. x ∷ r) q)

pub without_last-append : (x : Word) (l : List Word) → without_last (l ++ x ∷ []) ≡ l
unfolding without_last
without_last-append x [] = refl
without_last-append x (y ∷ []) = refl
without_last-append x (y ∷ z ∷ l) = ap (λ t. y ∷ t) (without_last-append x (z ∷ l))

-- The words before and behind the place of a mark.
pub take-length : (l r : List Word) → take (length l) (l ++ r) ≡ l
take-length [] r = refl
take-length (x ∷ l) r = ap (λ t. x ∷ t) (take-length l r)

shift : (n : ℕ) → suc n + 1 ≡ suc (n + 1)
shift n = omega arith

pub drop-length : (x : Word) (l r : List Word) → drop (length l + 1) (l ++ x ∷ r) ≡ r
drop-length x [] r = refl
drop-length x (y ∷ l) r = ap (λ n. drop n (y ∷ (l ++ x ∷ r))) (shift (length l)) ∙ drop-length x l r

pub word_at-length :
    (x : Word) (l r : List Word) → word_at (l ++ x ∷ r) (length l + 1) ≡ word_at r 0
unfolding word_at
word_at-length x [] r = refl
word_at-length x (y ∷ l) r =
    ap (λ n. word_at (y ∷ (l ++ x ∷ r)) n) (shift (length l)) ∙ word_at-length x l r
