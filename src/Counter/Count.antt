-- ===== src/Counter/Count.antt =====
-- hw5/pcc_server.c: what the inner loop counts in a buffer.
use oscourse24btau.Common.{
  ℕ, ◌+◌, ◌^◌, ◌≤◌, ◌<◌, ◌≡◌, refl, ◌∙◌, inl, inr, List, [], ◌∷◌, ◌++◌, ◌==◌, ◌&&◌, leb,
  if◌then◌else◌, Bool-cases, length, length-append, arith,
}
use oscourse24btau.Counter.Server.{Locals, count_char, count_buffer}

-- The number of printable bytes of a text: those from 32 to 126, as hw5/pcc.pdf defines them.
unfoldable pub printables : List ℕ → ℕ
printables [] = 0
printables (b ∷ l) = (if leb 32 b && leb b 126 then 1 else 0) + printables l

-- The number of the bytes equal to `c`.

unfoldable pub occurrences : ℕ → List ℕ → ℕ
occurrences c [] = 0
occurrences c (b ∷ l) = (if b == c then 1 else 0) + occurrences c l

pub printables-append : (l m : List ℕ) → printables (l ++ m) ≡ printables l + printables m
unfolding printables
printables-append [] m = omega arith
printables-append (b ∷ l) m = omega (arith, printables-append l m)

pub occurrences-append :
    (c : ℕ) (l m : List ℕ) → occurrences c (l ++ m) ≡ occurrences c l + occurrences c m
unfolding occurrences
occurrences-append c [] m = omega arith
occurrences-append c (b ∷ l) m = omega (arith, occurrences-append c l m)

pub printables-bound : (l : List ℕ) → printables l ≤ length l
unfolding printables
printables-bound [] = omega arith
printables-bound (b ∷ l) = elim (Bool-cases (leb 32 b && leb b 126)) [
  | inl e ↦ rw e (omega (arith, printables-bound l))
  | inr e ↦ rw e (omega (arith, printables-bound l))
]

pub occurrences-bound : (c : ℕ) (l : List ℕ) → occurrences c l ≤ length l
unfolding occurrences
occurrences-bound c [] = omega arith
occurrences-bound c (b ∷ l) = ground (arith, occurrences-bound c l)

-- Room for `n` more: no counter wraps.
pub record HasRoom (s : Locals) (n : ℕ) : Type 0 where
  pub count : s.printable_count + n < 2 ^ 32
  pub local : (i : ℕ) → s.printable_chars_local i + n < 2 ^ 32

-- `s'` has counted the text `l` after `s`, and nothing has been written behind the 95 entries.
pub record Counted (s s' : Locals) (l : List ℕ) : Type 0 where
  pub count : s'.printable_count ≡ s.printable_count + printables l
  pub local :
      (i : ℕ)
      → i < 95
      → s'.printable_chars_local i ≡ s.printable_chars_local i + occurrences (i + 32) l
  pub outside : (i : ℕ) → 95 ≤ i → s'.printable_chars_local i ≡ s.printable_chars_local i
  pub room : (n : ℕ) → HasRoom s (length l + n) → HasRoom s' n

count_char_lem : (b : ℕ) (s : Locals) → HasRoom s 1 → Counted s (count_char b s) (b ∷ [])
unfolding printables occurrences
count_char_lem b s h = record {
  count = ground (arith, h.count);
  local = λ i lt. ground (arith, h.local i, lt);
  outside = λ i ge. ground (arith, ge);
  room = λ n r. record {
    count = ground (arith, h.count, r.count);
    local = λ i. ground (arith, h.local i, r.local i);
  };
}

pub Counted-trans :
    {s t u : Locals} (l m : List ℕ) → Counted s t l → Counted t u m → Counted s u (l ++ m)
Counted-trans {s} l m a b = record {
  count = omega (arith, a.count, b.count, printables-append l m);
  local = λ i lt. omega (arith, a.local i lt, b.local i lt, occurrences-append (i + 32) l m);
  outside = λ i ge. b.outside i ge ∙ a.outside i ge;
  room = λ n r. b.room n (
      a.room (length m + n) (record {
        count = omega (arith, r.count, length-append l m);
        local = λ i. omega (arith, r.local i, length-append l m);
      }));
}

pub HasRoom-less : {s : Locals} (m n : ℕ) → n ≤ m → HasRoom s m → HasRoom s n
HasRoom-less m n le r = record {
  count = omega (arith, r.count, le);
  local = λ i. omega (arith, r.local i, le);
}

-- A buffer with room for its bytes is counted in full, and `file_size` stays.
pub count_buffer_lem :
    (l : List ℕ) (s : Locals)
    → HasRoom s (length l)
    → Counted s (count_buffer l s) l × ((count_buffer l s).file_size ≡ s.file_size)
unfolding count_buffer printables occurrences
count_buffer_lem [] s r = (
  record {
    count = omega arith;
    local = λ i lt. omega arith;
    outside = λ i ge. refl;
    room = λ n r'. HasRoom-less (0 + n) n (omega arith) r';
  },
  refl,
)
count_buffer_lem (b ∷ l) s r =
    let first = count_char_lem b s (HasRoom-less _ 1 (omega arith) r) in
    let (others, size) =
      count_buffer_lem l (count_char b s)
        (first.room (length l) (HasRoom-less _ (1 + length l) (omega arith) r)) in
    (Counted-trans (b ∷ []) l first others, size ∙ ground arith)
