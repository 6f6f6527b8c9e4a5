-- ===== src/Counter/Interrupt.antt =====
-- hw5/pcc_server.c: SIGINT while the server is in a connection. The handler prints `pcc_total` as it is
-- and exits.
use oscourse24btau.Common.{
  ℕ, zero, suc, ◌+◌, ◌-◌, ◌%◌, ◌^◌, ◌≤◌, ◌<◌, ◌≡◌, refl, ◌∙◌, ap, Bool, true, List, [], ◌∷◌, ◌++◌,
  ◌==◌, if◌then◌else◌, length, length-append, arith, false, ltb, inl, inr, Bool-cases,
}
use mathlib.Core.Path.{ap₂}
use native.Mathlib.Decide.{ℕ_discrete}
use oscourse24btau.Counter.Wire.{
  htonl, ntohl, overwrite, Answer, bytes, closed, failed, ntohl-htonl,
}
use oscourse24btau.Counter.Server.{
  Totals, Loop, returned, waits, over, Locals, receive_loop, Accept, serve, no_counts, print_totals,
  handle_sigint, finish, count_printable_characters,
}
use oscourse24btau.Counter.Count.{occurrences, occurrences-append, occurrences-bound}
use oscourse24btau.Counter.Laws.{Chops, receive_loop-append}
use oscourse24btau.Counter.Contract.{begin, begin-HasRoom, receive_loop-over}
use oscourse24btau.Counter.Serve.{Sessions, serve-occurrences, histogram, print_totals-range}

-- `count_printable_characters` up to the end of its `while`.
unfoldable pub receives : List ℕ → List Answer → Loop
unfolding receive_loop
receives memory [] = waits
receives memory (closed ∷ answers) = returned
receives memory (failed ∷ answers) = returned
receives memory (bytes l ∷ answers) = receive_loop answers (record {
  file_size = ntohl (overwrite l memory);
  printable_count = 0;
  printable_chars_local = no_counts;
})

-- `k` rounds of the loop that adds the local counters, from `i` on.
unfoldable pub add_rounds : ℕ → ℕ → Totals → Totals → Totals
add_rounds zero i pcc_total t = pcc_total
add_rounds (suc k) i pcc_total t =
    add_rounds k (i + 1) (λ j. if j == i then (pcc_total j + t j) % 2 ^ 32 else pcc_total j) t

-- `pcc_total` once the connection has come as far as it can, with `k` rounds of that loop.
unfoldable pub totals_within : ℕ → Bool → Totals → Loop → Totals
unfolding add_rounds
totals_within k sends pcc_total returned = pcc_total
totals_within k sends pcc_total waits = pcc_total
totals_within k sends pcc_total (over s) =
    if sends then add_rounds k 0 pcc_total s.printable_chars_local else pcc_total

add_rounds-later : (k i : ℕ) (t u : Totals) (j : ℕ) → i + k ≤ j → add_rounds k i t u j ≡ t j
unfolding add_rounds
add_rounds-later zero i t u j le = refl
add_rounds-later (suc k) i t u j le =
    add_rounds-later k (i + 1) _ u j (omega (arith, le)) ∙ ground (arith, le)

add_rounds-earlier : (k i : ℕ) (t u : Totals) (j : ℕ) → j < i → add_rounds k i t u j ≡ t j
unfolding add_rounds
add_rounds-earlier zero i t u j lt = refl
add_rounds-earlier (suc k) i t u j lt =
    add_rounds-earlier k (i + 1) _ u j (omega (arith, lt)) ∙ ground (arith, lt)

add_rounds-within :
    (k i : ℕ) (t u : Totals) (j : ℕ)
    → i ≤ j
    → j < i + k
    → add_rounds k i t u j ≡ (t j + u j) % 2 ^ 32
unfolding add_rounds
add_rounds-within zero i t u j le lt = absurd (omega (arith, le, lt))
add_rounds-within (suc k) i t u j le lt = elim (ℕ_discrete j i) [
  | yes e ↦ add_rounds-earlier k (i + 1) _ u j (omega (arith, e)) ∙ ground (arith, e)
  | no ne ↦
      add_rounds-within k (i + 1) _ u j (omega (arith, le, ne)) (omega (arith, lt))
      ∙ ground (arith, ne)
]

-- With all the rounds the function is done.
all_rounds :
    (sends : Bool) (t : Totals) (r : Loop) (j : ℕ)
    → totals_within 95 sends t r j ≡ (finish sends t r).1 j
unfolding totals_within finish
all_rounds sends t returned j = refl
all_rounds sends t waits j = refl
all_rounds false t (over s) j = refl
all_rounds true t (over s) j = elim (Bool-cases (ltb j 95)) [
  | inl e ↦
      add_rounds-within 95 0 t s.printable_chars_local j (omega arith) (ground (arith, e))
      ∙ ground (arith, e)
  | inr e ↦
      add_rounds-later 95 0 t s.printable_chars_local j (ground (arith, e)) ∙ ground (arith, e)
]

-- The code of a connection, interrupted after its last round, is `count_printable_characters`.
pub totals_within-all :
    (memory : List ℕ) (answers : List Answer) (sends : Bool) (t : Totals) (j : ℕ)
    → totals_within 95 sends t (receives memory answers) j
      ≡ (count_printable_characters memory answers sends t).1 j
unfolding totals_within receives count_printable_characters
totals_within-all memory [] sends t j = refl
totals_within-all memory (closed ∷ answers) sends t j = refl
totals_within-all memory (failed ∷ answers) sends t j = refl
totals_within-all memory (bytes l ∷ answers) sends t j = all_rounds sends t _ j

-- A text that arrives in full leaves the counts of its characters in the local array.
receives_text :
    (memory text : List ℕ) (answers rest : List Answer)
    → length text < 2 ^ 32
    → Chops text answers
    → (s : Locals) × (receives memory (bytes (htonl (length text)) ∷ answers ++ rest) ≡ over s)
      × ((j : ℕ) → j < 95 → s.printable_chars_local j ≡ occurrences (j + 32) text)
unfolding receives begin
receives_text memory text answers rest small c =
    let (s, e, counted, size) =
      receive_loop-append (begin (length text)) 0 rest c (omega arith)
        (begin-HasRoom (length text) (length text + 0) (omega (arith, small))) in
    (
      s,
      ap (λ n. receive_loop (answers ++ rest) (begin n)) (ntohl-htonl (length text) memory small)
          ∙ e
          ∙ receive_loop-over s rest size,
      λ j lt. omega (arith, counted.local j lt),
    )

-- The handler's loop in two parts.
print_totals-add :
    (m n p i j : ℕ) (t : Totals)
    → p ≡ m + n
    → i + m ≡ j
    → print_totals p i t ≡ print_totals m i t ++ print_totals n j t
unfolding print_totals
print_totals-add zero n p i j t rounds next =
    let all : p ≡ n = omega (arith, rounds) in
    let same : i ≡ j = omega (arith, next) in ap₂ (λ a b. print_totals a b t) all same
print_totals-add (suc m) n p i j t rounds next =
    let all : p ≡ suc (m + n) = omega (arith, rounds) in
    ap (λ a. print_totals a i t) all
    ∙ ap (λ r. (i + 32, t i) ∷ r)
        (print_totals-add m n (m + n) (i + 1) j t refl (omega (arith, next)))

-- What is printed when the first `k` totals count one text and the others another.
handle_sigint-split :
    (k : ℕ) (t : Totals) (x y : List ℕ)
    → k ≤ 95
    → ((j : ℕ) → j < k → t j ≡ occurrences (j + 32) x)
    → ((j : ℕ) → k ≤ j → j < 95 → t j ≡ occurrences (j + 32) y)
    → handle_sigint t ≡ histogram k 32 x ++ histogram (95 - k) (k + 32) y
unfolding handle_sigint
handle_sigint-split k t x y le new old =
    print_totals-add k (95 - k) 95 0 k t (omega (arith, le)) (omega arith)
    ∙ ap₂ (λ a b. a ++ b) (print_totals-range k 0 t x (λ j _ lt. new j (omega (arith, lt))))
        (print_totals-range (95 - k) k t y (λ j ge lt. old j ge (omega (arith, lt, le))))

-- When SIGINT arrives after connections that have each ended, in one whose text has arrived in full and
-- whose reply has been sent, and `k` of the 95 rounds of the last loop are done, the server prints for
-- the first `k` characters how often they occur in all the texts, and for the others how often they occur
-- in the texts before this one. The texts have less than 2^32 bytes together.
pub interrupted-histogram :
    (l : List Accept) (texts memory text : List ℕ) (answers rest : List Answer) (k : ℕ)
    → Sessions l texts
    → Chops text answers
    → length (texts ++ text) < 2 ^ 32
    → k ≤ 95
    → handle_sigint (
        totals_within k true
          (serve l no_counts)
          (receives memory (bytes (htonl (length text)) ∷ answers ++ rest)))
      ≡ histogram k 32 (texts ++ text) ++ histogram (95 - k) (k + 32) texts
unfolding totals_within
interrupted-histogram l texts memory text answers rest k before c small le =
    let total = length-append texts text in
    let (s, e, counts) = receives_text memory text answers rest (omega (arith, total, small)) c in
    let old = serve-occurrences l texts before (omega (arith, total, small)) in
    let t = serve l no_counts in
    let v = s.printable_chars_local in
    ap (λ r. handle_sigint (totals_within k true t r)) e
    ∙ handle_sigint-split k (add_rounds k 0 t v) (texts ++ text) texts le
        (λ j lt.
          add_rounds-within k 0 t v j (omega arith) (omega (arith, lt))
          ∙ omega (
            arith,
            old j (omega (arith, lt, le)),
            counts j (omega (arith, lt, le)),
            occurrences-append (j + 32) texts text,
            occurrences-bound (j + 32) (texts ++ text),
            small,
          ))
        (λ j ge lt. add_rounds-later k 0 t v j (omega (arith, ge)) ∙ old j lt)
