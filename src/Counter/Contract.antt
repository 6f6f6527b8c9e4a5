-- ===== src/Counter/Contract.antt =====
-- hw5/pcc_server.c: what one connection reports and adds, and what a sequence of them adds.
use oscourse24btau.Common.{
  ℕ, ◌+◌, ◌-◌, ◌%◌, ◌^◌, ◌≤◌, ◌<◌, ◌≡◌, refl, ◌∙◌, ap, inl, inr, Bool, true, false, ◌&&◌, List, [],
  ◌∷◌, ◌++◌, ◌==◌, Bool-cases, length, arith,
}
use oscourse24btau.Counter.Wire.{htonl, Answer, bytes, closed, failed, ntohl-htonl}
use oscourse24btau.Counter.Server.{
  Totals, Locals, returned, over, receive_loop, no_counts, add_local, sent, gave_up, finish,
  count_printable_characters,
}
use oscourse24btau.Counter.Count.{printables, occurrences, HasRoom}
use oscourse24btau.Counter.Laws.{Chops, receive_loop-append}

-- The local variables before the loop.
unfoldable pub begin : ℕ → Locals
begin n = record { file_size = n; printable_count = 0; printable_chars_local = no_counts }

pub begin-HasRoom : (n m : ℕ) → m < 2 ^ 32 → HasRoom (begin n) m
unfolding begin
begin-HasRoom n m small = record { count = omega (arith, small); local = λ i. omega (arith, small) }

-- Once the size has been received, the rest of the function.
sized :
    (memory : List ℕ) (n : ℕ) (answers : List Answer) (sends : Bool) (totals : Totals)
    → n < 2 ^ 32
    → count_printable_characters memory (bytes (htonl n) ∷ answers) sends totals
      ≡ finish sends totals (receive_loop answers (begin n))
unfolding count_printable_characters begin
sized memory n answers sends totals small =
    ap (λ m. finish sends totals (receive_loop answers (begin m))) (ntohl-htonl n memory small)

pub receive_loop-over :
    (s : Locals) (rest : List Answer) → s.file_size ≡ 0 → receive_loop rest s ≡ over s
unfolding receive_loop
receive_loop-over s [] e = rw (receive_loop, ap (λ n. n == 0) e) refl
receive_loop-over s (a ∷ rest) e = rw (receive_loop, ap (λ n. n == 0) e) refl

finish-over :
    (sends : Bool) (totals : Totals) (s : Locals)
    → sends ≡ false
    → finish sends totals (over s) ≡ (gave_up, totals)
unfolding finish
finish-over sends totals s e = rw (finish, e) refl

-- An answer of `recv` that is not positive.
pub data IsEnd : Answer → Type 0 where
  at_closed : IsEnd closed
  at_failed : IsEnd failed

receive_loop-end :
    (s : Locals) (a : Answer) (rest : List Answer)
    → IsEnd a
    → (s.file_size == 0) ≡ false
    → receive_loop (a ∷ rest) s ≡ returned
unfolding receive_loop
receive_loop-end s a rest at_closed e = rw (receive_loop, e) refl
receive_loop-end s a rest at_failed e = rw (receive_loop, e) refl

-- When a text of less than 2^32 bytes arrives in full after its size, in pieces of 1 to 1024 bytes in whatever way it is
-- cut, and the reply can be sent, the reply is the number of its printable bytes, and each entry
-- of `pcc_total` grows by the number of its character in the text, modulo 2^32.
pub received :
    (memory text : List ℕ) (answers rest : List Answer) (totals : Totals)
    → length text < 2 ^ 32
    → Chops text answers
    → (t' : Totals) × (count_printable_characters memory
          (bytes (htonl (length text)) ∷ answers ++ rest)
          true
          totals
        ≡ (sent (htonl (printables text)), t'))
      × ((i : ℕ) → i < 95 → t' i ≡ (totals i + occurrences (i + 32) text) % 2 ^ 32)
unfolding finish begin
received memory text answers rest totals small c =
    let (s, e, counted, size) =
      receive_loop-append (begin (length text)) 0 rest c (omega arith)
        (begin-HasRoom (length text) (length text + 0) (omega (arith, small))) in
    (
      add_local totals s.printable_chars_local,
      sized memory (length text) (answers ++ rest) true totals small
          ∙ ap (finish true totals) (e ∙ receive_loop-over s rest size)
          ∙ ap (λ m. (sent (htonl m), add_local totals s.printable_chars_local))
              (omega (arith, counted.count)),
      λ i lt. ground (arith, counted.local i lt),
    )

-- When the text stops before its announced size (less than 2^32), by the end of the connection or an
-- error, or when it arrives in full and the reply cannot be sent, `pcc_total` stays as it was.
pub broken_off :
    (memory text : List ℕ) (n : ℕ) (answers rest : List Answer) (a : Answer) (sends : Bool)
    (totals : Totals)
    → length text ≤ n
    → n < 2 ^ 32
    → Chops text answers
    → IsEnd a
    → sends && (length text == n) ≡ false
    → count_printable_characters memory (bytes (htonl n) ∷ answers ++ a ∷ rest) sends totals
      ≡ (gave_up, totals)
unfolding finish begin
broken_off memory text n answers rest a sends totals le small c end early =
    let (s, e, counted, size) =
      receive_loop-append (begin n) (n - length text) (a ∷ rest) c (omega (arith, le))
        (begin-HasRoom n (length text + (n - length text)) (omega (arith, le, small))) in
    sized memory n (answers ++ a ∷ rest) sends totals small
    ∙ ap (finish sends totals) e
    ∙ elim (Bool-cases (s.file_size == 0)) [
      | inl z ↦
          ap (finish sends totals) (receive_loop-over s (a ∷ rest) (ground (arith, z)))
          ∙ finish-over sends totals s (ground (arith, early, z, size, le))
      | inr z ↦ ap (finish sends totals) (receive_loop-end s a rest end z)
    ]
