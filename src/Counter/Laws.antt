-- ===== src/Counter/Laws.antt =====
-- hw5/pcc_server.c: what a connection adds to `pcc_total`, however the network cuts the text.
use oscourse24btau.Common.{
  ℕ, zero, suc, ap, take, ◌+◌, ◌-◌, ◌%◌, ◌^◌, ◌≤◌, ◌<◌, ◌≡◌, refl, ◌∙◌, false, List, [], ◌∷◌, ◌++◌,
  ◌==◌, length, length-append, arith,
}
use oscourse24btau.Counter.Wire.{Answer, bytes}
use oscourse24btau.Counter.Server.{to_read, Locals, count_buffer, receive_loop}
use oscourse24btau.Counter.Count.{
  printables, occurrences, HasRoom, Counted, Counted-trans, HasRoom-less, count_buffer_lem,
}

-- The answers of `recv` deliver the text in pieces that are not empty and fit the buffer.
pub data Chops : List ℕ → List Answer → Type 0 where
  no_piece : Chops [] []
  piece :
      (chunk : List ℕ) {text : List ℕ} {answers : List Answer}
      → 0 < length chunk
      → length chunk ≤ 1024
      → Chops text answers
      → Chops (chunk ++ text) (bytes chunk ∷ answers)

Counted-refl : (s : Locals) → Counted s s []
unfolding printables occurrences
Counted-refl s = record {
  count = omega arith;
  local = λ i lt. omega arith;
  outside = λ i ge. refl;
  room = λ n r. HasRoom-less (0 + n) n (omega arith) r;
}

take-enough : (l : List ℕ) (n : ℕ) → length l ≤ n → take n l ≡ l
take-enough [] zero le = refl
take-enough [] (suc n) le = refl
take-enough (x ∷ l) zero le = absurd (omega (arith, le))
take-enough (x ∷ l) (suc n) le = ap (λ r. x ∷ r) (take-enough l n (omega (arith, le)))

resized :
    {s u : Locals} (l : List ℕ) (n : ℕ) → Counted s u l → Counted s (record u { file_size = n }) l
resized l n c = record {
  count = c.count;
  local = c.local;
  outside = c.outside;
  room = λ m r. let q = c.room m r in record { count = q.count; local = q.local };
}

-- One turn of the `while`.
next : List ℕ → Locals → Locals
next l s = record (count_buffer l s) { file_size = (s.file_size + 2 ^ 32 - length l) % 2 ^ 32 }

receive_loop-bytes :
    (l : List ℕ) (answers : List Answer) (s : Locals)
    → (s.file_size == 0) ≡ false
    → take (to_read s.file_size) l ≡ l
    → receive_loop (bytes l ∷ answers) s ≡ receive_loop answers (next l s)
unfolding receive_loop next
receive_loop-bytes l answers s e whole = rw (receive_loop, e, whole) refl

-- The loop goes through the pieces of a part of the text and then on with the rest.
pub receive_loop-append :
    {text : List ℕ} {answers : List Answer} (s : Locals) (n : ℕ) (rest : List Answer)
    → Chops text answers
    → s.file_size ≡ length text + n
    → HasRoom s (length text + n)
    → (s' : Locals) × (receive_loop (answers ++ rest) s ≡ receive_loop rest s')
      × Counted s s' text
      × (s'.file_size ≡ n)
unfolding next
receive_loop-append s n rest no_piece size r = (s, refl, Counted-refl s, size ∙ omega arith)
receive_loop-append s n rest (piece chunk {text} {answers} some_bytes fits c) size r =
    let total = length-append chunk text in
    let more : (s.file_size == 0) ≡ false = ground (arith, size, total, some_bytes) in
    let whole : take (to_read s.file_size) chunk ≡ chunk =
      take-enough chunk (to_read s.file_size) (ground (arith, size, total, fits)) in
    let (counted, same) =
      count_buffer_lem chunk s (HasRoom-less _ (length chunk) (omega (arith, total)) r) in
    let counted' = resized chunk _ counted in
    let (s', e, others, size') =
      receive_loop-append (next chunk s) n rest c (omega (arith, size, total, r.count)) (
        counted'.room (length text + n)
          (HasRoom-less _ (length chunk + (length text + n)) (omega (arith, total)) r)) in
    (
      s',
      receive_loop-bytes chunk (answers ++ rest) s more whole ∙ e,
      Counted-trans chunk text counted' others,
      size',
    )
