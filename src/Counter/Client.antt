-- ===== src/Counter/Client.antt =====
-- hw5/pcc_client.c: what `main` sends once it is connected. The answers of `read` and of `send` are
-- lists, one answer for each call.
use oscourse24btau.Common.{
  ℕ, zero, suc, ◌+◌, ◌%◌, ◌^◌, ◌≤◌, ◌<◌, ◌≡◌, refl, ◌∙◌, ap, List, [], ◌∷◌, ◌++◌, length, take,
  drop, length-append, length-drop, arith,
}
use oscourse24btau.Counter.Wire.{htonl}

pub data SendAnswer : Type 0 where
  took : ℕ → SendAnswer
  send_failed : SendAnswer

pub data ReadAnswer : Type 0 where
  chunk : List ℕ → ReadAnswer
  at_end read_failed : ReadAnswer

-- What has gone to the socket, and whether the loop is over (with the answers of `send` that are
-- left), the program has left with an error, or it waits for an answer.
pub data Sending : Type 0 where
  all_sent : List SendAnswer → List ℕ → Sending
  exits : List ℕ → Sending
  stalls : List ℕ → Sending

abbrev pub put_before : List ℕ → Sending → Sending
put_before out (all_sent left more) = all_sent left (out ++ more)
put_before out (exits more) = exits (out ++ more)
put_before out (stalls more) = stalls (out ++ more)

-- The loop over `bytes_sent`; the list is what is left of the buffer.
unfoldable pub send_loop : List SendAnswer → List ℕ → Sending
send_loop sends [] = all_sent sends []
send_loop [] (b ∷ l) = stalls []
send_loop (send_failed ∷ sends) (b ∷ l) = exits []
send_loop (took r ∷ sends) (b ∷ l) = put_before (take r (b ∷ l)) (send_loop sends (drop r (b ∷ l)))

-- The loop over `read`.
unfoldable pub copy_loop : List ReadAnswer → List SendAnswer → Sending
unfolding send_loop
copy_loop [] sends = stalls []
copy_loop (at_end ∷ reads) sends = all_sent sends []
copy_loop (read_failed ∷ reads) sends = exits []
copy_loop (chunk l ∷ reads) sends = elim (send_loop sends l) [
  | all_sent left out ↦ put_before out (copy_loop reads left)
  | exits out ↦ exits out
  | stalls out ↦ stalls out
]

-- `main` from the `send` of the size on.
unfoldable pub send_file : ℕ → SendAnswer → List ReadAnswer → List SendAnswer → Sending
unfolding copy_loop
send_file file_size send_failed reads sends = exits []
send_file file_size (took r) reads sends =
    put_before (take r (htonl (file_size % 2 ^ 32))) (copy_loop reads sends)

-- The answers of `read` deliver the text of the file and then its end.
pub data Reads : List ℕ → List ReadAnswer → Type 0 where
  end_of_file : (reads : List ReadAnswer) → Reads [] (at_end ∷ reads)
  next_chunk :
      (l : List ℕ) {text : List ℕ} {reads : List ReadAnswer}
      → 0 < length l
      → length l ≤ 1024
      → Reads text reads
      → Reads (l ++ text) (chunk l ∷ reads)

-- Each `send` takes at least one byte.
abbrev pub Take : List SendAnswer → Type 0
Take [] = Unit {0}
Take (took r ∷ l) = (0 < r) × Take l
Take (send_failed ∷ l) = ⊥

take-drop : (n : ℕ) (l : List ℕ) → take n l ++ drop n l ≡ l
take-drop zero l = refl
take-drop (suc n) [] = refl
take-drop (suc n) (x ∷ l) = ap (λ r. x ∷ r) (take-drop n l)

-- A loop that is over has sent `l`, and at least as many answers are left as calls were not needed.
SendsAll : List SendAnswer → List ℕ → Sending → Type 0
SendsAll sends l r =
    (left : List SendAnswer) × (r ≡ all_sent left l)
    × Take left
    × (length sends ≤ length left + length l)

send_loop_lem :
    (sends : List SendAnswer) (l : List ℕ)
    → Take sends
    → length l ≤ length sends
    → SendsAll sends l (send_loop sends l)
unfolding send_loop SendsAll
send_loop_lem sends [] t enough = (sends, refl, t, omega arith)
send_loop_lem [] (b ∷ l) t enough = absurd (omega (arith, enough))
send_loop_lem (send_failed ∷ sends) (b ∷ l) t enough = absurd t
send_loop_lem (took r ∷ sends) (b ∷ l) t enough =
    let size = length-drop r (b ∷ l) in
    let (left, e, t', more) =
      send_loop_lem sends (drop r (b ∷ l)) t.1 (omega (arith, size, enough, t.0)) in
    (
      left,
      ap (put_before (take r (b ∷ l))) e ∙ ap (all_sent left) (take-drop r (b ∷ l)),
      t',
      omega (arith, more, size, t.0),
    )

copy_loop_lem :
    {text : List ℕ} {reads : List ReadAnswer} (sends : List SendAnswer)
    → Reads text reads
    → Take sends
    → length text ≤ length sends
    → SendsAll sends text (copy_loop reads sends)
unfolding copy_loop SendsAll
copy_loop_lem sends (end_of_file reads) t enough = (sends, refl, t, omega arith)
copy_loop_lem sends (next_chunk l {text} {reads} some_bytes fits r) t enough =
    let total = length-append l text in
    let (mid, e, t', more) = send_loop_lem sends l t (omega (arith, enough, total)) in
    let (left, e', t'', more') = copy_loop_lem mid r t' (omega (arith, enough, more, total)) in
    (left, rw (copy_loop, e) (ap (put_before l) e'), t'', omega (arith, more, more', total))

-- When the file has less than 2^32 bytes, the reads deliver it up to its end, the size is sent in one
-- call, and there is an answer of `send` for each byte of the file that takes one byte or more,
-- the client comes to the end of its loops and has sent the size and then exactly the file,
-- however the reads and the calls of `send` cut it.
pub client_sends :
    (text : List ℕ) (reads : List ReadAnswer) (sends : List SendAnswer)
    → length text < 2 ^ 32
    → Reads text reads
    → Take sends
    → length text ≤ length sends
    → (left : List SendAnswer) × (send_file (length text) (took 4) reads sends
        ≡ all_sent left (htonl (length text) ++ text))
unfolding send_file SendsAll htonl
client_sends text reads sends small r t enough =
    let (left, e, t', more) = copy_loop_lem sends r t enough in
    let size : length text % 2 ^ 32 ≡ length text = omega (arith, small) in
    (
      left,
      ap (put_before (take 4 (htonl (length text % 2 ^ 32)))) e
          ∙ ap (λ n. all_sent left (htonl n ++ text)) size,
    )
