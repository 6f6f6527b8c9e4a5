-- ===== src/Counter/Whole.antt =====
-- hw5: a client and the server together.
use oscourse24btau.Common.{
  ℕ, ◌+◌, ◌%◌, ◌^◌, ◌≤◌, ◌<◌, ◌≡◌, refl, ◌∙◌, ap, true, List, ◌∷◌, ◌++◌, ◌==◌, length, arith,
}
use oscourse24btau.Counter.Wire.{htonl, ntohl, overwrite, Answer, bytes, ntohl-htonl}
use oscourse24btau.Counter.Server.{Totals, sent, count_printable_characters}
use oscourse24btau.Counter.Count.{printables, printables-bound, occurrences}
use oscourse24btau.Counter.Laws.{Chops}
use oscourse24btau.Counter.Contract.{received}
use oscourse24btau.Counter.Client.{
  SendAnswer, took, ReadAnswer, send_file, Reads, Take, client_sends,
}
use oscourse24btau.Counter.Main.{
  ClientSetup, IsReady, prints, print_count, after_sending, client_main,
}

client-ready :
    (s : ClientSetup) (n : ℕ) (first : SendAnswer) (reads : List ReadAnswer)
    (sends : List SendAnswer) (memory : List ℕ) (reply : Answer)
    → IsReady s n
    → client_main s first reads sends memory reply
      ≡ after_sending memory reply (send_file n first reads sends)
unfolding client_main
client-ready s n first reads sends memory reply is =
    let four : (s.argc == 4) ≡ true = let e = is.argc in ground (arith, e) in
    simp (client_main, four, is.file, is.socket, is.address, is.connection, is.size) refl

-- When the set-up of the client succeeds, its file has less than 2^32 bytes, the calls of `read`
-- deliver it, the size goes out in one call, and the calls of `send` go on, then the client sends
-- its size and the file; a server that gets these bytes, the file cut in pieces of 1 to 1024 bytes
-- in whatever way, replies and adds the characters of the file to its totals; and the client, when
-- it gets the reply in one piece, prints the number of printable bytes of its file.
pub file_counted :
    (s : ClientSetup) (text : List ℕ) (reads : List ReadAnswer) (sends : List SendAnswer)
    (answers rest : List Answer) (memory memory' : List ℕ) (totals : Totals)
    → IsReady s (length text)
    → length text < 2 ^ 32
    → Reads text reads
    → Take sends
    → length text ≤ length sends
    → Chops text answers
    → (reply : List ℕ) × (t' : Totals) × (count_printable_characters memory
          (bytes (htonl (length text)) ∷ answers ++ rest)
          true
          totals
        ≡ (sent reply, t'))
      × ((i : ℕ) → i < 95 → t' i ≡ (totals i + occurrences (i + 32) text) % 2 ^ 32)
      × (client_main s (took 4) reads sends memory' (bytes reply)
          ≡ (prints (printables text), htonl (length text) ++ text))
unfolding print_count
file_counted s text reads sends answers rest memory memory' totals is small r t enough c =
    let (t', e, grown) = received memory text answers rest totals small c in
    let (left, e') = client_sends text reads sends small r t enough in
    let reply = htonl (printables text) in
    let shown : ntohl (overwrite reply memory') ≡ printables text =
      ntohl-htonl (printables text) memory' (omega (arith, printables-bound text, small)) in
    (
      reply,
      t',
      e,
      grown,
      client-ready s (length text) (took 4) reads sends memory' (bytes reply) is
          ∙ ap (after_sending memory' (bytes reply)) e'
          ∙ ap (λ n. (prints n, htonl (length text) ++ text)) shown,
    )
