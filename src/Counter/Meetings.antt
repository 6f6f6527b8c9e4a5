-- ===== src/Counter/Meetings.antt =====
-- hw5/tester2.c: what one run of the client does, to itself and to the totals of the server.
use oscourse24btau.Common.{
  ℕ, ◌+◌, ◌^◌, ◌≤◌, ◌<◌, ◌≡◌, refl, ◌∙◌, ap, true, false, List, [], ◌∷◌, ◌++◌, ◌==◌, length,
  length-append, arith,
}
use oscourse24btau.Counter.Wire.{htonl, Answer, bytes, closed}
use oscourse24btau.Counter.Server.{Totals, sent, count_printable_characters}
use oscourse24btau.Counter.Count.{printables, occurrences, occurrences-append, occurrences-bound}
use oscourse24btau.Counter.Laws.{Chops}
use oscourse24btau.Counter.Client.{took, Reads, Take}
use oscourse24btau.Counter.Main.{End, fails, prints, IsReady, client_main}
use oscourse24btau.Counter.Whole.{file_counted}
use oscourse24btau.Counter.Tester.{Meeting, reaches_server, client_end, totals_after}

-- The calls of the client and of the server carry this file.
pub record Carries (text : List ℕ) (m : Meeting) : Type 0 where
  pub ready : IsReady m.setup (length text)
  pub first : m.first ≡ took 4
  pub reads : Reads text m.reads
  pub sends : Take m.sends
  pub enough : length text ≤ length m.sends
  pub pieces : List Answer
  pub rest : List Answer
  pub chops : Chops text pieces
  pub answers : m.answers ≡ bytes (htonl (length text)) ∷ pieces ++ rest
  pub replies : m.replies ≡ true

-- The client is started well, and its file does not exist.
pub record Misses (m : Meeting) : Type 0 where
  pub argc : m.setup.argc ≡ 4
  pub file : m.setup.opens_file ≡ false

-- The totals of a server that has counted a text.
unfoldable pub Counts : List ℕ → Totals → Type 0
Counts text totals = (i : ℕ) → i < 95 → totals i ≡ occurrences (i + 32) text

pub record Met (before text : List ℕ) (m : Meeting) (totals : Totals) : Type 0 where
  pub client : client_end m totals ≡ prints (printables text)
  pub server : Counts (before ++ text) (totals_after m totals)

pub Carries-Met :
    (before text : List ℕ) (m : Meeting) (totals : Totals)
    → Carries text m
    → length (before ++ text) < 2 ^ 32
    → Counts before totals
    → Met before text m totals
unfolding client_end totals_after Counts
Carries-Met before text m totals c small old =
    let size = length-append before text in
    let (reply, t', e, grown, shown) =
      file_counted m.setup text m.reads m.sends c.pieces c.rest m.server_memory m.client_memory
        totals c.ready (omega arith) c.reads c.sends c.enough c.chops in
    let four : (m.setup.argc == 4) ≡ true = let q = c.ready.argc in ground (arith, q) in
    let reaches : reaches_server m.setup ≡ true =
      rw (four, c.ready.file, c.ready.socket, c.ready.address, c.ready.connection) in
    let ran : count_printable_characters m.server_memory m.answers m.replies totals
        ≡ (sent reply, t') =
      ap (λ l. count_printable_characters m.server_memory l m.replies totals) c.answers
      ∙ ap
          (λ b.
            count_printable_characters m.server_memory
              (bytes (htonl (length text)) ∷ c.pieces ++ c.rest) b totals)
          c.replies
      ∙ e in
    record {
      client = rw (reaches, ran, c.first) (ap (λ (r : End × List ℕ). r.0) shown);
      server = λ i lt.
          rw (reaches, ran)
            (grown i lt
              ∙ omega (
                arith,
                old i lt,
                occurrences-append (i + 32) before text,
                occurrences-bound (i + 32) (before ++ text),
              ));
    }

pub record Missed (m : Meeting) (totals : Totals) : Type 0 where
  pub client : client_end m totals ≡ fails
  pub server : totals_after m totals ≡ totals

pub Misses-Missed : (m : Meeting) (totals : Totals) → Misses m → Missed m totals
unfolding client_end totals_after client_main
Misses-Missed m totals ms =
    let four : (m.setup.argc == 4) ≡ true = let q = ms.argc in ground (arith, q) in
    let no_server : reaches_server m.setup ≡ false = rw (four, ms.file) in
    let fails_first : client_main m.setup m.first m.reads m.sends m.client_memory closed
        ≡ (fails, []) =
      simp (client_main, four, ms.file) refl in
    record {
      client = rw no_server (ap (λ (r : End × List ℕ). r.0) fails_first);
      server = rw no_server;
    }
