-- ===== src/Counter/Main.antt =====
-- hw5/pcc_client.c: the whole of `main`.
use oscourse24btau.Common.{
  ℕ, Bool, true, not, Option, none, some, List, [], ◌==◌, ◌≡◌, if◌then◌else◌,
}
use oscourse24btau.Counter.Wire.{ntohl, overwrite, Answer, bytes, closed, failed}
use oscourse24btau.Counter.Client.{
  SendAnswer, ReadAnswer, Sending, all_sent, exits, stalls, send_file,
}

-- The number of arguments, which calls of the set-up succeed, and the size that `lseek` returns.
pub record ClientSetup : Type 0 where
  pub argc : ℕ
  pub opens_file : Bool
  pub makes_socket : Bool
  pub knows_address : Bool
  pub connects : Bool
  pub file_size : Option ℕ

-- How the client ends: with code 1, with the count that it prints, or not yet.
pub data End : Type 0 where
  fails : End
  prints : ℕ → End
  waiting : End

-- From the answer of the last `recv`; `memory` is what `net_printable_count` holds by chance.
unfoldable pub print_count : List ℕ → Answer → End
print_count memory (bytes l) = prints (ntohl (overwrite l memory))
print_count memory closed = prints (ntohl memory)
print_count memory failed = fails

abbrev pub after_sending : List ℕ → Answer → Sending → End × List ℕ
after_sending memory reply (all_sent left out) = (print_count memory reply, out)
after_sending memory reply (exits out) = (fails, out)
after_sending memory reply (stalls out) = (waiting, out)

-- `main`: how it ends, and what it has sent.
unfoldable pub client_main :
    ClientSetup → SendAnswer → List ReadAnswer → List SendAnswer → List ℕ → Answer → End × List ℕ
unfolding print_count send_file
client_main s first reads sends memory reply =
    if not (s.argc == 4)
    then (fails, [])
    else if not s.opens_file
    then (fails, [])
    else if not s.makes_socket
    then (fails, [])
    else if not s.knows_address
    then (fails, [])
    else if not s.connects
    then (fails, [])
    else elim s.file_size [
      | none ↦ (fails, [])
      | some n ↦ after_sending memory reply (send_file n first reads sends)
    ]

-- Everything before the `lseek` succeeds, and the size is `n`.
pub record IsReady (s : ClientSetup) (n : ℕ) : Type 0 where
  pub argc : s.argc ≡ 4
  pub file : s.opens_file ≡ true
  pub socket : s.makes_socket ≡ true
  pub address : s.knows_address ≡ true
  pub connection : s.connects ≡ true
  pub size : s.file_size ≡ some n
