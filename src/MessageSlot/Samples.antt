-- ===== src/MessageSlot/Samples.antt =====
-- hw3: runs of the sender and the reader, and of the release of the lists.
use oscourse24btau.Common.{
  ℕ, zero, suc, ◌≡◌, refl, sym, ap, true, false, Option, none, some, List, [], ◌∷◌, length, arith,
}
use oscourse24btau.MessageSlot.Driver.{
  Devices, done, Kernel, put, device_open, device_ioctl, create_node, einval,
}
use oscourse24btau.MessageSlot.Content.{IsKernel}
use oscourse24btau.MessageSlot.Reach.{Reachable, start, opened}
use oscourse24btau.MessageSlot.Cleanup.{
  msg_of, node_of, list_of, simple_cleanup, cleanup_loop, free_lst, free_from, free_nodes,
  free_node, all_owned, cleanup_frees,
}
use oscourse24btau.MessageSlot.Users.{
  Args, exits, exits_bad_fd, exits_errno, prints, sender, reader, open_file, send_on, send_message,
}
use oscourse24btau.MessageSlot.Programs.{sent_then_read}

abbrev zeros : ℕ → List ℕ
zeros zero = []
zeros (suc n) = 0 ∷ zeros n

abbrev kernel : Kernel
kernel = record {
  node_block = some 7;
  msg_block = some (zeros 128);
  tmp_block = true;
  copies = true;
}

kernel-IsKernel : IsKernel kernel
kernel-IsKernel = record {
  size = λ bytes e.
      ap (λ (o : Option (List ℕ)). elim o as (λ _. ℕ) [ none ↦ 0 | some l ↦ length l ]) (sym e);
}

abbrev closed : Devices
closed = λ j. none

abbrev hello : List ℕ
hello = 104 ∷ 101 ∷ 108 ∷ 108 ∷ 111 ∷ []

-- `message_sender PATH 9 hello` and `message_reader PATH 9`
abbrev to_nine : Args
to_nine = record { c = 4; channel_id = 9; out_of_range = false }

abbrev from_nine : Args
from_nine = record { c = 3; channel_id = 9; out_of_range = false }

node_test : create_node kernel 9 ≡ some (record { channel_id = 9; msg = zeros 128; msg_length = 7 })
unfolding create_node
node_test = refl

sent_then_read_example :
    (d : Devices) × (sender 1074065408 kernel true (some 3) to_nine hello closed
      ≡ done (exits 0, d))
    × (reader 1074065408 true true true 5 false (some 3) from_nine d ≡ done (prints hello, d))
sent_then_read_example =
    sent_then_read 1074065408 kernel 3 to_nine from_nine hello 5 false closed
      (record { channel_id = 9; msg = zeros 128; msg_length = 7 }) start kernel-IsKernel refl refl
      node_test refl refl refl refl (λ e. ground arith) refl (omega arith) (omega arith)
      (omega arith)

-- The sender goes on after an `open` that fails.
no_device_test :
    sender 1074065408 kernel true none to_nine hello closed ≡ done (exits_bad_fd, closed)
unfolding sender open_file send_on
no_device_test = refl

-- Channel 0 is refused by `ioctl`.
channel_zero_test :
    sender 1074065408 kernel false
      (some 3)
      (record to_nine { channel_id = 0 })
      hello
      (put closed 3 (record { first = none; size = 0 }))
    ≡ done (exits_errno einval, put closed 3 (record { first = none; size = 0 }))
unfolding sender open_file device_open send_on device_ioctl send_message
channel_zero_test = refl

open3-Reachable : Reachable (device_open true 3 closed).1
open3-Reachable = opened true 3 start

cleanup_frees_example :
    simple_cleanup (device_open true 3 closed).1
    ≡ done (all_owned 256 1 (device_open true 3 closed).1)
cleanup_frees_example = cleanup_frees (device_open true 3 closed).1 open3-Reachable

-- Two nodes of the fourth device.
abbrev two_nodes : Devices
two_nodes = put closed 3 (record {
  first = some (
      record { channel_id = 1; msg = []; msg_length = 0 }
      ∷ record { channel_id = 2; msg = []; msg_length = 0 }
      ∷ []);
  size = 2;
})

cleanup_test :
    simple_cleanup two_nodes
    ≡ done (msg_of 4 0 ∷ node_of 4 0 ∷ msg_of 4 1 ∷ node_of 4 1 ∷ list_of 4 ∷ [])
unfolding simple_cleanup cleanup_loop free_lst free_from free_nodes free_node
cleanup_test = refl
