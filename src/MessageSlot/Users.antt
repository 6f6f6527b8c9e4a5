-- ===== src/MessageSlot/Users.antt =====
-- hw3/message_sender.c and hw3/message_reader.c on the driver. What the C library and the kernel
-- around the driver decide (`strtol`, which device a path names, the allocations, the output) is
-- an argument.
use oscourse24btau.Common.{
  ℕ, ◌-◌, ◌^◌, Bool, true, ◌&&◌, not, Option, none, some, List, [], ◌∷◌, ◌++◌, ◌==◌, if◌then◌else◌,
  length, take,
}
use oscourse24btau.MessageSlot.Driver.{
  Devices, Outcome, done, undefined, Errno, Reply, ok, failed, buf_len, Kernel, device_open,
  device_ioctl, device_read, device_write, got, refused,
}

-- `c`, and what `strtol` makes of `args[2]`: the number, as its 64 bits, and whether it sets `errno` to
-- `ERANGE`.
pub record Args : Type 0 where
  pub c : ℕ
  pub channel_id : ℕ
  pub out_of_range : Bool

-- What a process leaves with: a code of its own, or `errno` of the call that failed. The reader has
-- written bytes to its output.
pub data Exit : Type 0 where
  exits : ℕ → Exit
  exits_bad_fd : Exit
  exits_errno : Errno → Exit
  prints : List ℕ → Exit

abbrev pub uint_max : ℕ
uint_max = 2 ^ 32 - 1

-- The test behind `strtol` in both programs.
abbrev pub wrong_channel : Args → Bool
wrong_channel args = (args.channel_id == uint_max) && args.out_of_range

-- `open`: `reach` is the minor number of the device that the path names, if it can be opened at all.
-- The result is the minor number of the file, or `none` for -1.
unfoldable pub open_file : Bool → Option ℕ → Devices → Option ℕ × Devices
open_file allocates none d = (none, d)
open_file allocates (some minor) d =
    let (reply, d') = device_open allocates minor d in
    elim reply [ ok _ ↦ (some minor, d') | failed _ ↦ (none, d') ]

-- The rest of the sender, from the reply of `ioctl` and the new `private_data`.
unfoldable pub send_message : Kernel → Reply → ℕ → ℕ → List ℕ → Devices → Outcome (Exit × Devices)
send_message k (failed e) private_data minor msg d = done (exits_errno e, d)
send_message k (ok _) private_data minor msg d =
    elim (device_write k private_data minor (some (msg ++ (0 ∷ []))) (length msg) d) [
      | undefined ↦ undefined
      | done (reply, d') ↦ elim reply [
        | ok _ ↦ done (exits 0, d')
        | failed e ↦ done (exits_errno e, d')
      ]
    ]

-- From the descriptor on. A failed `open` is reported, and the program goes on with the descriptor -1,
-- on which `ioctl` fails.
unfoldable pub send_on : ℕ → Kernel → Args → List ℕ → Option ℕ × Devices → Outcome (Exit × Devices)
unfolding send_message
send_on channel_command k args msg (none, d) = done (exits_bad_fd, d)
send_on channel_command k args msg (some minor, d) =
    let (reply, p) = device_ioctl channel_command channel_command args.channel_id 0 in
    send_message k reply p minor msg d

-- `main` of the sender.
unfoldable pub sender :
    ℕ → Kernel → Bool → Option ℕ → Args → List ℕ → Devices → Outcome (Exit × Devices)
unfolding open_file send_on
sender channel_command k allocates reach args msg d =
    if not (args.c == 4)
    then done (exits 1, d)
    else if wrong_channel args
    then done (exits 1, d)
    else send_on channel_command k args msg (open_file allocates reach d)

-- The rest of the reader, likewise. `shown` is how many bytes the output takes.
unfoldable pub receive_message : Bool → Bool → ℕ → Reply → ℕ → ℕ → Devices → Outcome Exit
receive_message tmp_block copies shown (failed e) private_data minor d = done (exits_errno e)
receive_message tmp_block copies shown (ok _) private_data minor d =
    elim (device_read tmp_block copies private_data minor true buf_len d) [
      | undefined ↦ undefined
      | done delivery ↦ elim delivery [
        | got msg ↦ done (prints (take shown msg))
        | refused e ↦ done (exits_errno e)
      ]
    ]

-- From the descriptor on; `callocs` is whether the buffer can be allocated.
unfoldable pub read_on :
    ℕ → Bool → Bool → Bool → ℕ → Args → Option ℕ × Devices → Outcome (Exit × Devices)
unfolding receive_message
read_on channel_command tmp_block copies callocs shown args (none, d) = done (exits 1, d)
read_on channel_command tmp_block copies callocs shown args (some minor, d) =
    if not callocs
    then done (exits 1, d)
    else let (reply, p) = device_ioctl channel_command channel_command args.channel_id 0 in
      elim (receive_message tmp_block copies shown reply p minor d) [
        | undefined ↦ undefined
        | done e ↦ done (e, d)
      ]

-- `main` of the reader.
unfoldable pub reader :
    ℕ → Bool → Bool → Bool → ℕ → Bool → Option ℕ → Args → Devices → Outcome (Exit × Devices)
unfolding open_file read_on
reader channel_command tmp_block copies callocs shown allocates reach args d =
    if not (args.c == 3)
    then done (exits 1, d)
    else if wrong_channel args
    then done (exits 1, d)
    else read_on channel_command tmp_block copies callocs shown args (open_file allocates reach d)
