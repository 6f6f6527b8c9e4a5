-- ===== src/MessageSlot/Tests.antt =====
-- hw3/message_slot.c: runs of the driver.
use oscourse24btau.Common.{
  ℕ, zero, suc, ◌+◌, ◌-◌, ◌^◌, ◌≡◌, refl, sym, ap, ◌⊎◌, true, false, ◌&&◌, Option, none, some, List,
  [], ◌∷◌, ◌++◌, ◌==◌, if◌then◌else◌, length, take, arith,
}
use oscourse24btau.MessageSlot.Driver.{
  Slot, Devices, done, undefined, eperm, einval, enospc, Reply, ok, failed, to_int, got, Kernel,
  create_node, get_or_create_node, search, place, store_message, put, device_open, device_ioctl,
  device_read, device_write, find, find_channel_id, simple_init,
}
use oscourse24btau.MessageSlot.Write.{IsDevices}
use oscourse24btau.MessageSlot.Content.{content, IsKernel, Holds}
use oscourse24btau.MessageSlot.Contract.{write_ends, content-write}
use oscourse24btau.MessageSlot.Failed.{Cut, content-failed}
use oscourse24btau.MessageSlot.Place.{node_of}
use oscourse24btau.MessageSlot.Reading.{reply_to, read-write}
use oscourse24btau.MessageSlot.Reach.{
  Reachable, start, opened, written, IsDevices-Reachable, write_accepted,
}

abbrev zeros : ℕ → List ℕ
zeros zero = []
zeros (suc n) = 0 ∷ zeros n

abbrev kernel : Kernel
kernel = record {
  node_block = some 7;
  msg_block = some (zeros 128);
  tmp_block = true;
  copies = true;
}

abbrev no_copy : Kernel
no_copy = record kernel { copies = false }

abbrev hello : List ℕ
hello = 104 ∷ 101 ∷ 108 ∷ 108 ∷ 111 ∷ []

-- Nothing is open, then minor 3 is, then channel 9 of it holds `hello`.
abbrev closed : Devices
closed = λ j. none

abbrev open3 : Devices
open3 = put closed 3 (record { first = none; size = 0 })

abbrev slot9 : Slot
slot9 = record { channel_id = 9; msg = hello ++ zeros 123; msg_length = 5 }

abbrev said : Devices
said = put open3 3 (record { first = some (slot9 ∷ []); size = 1 })

kernel-IsKernel : IsKernel kernel
kernel-IsKernel = record {
  size = λ bytes e.
      ap (λ (o : Option (List ℕ)). elim o as (λ _. ℕ) [ none ↦ 0 | some l ↦ length l ]) (sym e);
}

hello-Holds : Holds (some hello) 5
unfolding Holds
hello-Holds bytes e =
    let same : hello ≡ bytes = ground (arith, e) in ground (arith, ap (λ l. length l) same)

open3-Reachable : Reachable open3
unfolding device_open
open3-Reachable = opened true 3 start

write_test : device_write kernel 9 3 (some hello) 5 open3 ≡ done (ok 5, said)
unfolding device_write get_or_create_node search place create_node store_message
write_test = refl

said-Reachable : Reachable said
said-Reachable =
    written kernel 9 3 (some hello) 5 (ok 5) kernel-IsKernel hello-Holds write_test open3-Reachable

said-IsDevices : IsDevices said
said-IsDevices = IsDevices-Reachable said said-Reachable

-- Channels stand in the order of `int`s: 2^32 - 1 is -1, and comes first.
order_test :
    get_or_create_node kernel (record { first = some (slot9 ∷ []); size = 1 }) (2 ^ 32 - 1)
    ≡ done (
        some (
          record {
            first =
                some (
                  record { channel_id = 2 ^ 32 - 1; msg = zeros 128; msg_length = 7 } ∷ slot9 ∷ []);
            size = 2;
          },
          0,
        ))
unfolding get_or_create_node search place create_node
order_test = refl

-- A copy that fails leaves the old bytes under the new length.
spoiled_test :
    elim (device_write no_copy 9 3 (some hello) 2 said) [
      | undefined ↦ none
      | done (reply, d) ↦ content d 3 9
    ]
    ≡ some (104 ∷ 101 ∷ [])
unfolding device_write get_or_create_node search place create_node store_message content node_of
spoiled_test = refl

-- A read of a device that is open and has not been written to reads memory without a value.
unwritten_test : device_read true true 9 3 true 128 open3 ≡ undefined
unfolding device_read find_channel_id find
unwritten_test = refl

-- An allocation that fails refuses the open.
open_test : (device_open false 3 closed).0 ≡ failed eperm
unfolding device_open
open_test = refl

ioctl_test : device_ioctl 1074065408 1074065408 0 9 ≡ (failed einval, 9)
unfolding device_ioctl
ioctl_test = refl

init_test : simple_init false ≡ 240
unfolding simple_init
init_test = refl

write_ends_example :
    (reply : Reply) × (d' : Devices) × (device_write kernel 9 3 (some hello) 5 open3
      ≡ done (reply, d'))
    × IsDevices d'
write_ends_example =
    write_ends kernel 9 3 (some hello) 5 open3 kernel-IsKernel hello-Holds
      (IsDevices-Reachable open3 open3-Reachable)

content-write_example :
    (◌≡◌ {A = ℕ} 5 5)
    × ((minor' c : ℕ)
        → content said minor' c ≡ (
            if (3 == minor') && (to_int 9 == c)
            then some (take 5 hello)
            else content open3 minor' c))
content-write_example =
    content-write kernel 9 3 hello 5 5 open3 said (omega arith)
      (IsDevices-Reachable open3 open3-Reachable) write_test

-- Channel 9 after a write of 2 bytes has failed.
abbrev slot9_cut : Slot
slot9_cut = record slot9 { msg_length = 2 }

abbrev spoiled : Devices
spoiled = put said 3 (record { first = some (slot9_cut ∷ []); size = 1 })

no_copy_test : device_write no_copy 9 3 (some hello) 2 said ≡ done (failed enospc, spoiled)
unfolding device_write get_or_create_node search place create_node store_message
no_copy_test = refl

content-failed_example : (spoiled ≡ said) ⊎ ((enospc ≡ enospc) × Cut 3 (to_int 9) 2 said spoiled)
content-failed_example =
    content-failed no_copy 9 3 (some hello) 2 enospc said spoiled
      (record { size = kernel-IsKernel.size }) said-IsDevices no_copy_test

content_test : content said 3 9 ≡ some hello
unfolding content node_of
content_test = refl

read_reply_test : reply_to false (content said 3 9) true 5 ≡ got hello
unfolding content node_of
read_reply_test = refl

read-write_example : device_read true true (2 ^ 32 + 9) 3 true 128 said ≡ done (got hello)
read-write_example =
    read-write kernel 9 3 hello 5 5 open3 said (2 ^ 32 + 9) 128 kernel-IsKernel (omega arith)
      (IsDevices-Reachable open3 open3-Reachable) write_test (λ e. ground (arith, e)) refl
      (omega arith)

IsDevices-Reachable_example : IsDevices said
IsDevices-Reachable_example = IsDevices-Reachable said said-Reachable

node_test : create_node kernel 9 ≡ some (record { channel_id = 9; msg = zeros 128; msg_length = 7 })
unfolding create_node
node_test = refl

write_accepted_example :
    (d' : Devices) × (device_write kernel 9 3 (some hello) 5 open3 ≡ done (ok 5, d'))
write_accepted_example =
    write_accepted kernel 9 3 hello 5 open3 (record { first = none; size = 0 })
      (record { channel_id = 9; msg = zeros 128; msg_length = 7 }) open3-Reachable refl
      (λ e. ground (arith, e)) (omega arith) (omega arith) node_test refl refl
