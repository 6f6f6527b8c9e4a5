-- ===== src/MessageSlot/Programs.antt =====
-- hw3: a message from the sender, over the driver, to the reader.
use oscourse24btau.Common.{
  ℕ, zero, suc, ◌+◌, ◌≤◌, ◌<◌, ◌≡◌, ◌≢◌, refl, sym, ◌∙◌, ap, Bool, true, false, inl, inr, Option,
  Option-cases, none, some, List, [], ◌∷◌, ◌++◌, ◌==◌, ==_refl, length, take, length-append, arith,
}
use mathlib.Core.Path.{subst}
use oscourse24btau.MessageSlot.Driver.{
  Slot, SlotList, Devices, done, Reply, ok, failed, to_int, Kernel, create_node, put, device_open,
  device_ioctl, device_read, device_write, got,
}
use oscourse24btau.MessageSlot.Content.{content, IsKernel}
use oscourse24btau.MessageSlot.Contract.{content-write}
use oscourse24btau.MessageSlot.Reading.{found, read-write}
use oscourse24btau.MessageSlot.Reach.{Reachable, opened, IsDevices-Reachable, write_accepted}
use oscourse24btau.MessageSlot.Users.{
  Args, exits, prints, wrong_channel, open_file, send_message, send_on, sender, receive_message,
  read_on, reader,
}

-- An open that can allocate succeeds, and then the device has a list.
open-allocates :
    (minor : ℕ) (d : Devices)
    → (d' : Devices) × (lst : SlotList) × (device_open true minor d ≡ (ok 0, d'))
      × (d' (minor + 1) ≡ some lst)
unfolding device_open
open-allocates minor d = elim (Option-cases (d (minor + 1))) [
  | inr (lst, e) ↦ (d, lst, rw (device_open, e) refl, e)
  | inl e ↦
      let empty : SlotList = record { first = none; size = 0 } in
      (put d minor empty, empty, rw (device_open, e) refl, rw (==_refl (minor + 1)) refl)
]

-- An open of a device that has a list changes nothing.
open-again :
    (allocates : Bool) (minor : ℕ) (d : Devices) (lst : SlotList)
    → d (minor + 1) ≡ some lst
    → device_open allocates minor d ≡ (ok 0, d)
unfolding device_open
open-again allocates minor d lst e = rw (device_open, e) refl

open_file-done :
    (allocates : Bool) (minor : ℕ) (d d' : Devices)
    → device_open allocates minor d ≡ (ok 0, d')
    → open_file allocates (some minor) d ≡ (some minor, d')
unfolding open_file
open_file-done allocates minor d d' e =
    ap
      (λ (r : Reply × Devices). elim r.0 as (λ _. Option ℕ × Devices) [
        | ok _ ↦ (some minor, r.1)
        | failed _ ↦ (none, r.1)
      ])
      e

ioctl-accepts :
    (channel_command c : ℕ) → c ≢ 0 → device_ioctl channel_command channel_command c 0 ≡ (ok 0, c)
unfolding device_ioctl
ioctl-accepts channel_command c ne =
    let nonzero : (c == 0) ≡ false = ground arith in rw (==_refl channel_command, nonzero) refl

take-append : (l r : List ℕ) → take (length l) (l ++ r) ≡ l
take-append [] r = refl
take-append (x ∷ l) r = ap (λ t. x ∷ t) (take-append l r)

take-enough : (n : ℕ) (l : List ℕ) → length l ≤ n → take n l ≡ l
take-enough zero [] le = refl
take-enough (suc n) [] le = refl
take-enough zero (x ∷ l) le = absurd (omega (arith, le))
take-enough (suc n) (x ∷ l) le = ap (λ t. x ∷ t) (take-enough n l (omega (arith, le)))

module _ (channel_command : ℕ) (minor : ℕ) (args : Args) (known : wrong_channel args ≡ false)
    (nonzero : args.channel_id ≢ 0) where
  sender-done :
      (k : Kernel) (msg : List ℕ) (d d1 d' : Devices)
      → args.c ≡ 4
      → device_open true minor d ≡ (ok 0, d1)
      → device_write k args.channel_id minor (some (msg ++ (0 ∷ []))) (length msg) d1
        ≡ done (ok (length msg), d')
      → sender channel_command k true (some minor) args msg d ≡ done (exits 0, d')
  unfolding sender send_on send_message
  sender-done k msg d d1 d' count opens e =
      let counted : (args.c == 4) ≡ true = ground arith in
      rw (counted, known)
        (ap (send_on channel_command k args msg) (open_file-done true minor d d1 opens)
          ∙ rw (send_on, ioctl-accepts channel_command args.channel_id nonzero, send_message, e)
              refl)

  reader-done :
      (shown : ℕ) (allocates : Bool) (msg : List ℕ) (d : Devices) (lst : SlotList)
      → args.c ≡ 3
      → d (minor + 1) ≡ some lst
      → length msg ≤ shown
      → device_read true true args.channel_id minor true 128 d ≡ done (got msg)
      → reader channel_command true true true shown allocates (some minor) args d
        ≡ done (prints msg, d)
  unfolding reader read_on receive_message
  reader-done shown allocates msg d lst count there enough e =
      let counted : (args.c == 3) ≡ true = ground arith in
      rw (counted, known)
        (ap (read_on channel_command true true true shown args)
            (open_file-done allocates minor d d (open-again allocates minor d lst there))
          ∙ rw
              (
                read_on,
                ioctl-accepts channel_command args.channel_id nonzero,
                receive_message,
                e,
                take-enough shown msg enough,
              )
              refl)

-- In every state that is reached, when all calls of the C library and the kernel succeed and the two
-- programs name the same device and the same channel, not 0, a message of 1 to 128 bytes goes from
-- the arguments of the sender to the output of the reader, and both end well.
pub sent_then_read :
    (channel_command : ℕ) (k : Kernel) (minor : ℕ) (to from : Args) (msg : List ℕ) (shown : ℕ)
    (allocates : Bool) (d : Devices) (x : Slot)
    → Reachable d
    → IsKernel k
    → k.tmp_block ≡ true
    → k.copies ≡ true
    → create_node k (to_int to.channel_id) ≡ some x
    → to.c ≡ 4
    → from.c ≡ 3
    → wrong_channel to ≡ false
    → wrong_channel from ≡ false
    → to.channel_id ≢ 0
    → from.channel_id ≡ to.channel_id
    → 0 < length msg
    → length msg < 129
    → length msg ≤ shown
    → (d' : Devices) × (sender channel_command k true (some minor) to msg d ≡ done (exits 0, d'))
      × (reader channel_command true true true shown allocates (some minor) from d'
          ≡ done (prints msg, d'))
sent_then_read channel_command k minor to from msg shown allocates d x r is t u made four three
      known known' ne same pos small enough =
    let (d1, lst, opens, there) = open-allocates minor d in
    let r1 : Reachable d1 = subst (λ z. Reachable z.1) opens (opened true minor r) in
    let bytes = msg ++ (0 ∷ []) in
    let room : length msg ≤ length bytes = omega (arith, length-append msg (0 ∷ [])) in
    let (d', e) =
      write_accepted k to.channel_id minor bytes (length msg) d1 lst x r1 there ne pos small made t
        u in
    let old = IsDevices-Reachable d1 r1 in
    let stored =
      (content-write k to.channel_id minor bytes (length msg) (length msg) d1 d' room old e).1 minor
        (to_int to.channel_id) in
    let here : content d' minor (to_int to.channel_id) ≡ some (take (length msg) bytes) =
      stored ∙ rw (==_refl minor, ==_refl (to_int to.channel_id)) refl in
    let (lst', y, there', there'', rest) = found d' minor (to_int to.channel_id) _ here in
    let delivered =
      read-write k to.channel_id minor bytes (length msg) (length msg) d1 d' from.channel_id 128 is
        room old e (λ z. ne (sym same ∙ z)) (ap to_int same) (omega (arith, small)) in
    (
      d',
      sender-done channel_command minor to known ne k msg d d1 d' four opens e,
      reader-done channel_command minor from known' (λ z. ne (sym same ∙ z)) shown allocates msg d'
          lst' three there' enough (delivered ∙ ap (λ b. done (got b)) (take-append msg (0 ∷ []))),
    )
