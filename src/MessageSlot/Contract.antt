-- ===== src/MessageSlot/Contract.antt =====
-- hw3/message_slot.c: what `device_open`, `device_read` and `device_write` promise to processes.
use oscourse24btau.Common.{
  ℕ, zero, suc, ◌+◌, ◌≤◌, ◌≡◌, refl, sym, ◌∙◌, ap, false, ◌&&◌, Option, some, List, [], ◌∷◌, ◌++◌,
  ◌==◌, if◌then◌else◌, length, take, drop, arith,
}
use mathlib.Core.Path.{subst}
use oscourse24btau.MessageSlot.Driver.{
  Slot, Devices, Outcome, done, undefined, einval, Reply, ok, failed, to_int, Kernel, modify, put,
  device_write,
}
use oscourse24btau.MessageSlot.Place.{nth}
use oscourse24btau.MessageSlot.Write.{
  IsDevices, spoils, writes, Effect, rejected, changed, device_write_lem,
}
use oscourse24btau.MessageSlot.Content.{
  content, IsKernel, Holds, list_after, IsList-after, IsDevices-put, content-after, id-Change,
}

ends :
    (k : Kernel) (p minor : ℕ) (buffer : Option (List ℕ)) (n : ℕ) (d : Devices)
    → IsKernel k
    → Holds buffer n
    → IsDevices d
    → {o : Outcome (Reply × Devices)} → Effect k p minor buffer n d o
    → (reply : Reply) × (d' : Devices) × (o ≡ done (reply, d')) × IsDevices d'
unfolding IsDevices
ends k p minor buffer n d is holds old (rejected e) = (failed e, d, refl, old)
ends k p minor buffer n d is holds old (changed lst there sized g r change l' i made q) = (
  r,
  put d minor (list_after lst (modify l' i g) made),
  refl,
  IsDevices-put d minor _
      (IsList-after k p lst is holds sized.1 change q (old (minor + 1) lst there)) old,
)

-- When `kmalloc` gives a buffer of the size asked for and the memory of the process holds the bytes
-- that it announces, `device_write` returns on lists that are in order and counted, whatever
-- allocations and copies fail, without reading a list that is not assigned to, and it leaves lists
-- that are in order and counted.
pub write_ends :
    (k : Kernel) (p minor : ℕ) (buffer : Option (List ℕ)) (n : ℕ) (d : Devices)
    → IsKernel k
    → Holds buffer n
    → IsDevices d
    → (reply : Reply) × (d' : Devices) × (device_write k p minor buffer n d ≡ done (reply, d'))
      × IsDevices d'
write_ends k p minor buffer n d is holds old =
    ends k p minor buffer n d is holds old (device_write_lem k p minor buffer n d old)

unfoldable pub result : Devices → Outcome (Reply × Devices) → Devices
result d undefined = d
result d (done (r, d')) = d'

pub IsDevices-write :
    (k : Kernel) (p minor : ℕ) (buffer : Option (List ℕ)) (n : ℕ) (reply : Reply) (d d' : Devices)
    → IsKernel k
    → Holds buffer n
    → IsDevices d
    → device_write k p minor buffer n d ≡ done (reply, d')
    → IsDevices d'
unfolding result
IsDevices-write k p minor buffer n reply d d' is holds old e =
    let (reply', d'', e', is') = write_ends k p minor buffer n d is holds old in
    subst IsDevices (ap (result d) (sym e' ∙ e)) is'

unfoldable pub reply_of : Outcome (Reply × Devices) → Reply
reply_of undefined = failed einval
reply_of (done (r, d')) = r

count_of : Reply → ℕ
count_of (ok n) = n
count_of (failed e) = 0

IsOk : Reply → Type 0
IsOk (ok n) = Unit {0}
IsOk (failed e) = ⊥

take_own :
    (n : ℕ) (bytes rest : List ℕ) → n ≤ length bytes → take n (take n bytes ++ rest) ≡ take n bytes
take_own zero bytes rest le = refl
take_own (suc n) [] rest le = absurd (omega (arith, le))
take_own (suc n) (x ∷ bytes) rest le = ap (λ l. x ∷ l) (take_own n bytes rest (omega (arith, le)))

abbrev pub no_slot : Slot
no_slot = record { channel_id = 0; msg = []; msg_length = 0 }

written :
    (k : Kernel) (p minor : ℕ) (bytes : List ℕ) (n : ℕ) (d : Devices)
    → n ≤ length bytes
    → {o : Outcome (Reply × Devices)} → Effect k p minor (some bytes) n d o
    → IsOk (reply_of o)
    → (count_of (reply_of o) ≡ n)
      × ((minor' c : ℕ)
          → content (result d o) minor' c ≡ (
              if (minor == minor') && (to_int p == c)
              then some (take n bytes)
              else content d minor' c))
unfolding reply_of count_of result IsOk
written k p minor bytes n d le (rejected e) is_ok = absurd is_ok
written k p minor bytes n d le (changed lst there sized g r spoils l' i made q) is_ok = absurd is_ok
written k p minor bytes n d le (changed lst there sized g r (writes b e) l' i made q) is_ok = (
  refl,
  λ minor' c.
      content-after k p d minor lst g there (id-Change {buffer = some b} {n = n} (writes b refl))
        no_slot q minor' c
      ∙ ap (λ m. if (minor == minor') && (to_int p == c) then some m else content d minor' c)
          stored,
)
  where
    stored : take n (take n b ++ drop n (nth l' i no_slot).msg) ≡ take n bytes
    stored =
        let same : bytes ≡ b = ground (arith, e) in
        ap (λ z. take n (take n z ++ drop n (nth l' i no_slot).msg)) (sym same)
        ∙ take_own n bytes (drop n (nth l' i no_slot).msg) le

-- When `device_write` returns a number, it is `length`, and then the channel of the file on its device
-- holds the bytes of the buffer, and every other channel of every device holds what it held, when
-- the lists were in order and counted and the memory of the process holds the bytes announced.
-- The channel is the one of `ioctl` as an `int`.
pub content-write :
    (k : Kernel) (p minor : ℕ) (bytes : List ℕ) (n m : ℕ) (d d' : Devices)
    → n ≤ length bytes
    → IsDevices d
    → device_write k p minor (some bytes) n d ≡ done (ok m, d')
    → (m ≡ n)
      × ((minor' c : ℕ)
          → content d' minor' c ≡ (
              if (minor == minor') && (to_int p == c)
              then some (take n bytes)
              else content d minor' c))
unfolding reply_of count_of result IsOk
content-write k p minor bytes n m d d' le old e =
    let eff =
      subst (λ o. Effect k p minor (some bytes) n d o) e
        (device_write_lem k p minor (some bytes) n d old) in
    written k p minor bytes n d le eff tt

failing :
    (k : Kernel) (p minor : ℕ) (buffer : Option (List ℕ)) (n : ℕ) (d : Devices)
    → {o : Outcome (Reply × Devices)} → Effect k p minor buffer n d o
    → (minor' c : ℕ) → (minor == minor') && (to_int p == c) ≡ false
    → content (result d o) minor' c ≡ content d minor' c
unfolding result
failing k p minor buffer n d (rejected e) minor' c ne = refl
failing k p minor buffer n d (changed lst there sized g r change l' i made q) minor' c ne =
    content-after k p d minor lst g there (id-Change change) no_slot q minor' c ∙ rw ne refl

-- Whatever `device_write` returns, a channel other than that of its file, or one of another device,
-- holds what it held, when the lists were in order and counted.
pub content-other :
    (k : Kernel) (p minor : ℕ) (buffer : Option (List ℕ)) (n : ℕ) (reply : Reply) (d d' : Devices)
    → IsDevices d
    → device_write k p minor buffer n d ≡ done (reply, d')
    → (minor' c : ℕ) → (minor == minor') && (to_int p == c) ≡ false
    → content d' minor' c ≡ content d minor' c
unfolding result
content-other k p minor buffer n reply d d' old e =
    failing k p minor buffer n d
      (subst (λ o. Effect k p minor buffer n d o) e (device_write_lem k p minor buffer n d old))
