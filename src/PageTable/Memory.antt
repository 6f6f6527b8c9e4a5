-- ===== src/PageTable/Memory.antt =====
-- hw1/os.c lines 8 to 33: page frames, their allocation, and the view of a physical address.
use oscourse24btau.Common.{
  ℕ, ◌+◌, ◌-◌, ◌*◌, ◌/◌, ◌%◌, ◌^◌, ◌≡◌, Bool, ◌&&◌, Option, none, some, ltb, ◌==◌, if◌then◌else◌,
}

-- `NPAGES`, and the number that `alloc_page_frame` gives the first frame
abbrev pub npages : ℕ
npages = 1024 * 1024

abbrev pub base : ℕ
base = 0xbaaaaaad

-- The content of a page frame: 512 words of 64 bits, by index.
abbrev pub Frame : Type 0
Frame = ℕ → ℕ

-- `pages` (`none` is NULL) and the static `nalloc` of `alloc_page_frame`.
pub record Memory : Type 0 where
  pub nalloc : ℕ
  pub pages : ℕ → Option Frame

-- What `mmap` returns at its n-th call: `none` for MAP_FAILED, or the content of the mapping.
abbrev pub Mmap : Type 0
Mmap = ℕ → Option Frame

-- The mapping is anonymous, so mmap(2) documents that its content is zero.
abbrev pub MmapZeroes : Mmap → Type 0
MmapZeroes mmap = (n : ℕ) (f : Frame) → mmap n ≡ some f → (i : ℕ) → f i ≡ 0

-- A run ends with a result, by `exit` with a code, or at an access through an invalid pointer.
pub data Outcome (A : Type 0) : Type 0 where
  done : A → Outcome A
  exited : ℕ → Outcome A
  fault : Outcome A

abbrev pub M : Type 0 → Type 0
M A = Memory → Outcome (A × Memory)

abbrev pub pure : {A : Type 0} → A → M A
pure a m = done (a, m)

infixl 5 ◌>>=◌ ◌>>◌
abbrev pub ◌>>=◌ : {A B : Type 0} → M A → (A → M B) → M B
◌>>=◌ c k m = elim (c m) [ done (a, m') ↦ k a m' | exited n ↦ exited n | fault ↦ fault ]

abbrev pub ◌>>◌ : {B : Type 0} → M (Unit {0}) → M B → M B
c >> k = c >>= λ _. k

-- `f` with the value `a` at `i`
abbrev pub update {ℓ} : {A : Type ℓ} → (ℕ → A) → ℕ → A → ℕ → A
update f i a j = if i == j then a else f j

-- `uint64_t` shifts
abbrev pub shl12 : ℕ → ℕ
shl12 x = x * 4096 % 2 ^ 64

abbrev pub shr12 : ℕ → ℕ
shr12 x = x / 4096

unfoldable pub alloc_page_frame : Mmap → M ℕ
alloc_page_frame mmap m = if m.nalloc == npages then exited 1 else elim (mmap m.nalloc) [
  | none ↦ exited 1
  | some va ↦
      done (
        m.nalloc + base,
        record { nalloc = m.nalloc + 1; pages = update m.pages m.nalloc (some va) },
      )
]

-- A virtual address that is not NULL: the page of `pages` that it points into, and the offset.
pub record Pointer : Type 0 where
  pub page : ℕ
  pub off : ℕ

-- The subtraction is modulo 2^64. An address whose page is NULL faults when it is accessed.
unfoldable pub phys_to_virt : ℕ → Option Pointer
phys_to_virt phys_addr =
    let ppn = (shr12 phys_addr + 2 ^ 64 - base) % 2 ^ 64 in
    if ltb ppn npages then some (record { page = ppn; off = phys_addr % 4096 }) else none

-- `current[index]` is one aligned word inside the frame that the pointer points into.
abbrev pub in_frame : Pointer → ℕ → Bool
in_frame p index = (p.off % 8 == 0) && ltb (p.off + 8 * index) 4096

abbrev pub word_at : Pointer → ℕ → ℕ
word_at p index = p.off / 8 + index

-- The read `current[index]`.
unfoldable pub load : Option Pointer → ℕ → M ℕ
load none index m = fault
load (some p) index m =
    if in_frame p index
    then elim (m.pages p.page) [ none ↦ fault | some f ↦ done (f (word_at p index), m) ]
    else fault

-- The write `current[index] = value`.
unfoldable pub store : Option Pointer → ℕ → ℕ → M (Unit {0})
store none index value m = fault
store (some p) index value m =
    if in_frame p index
    then elim (m.pages p.page) [
      | none ↦ fault
      | some f ↦
          done (
            tt,
            record m { pages = update m.pages p.page (some (update f (word_at p index) value)) },
          )
    ]
    else fault
