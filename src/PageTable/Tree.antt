-- ===== src/PageTable/Tree.antt =====
-- The tree of tables behind hw1/pt.c: what a key is, what each frame is for, and the state of the
-- memory in which every walk stays inside the tables.
use oscourse24btau.Common.{
  ℕ, zero, suc, ◌+◌, ◌-◌, ◌*◌, ◌/◌, ◌%◌, ◌^◌, ◌≤◌, ◌<◌, ◌≡◌, true, Option, none, some, ◌∙◌, arith,
}
use oscourse24btau.PageTable.Memory.{Frame, Memory, Pointer, npages, base, phys_to_virt, shl12}
use oscourse24btau.PageTable.Walk.{get_index, is_valid, clear_flags}

-- The bits of a virtual page number that the walk looks at.
abbrev pub key : ℕ → ℕ
key vpn = vpn / 4096 % 2 ^ 45

-- The key without its lowest digits, in base 512.
abbrev pub above : ℕ → ℕ → ℕ
above k zero = k
above k (suc level) = above k level / 512

abbrev pub slot : ℕ → ℕ → ℕ
slot k level = above k level % 512

-- `get_index` extracts the digits of the key.
pub get_index-eq-slot : (vpn level : ℕ) → level ≤ 4 → get_index vpn level ≡ slot (key vpn) level
unfolding get_index
get_index-eq-slot vpn zero h = omega arith
get_index-eq-slot vpn (suc zero) h = omega arith
get_index-eq-slot vpn (suc (suc zero)) h = omega arith
get_index-eq-slot vpn (suc (suc (suc zero))) h = omega arith
get_index-eq-slot vpn (suc (suc (suc (suc zero)))) h = omega arith
get_index-eq-slot vpn (suc (suc (suc (suc (suc l))))) h = absurd (omega arith)

-- What a frame is for: the tree that it belongs to, its level, and the digits on the way to it.
pub record Label : Type 0 where
  pub root : ℕ
  pub level : ℕ
  pub prefix : ℕ

-- A word of an allocated frame.
abbrev pub word : Memory → ℕ → ℕ → ℕ
word m n i = elim (m.pages n) [ none ↦ 0 | some f ↦ f i ]

-- The entry that points to frame `c`, and the frame of such an entry.
abbrev pub entry : ℕ → ℕ
entry c = (c + base) * 4096 + 1

abbrev pub child_of : ℕ → ℕ
child_of w = w / 4096 - base

pub record IsEntry (m : Memory) (lab : ℕ → Label) (n l i c : ℕ) : Type 0 where
  pub allocated : c < m.nalloc
  pub points : word m n i ≡ entry c
  pub tree : (lab c).root ≡ (lab n).root
  pub lower : (lab c).level ≡ l
  pub digits : (lab c).prefix ≡ (lab n).prefix * 512 + i

-- Every allocated frame has its content, and each valid entry of a table above level 0 points to the
-- frame that its place in the tree calls for.
pub record IsTree (m : Memory) (lab : ℕ → Label) : Type 0 where
  pub few : m.nalloc ≤ npages
  pub present : (n : ℕ) → n < m.nalloc → (f : Frame) × (m.pages n ≡ some f)
  pub child :
      (n l i : ℕ)
      → n < m.nalloc
      → (lab n).level ≡ suc l
      → i < 512
      → is_valid (word m n i) ≡ true
      → IsEntry m lab n l i (child_of (word m n i))

-- `n` is an allocated table of level `j` on the way to the key `k` in the tree of `root`.
pub record OnPath (m : Memory) (lab : ℕ → Label) (root j n k : ℕ) : Type 0 where
  pub allocated : n < m.nalloc
  pub tree : (lab n).root ≡ root
  pub level : (lab n).level ≡ j
  pub digits : (lab n).prefix ≡ above k (suc j)

abbrev pub at_frame : ℕ → Option Pointer
at_frame n = some (record { page = n; off = 0 })

pub phys_to_virt-entry :
    (w c : ℕ) → w ≡ entry c → c < npages → phys_to_virt (clear_flags w) ≡ at_frame c
unfolding phys_to_virt
phys_to_virt-entry w c e h = ground arith

pub phys_to_virt-shl12 : (c : ℕ) → c < npages → phys_to_virt (shl12 (c + base)) ≡ at_frame c
unfolding phys_to_virt
phys_to_virt-shl12 c h = ground arith

module _ {m : Memory} {lab : ℕ → Label} (t : IsTree m lab) {root j n k : ℕ}
    (on : OnPath m lab root (suc j) n k) (v : is_valid (word m n (slot k (suc j))) ≡ true) where
  pub IsEntry-OnPath : IsEntry m lab n j (slot k (suc j)) (child_of (word m n (slot k (suc j))))
  IsEntry-OnPath = t.child n j (slot k (suc j)) on.allocated on.level (omega arith) v

  -- The next table on the way, and the pointer that the walk makes to it.
  pub OnPath-child : OnPath m lab root j (child_of (word m n (slot k (suc j)))) k
  OnPath-child =
      let e = IsEntry-OnPath in
      record {
        allocated = e.allocated;
        tree = e.tree ∙ on.tree;
        level = e.lower;
        digits = omega arith;
      }

  pub next-OnPath :
      phys_to_virt (clear_flags (word m n (slot k (suc j))))
      ≡ at_frame (child_of (word m n (slot k (suc j))))
  next-OnPath =
      let e = IsEntry-OnPath in let few = t.few in phys_to_virt-entry _ _ e.points (omega arith)
