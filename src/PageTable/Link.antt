-- ===== src/PageTable/Link.antt =====
-- hw1/pt.c, line 25: a fresh table is put under an entry that was not valid.
use oscourse24btau.Common.{
  ℕ, zero, suc, ◌+◌, ◌*◌, ◌<◌, ◌≡◌, ◌∙◌, inl, inr, true, false, ◌&&◌, some, ◌==◌, if◌then◌else◌,
  Bool-cases, arith, ◌⊎◌,
}
use native.Mathlib.Decide.{ℕ_discrete}
use oscourse24btau.PageTable.Memory.{Frame, Memory, npages, update}
use oscourse24btau.PageTable.Walk.{is_valid}
use oscourse24btau.PageTable.Tree.{
  slot, Label, word, entry, child_of, IsEntry, IsTree, OnPath, OnPath-child,
}
use oscourse24btau.PageTable.Query.{descend, descend-zero, descend-suc, descend-zeroes}

-- The memory and the labels after the allocation and the write of the entry.
abbrev pub link : Memory → ℕ → Frame → ℕ → Frame → Memory
link m n f i va = record {
  nalloc = m.nalloc + 1;
  pages = update (update m.pages m.nalloc (some va)) n (some (update f i (entry m.nalloc)));
}

abbrev pub label_link : Memory → (ℕ → Label) → ℕ → ℕ → ℕ → ℕ → Label
label_link m lab n l i =
    update lab m.nalloc
      (record { root = (lab n).root; level = l; prefix = (lab n).prefix * 512 + i })

module _ {m : Memory} {lab : ℕ → Label} (t : IsTree m lab) (room : m.nalloc < npages) (n l i : ℕ)
    (f : Frame) (va : Frame) (here : n < m.nalloc) (level : (lab n).level ≡ suc l) (small : i < 512)
    (page : m.pages n ≡ some f) (unset : is_valid (word m n i) ≡ false)
    (zeroes : (a : ℕ) → va a ≡ 0) where
  abbrev after : Memory
  after = link m n f i va

  abbrev labels : ℕ → Label
  labels = label_link m lab n l i

  word-link :
      (a b : ℕ)
      → word after a b ≡ (
          if a == n
          then (if b == i then entry m.nalloc else word m n b)
          else if a == m.nalloc
          then 0
          else word m a b)
  word-link a b = ground (arith, zeroes b)

  -- An entry of an old table that the write leaves alone.
  old-IsEntry :
      (a j b c : ℕ)
      → a < m.nalloc
      → word after a b ≡ word m a b
      → IsEntry m lab a j b c
      → IsEntry after labels a j b c
  old-IsEntry a j b c h e old = record {
    allocated = omega (arith, old.allocated);
    points = e ∙ old.points;
    tree = ground (arith, old.tree, old.allocated);
    lower = ground (arith, old.lower, old.allocated);
    digits = ground (arith, old.digits, old.allocated);
  }

  new-IsEntry :
      (a j b : ℕ) → a ≡ n → b ≡ i → j ≡ l → IsEntry after labels a j b (child_of (word after a b))
  new-IsEntry a j b e e' e'' = record {
    allocated = ground (arith, word-link a b);
    points = ground (arith, word-link a b);
    tree = ground (arith, word-link a b);
    lower = ground (arith, word-link a b);
    digits = ground (arith, word-link a b);
  }

  old_or_new :
      (a b : ℕ)
      → a < m.nalloc
      → (word after a b ≡ word m a b) ⊎ ((a ≡ n) × (b ≡ i) × (word after a b ≡ entry m.nalloc))
  old_or_new a b h = elim (Bool-cases ((a == n) && (b == i))) [
    | inl e ↦ inr (ground arith, ground arith, ground (arith, word-link a b))
    | inr e ↦ inl (ground (arith, word-link a b))
  ]

  present_link : (a : ℕ) → a < after.nalloc → (x : Frame) × (after.pages a ≡ some x)
  present_link a h = elim (ℕ_discrete a n) [
    | yes e ↦ (update f i (entry m.nalloc), ground arith)
    | no ne ↦ elim (ℕ_discrete a m.nalloc) [
      | yes e ↦ (va, ground arith)
      | no ne' ↦ let (x, q) = t.present a (omega arith) in (x, ground arith)
    ]
  ]

  child_link :
      (a j b : ℕ)
      → a < after.nalloc
      → (labels a).level ≡ suc j
      → b < 512
      → is_valid (word after a b) ≡ true
      → IsEntry after labels a j b (child_of (word after a b))
  child_link a j b h lev s v = elim (ℕ_discrete a m.nalloc) [
    | yes e ↦ absurd (ground (arith, word-link a b))
    | no old ↦ elim (old_or_new a b (omega arith)) [
      | inr (e, e', _) ↦ new-IsEntry a j b e e' (ground arith)
      | inl same ↦ rw same (
          old-IsEntry a j b _ (omega arith) same
            (t.child a j b (omega arith) (ground arith) s (rw same at v)))
    ]
  ]

  pub link-IsTree : IsTree after labels
  link-IsTree = record { few = omega (arith, room); present = present_link; child = child_link }

  pub OnPath-link : {root j a k : ℕ} → OnPath m lab root j a k → OnPath after labels root j a k
  OnPath-link on = ground arith

  -- A valid entry stays.
  pub word-link_valid :
      (a b : ℕ) → a < m.nalloc → is_valid (word m a b) ≡ true → word after a b ≡ word m a b
  word-link_valid a b h v = ground (arith, word-link a b)

  pub word-link_new : word after n i ≡ entry m.nalloc
  word-link_new = ground (arith, word-link n i)

  -- Nothing that a walk finds changes.
  pub descend-link :
      (j a k : ℕ) {root : ℕ} → OnPath m lab root j a k → descend after j a k ≡ descend m j a k
  descend-link zero a k on = elim (old_or_new a (slot k 0) on.allocated) [
    | inl same ↦ rw (descend-zero after, descend-zero m, same)
    | inr (e, _, _) ↦ absurd (ground arith)
  ]
  descend-link (suc j) a k on = elim (old_or_new a (slot k (suc j)) on.allocated) [
    | inl same ↦ elim (Bool-cases (is_valid (word m a (slot k (suc j))))) [
      | inl v ↦
          rw (descend-suc after, descend-suc m, same, v)
            (descend-link j (child_of (word m a (slot k (suc j)))) k (OnPath-child t on v))
      | inr v ↦ rw (descend-suc after, descend-suc m, same, v)
    ]
    | inr (e, e', w) ↦ ground (
      arith,
      descend-suc after j a k,
      descend-suc m j a k,
      descend-zeroes after j m.nalloc k (λ b. ground (arith, word-link m.nalloc b)),
    )
  ]
