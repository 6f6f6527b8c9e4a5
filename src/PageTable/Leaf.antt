-- ===== src/PageTable/Leaf.antt =====
-- hw1/pt.c, lines 29 to 34: the write into a table of level 0.
use oscourse24btau.Common.{
  ℕ, zero, suc, ◌<◌, ◌≡◌, refl, ◌∙◌, inl, inr, ◌&&◌, some, ◌==◌, if◌then◌else◌, Bool-cases,
  Option-cases, ap, arith,
}
use native.Mathlib.Decide.{ℕ_discrete}
use oscourse24btau.PageTable.Memory.{Frame, Memory, update, store, done}
use oscourse24btau.PageTable.Walk.{is_valid}
use oscourse24btau.PageTable.Tree.{
  slot, Label, word, child_of, IsTree, OnPath, at_frame, OnPath-child,
}
use oscourse24btau.PageTable.Query.{leaf_of, descend, answer}

abbrev pub write : Memory → ℕ → Frame → ℕ → ℕ → Memory
write m n f i v = record m { pages = update m.pages n (some (update f i v)) }

pub store_lem :
    (m : Memory) (n i v : ℕ) (f : Frame)
    → m.pages n ≡ some f
    → i < 512
    → store (at_frame n) i v m ≡ done (tt, write m n f i v)
unfolding store
store_lem m n i v f page small = ground arith

module _ {m : Memory} {lab : ℕ → Label} (t : IsTree m lab) where
  -- The table that a walk ends in lies on the way to the key.
  pub leaf_of-OnPath :
      (j n k : ℕ) {root leaf : ℕ}
      → OnPath m lab root j n k
      → leaf_of m j n k ≡ some leaf
      → OnPath m lab root 0 leaf k
  unfolding leaf_of
  leaf_of-OnPath zero n k {leaf = leaf} on e = let same : n ≡ leaf = cc in rw (← same) on
  leaf_of-OnPath (suc j) n k on e = elim (Bool-cases (is_valid (word m n (slot k (suc j))))) [
    | inl v ↦
        leaf_of-OnPath j (child_of (word m n (slot k (suc j)))) k (OnPath-child t on v) (rw v at e)
    | inr v ↦ absurd (cc (rw v at e))
  ]

  -- A write into the table `n` of level 0.
  module _ (n i v : ℕ) (f : Frame) (page : m.pages n ≡ some f) (level : (lab n).level ≡ 0) where
    abbrev after : Memory
    after = write m n f i v

    pub word-write : (a b : ℕ) → word after a b ≡ (if (a == n) && (b == i) then v else word m a b)
    word-write a b = ground arith

    present_write : (a : ℕ) → a < after.nalloc → (x : Frame) × (after.pages a ≡ some x)
    present_write a h = elim (ℕ_discrete a n) [
      | yes e ↦ (update f i v, ground arith)
      | no ne ↦ let (x, q) = t.present a h in (x, ground arith)
    ]

    table_write : (a b : ℕ) {j : ℕ} → (lab a).level ≡ suc j → word after a b ≡ word m a b
    table_write a b lev = ground (arith, word-write a b)

    pub write-IsTree : IsTree after lab
    write-IsTree = record {
      few = t.few;
      present = present_write;
      child = λ a j b h lev s ok.
          let same = table_write a b lev in
          let e = t.child a j b h lev s (rw same at ok) in
          rw same (record {
            allocated = e.allocated;
            points = same ∙ e.points;
            tree = e.tree;
            lower = e.lower;
            digits = e.digits;
          });
    }

    pub OnPath-write : {root j a k : ℕ} → OnPath m lab root j a k → OnPath after lab root j a k
    OnPath-write on = ground arith

    pub leaf_of-write :
        (j a k : ℕ) {root : ℕ} → OnPath m lab root j a k → leaf_of after j a k ≡ leaf_of m j a k
    unfolding leaf_of
    leaf_of-write zero a k on = refl
    leaf_of-write (suc j) a k on =
        rw (table_write a (slot k (suc j)) on.level)
          (elim (Bool-cases (is_valid (word m a (slot k (suc j))))) [
            | inl ok ↦
                rw ok
                  (leaf_of-write j (child_of (word m a (slot k (suc j)))) k (OnPath-child t on ok))
            | inr ok ↦ rw ok
          ])

    -- The walks that end elsewhere, or in another entry, find what they found.
    pub descend-write_ne :
        (j a k : ℕ) {root : ℕ}
        → OnPath m lab root j a k
        → (leaf_of m j a k ≡ some n → slot k 0 ≡ i → ⊥)
        → descend after j a k ≡ descend m j a k
    unfolding descend
    descend-write_ne j a k on ne =
        rw (leaf_of-write j a k on) (elim (Option-cases (leaf_of m j a k)) [
          | inl e ↦ rw e
          | inr (leaf, e) ↦ rw e (
              ap answer (
                ground (
                  arith,
                  word-write leaf (slot k 0),
                  λ (p : leaf ≡ n) (q : slot k 0 ≡ i). ne (rw (← p) e) q,
                )))
        ])

    -- A walk that ends in the entry finds the value.
    pub descend-write_self :
        (j a k : ℕ) {root : ℕ}
        → OnPath m lab root j a k
        → leaf_of m j a k ≡ some n
        → slot k 0 ≡ i
        → descend after j a k ≡ answer v
    unfolding descend
    descend-write_self j a k on e e' =
        rw (leaf_of-write j a k on, e) (ap answer (ground (arith, word-write n (slot k 0))))
