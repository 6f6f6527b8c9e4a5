-- ===== src/PageTable/Update.antt =====
-- hw1/pt.c, lines 19 to 27: the loop of `page_table_update` on a tree of tables.
use oscourse24btau.Common.{
  ℕ, zero, suc, ◌+◌, ◌≤◌, ◌<◌, ◌≡◌, ◌≢◌, refl, ◌∙◌, ap, sym, true, false, Option, none, some, arith,
}
use oscourse24btau.PageTable.Memory.{
  Frame, Memory, Pointer, load, phys_to_virt, Mmap, MmapZeroes, Outcome, done, exited, npages,
  ◌>>=◌,
}
use oscourse24btau.PageTable.Walk.{is_valid, clear_flags, no_mapping, update_loop}
use oscourse24btau.PageTable.Tree.{
  key, slot, get_index-eq-slot, Label, word, entry, child_of, IsTree, OnPath, at_frame,
  OnPath-child, next-OnPath,
}
use oscourse24btau.PageTable.Query.{leaf_of, descend, descend-suc, load-OnPath}
use oscourse24btau.PageTable.Link.{
  link, label_link, link-IsTree, OnPath-link, descend-link, word-link_valid, word-link_new,
}
use oscourse24btau.PageTable.Ensure.{NoFrame, there, missing, made, no_frame, ensure_table_lem}

-- The tables of `m'` are those of `m` and some more, with no change to what any walk finds.
pub record Extends (m : Memory) (lab : ℕ → Label) (m' : Memory) (lab' : ℕ → Label) : Type 0 where
  pub tree : IsTree m' lab'
  pub grown : m.nalloc ≤ m'.nalloc
  pub keeps : (root j n k : ℕ) → OnPath m lab root j n k → OnPath m' lab' root j n k
  pub kept : (n i : ℕ) → n < m.nalloc → is_valid (word m n i) ≡ true → word m' n i ≡ word m n i
  pub same : (root j n k : ℕ) → OnPath m lab root j n k → descend m' j n k ≡ descend m j n k

Extends-refl : {m : Memory} {lab : ℕ → Label} → IsTree m lab → Extends m lab m lab
Extends-refl t = record {
  tree = t;
  grown = omega arith;
  keeps = λ root j n k on. on;
  kept = λ n i h v. refl;
  same = λ root j n k on. refl;
}

Extends-trans :
    {m m' m'' : Memory} {lab lab' lab'' : ℕ → Label}
    → Extends m lab m' lab'
    → Extends m' lab' m'' lab''
    → Extends m lab m'' lab''
Extends-trans e e' = record {
  tree = e'.tree;
  grown = omega (arith, e.grown, e'.grown);
  keeps = λ root j n k on. e'.keeps root j n k (e.keeps root j n k on);
  kept = λ n i h v. e'.kept n i (omega (arith, e.grown)) (rw (e.kept n i h v) v) ∙ e.kept n i h v;
  same = λ root j n k on. e'.same root j n k (e.keeps root j n k on) ∙ e.same root j n k on;
}

-- What the loop can do, started at the table `n` of level `j` of the tree of `root`.
pub data Walked (mmap : Mmap) (m : Memory) (lab : ℕ → Label) (root j n k ppn : ℕ)
    (r : Outcome (Option (Option Pointer) × Memory)) : Type 0 where
  gave_up :
      ppn ≡ no_mapping
      → r ≡ done (none, m)
      → descend m j n k ≡ no_mapping
      → Walked mmap m lab root j n k ppn r
  reached :
      (m' : Memory) (lab' : ℕ → Label) (leaf : ℕ)
      → r ≡ done (some (at_frame leaf), m')
      → Extends m lab m' lab'
      → leaf_of m' j n k ≡ some leaf
      → OnPath m' lab' root 0 leaf k
      → Walked mmap m lab root j n k ppn r
  no_memory :
      ppn ≢ no_mapping
      → (c : ℕ) → m.nalloc ≤ c
      → c < m.nalloc + j
      → NoFrame mmap c
      → r ≡ exited 1
      → Walked mmap m lab root j n k ppn r

-- From the table below to the table above.
Walked-suc :
    (mmap : Mmap) {m m' : Memory} {lab lab' : ℕ → Label} {root j n k ppn : ℕ}
    {r : Outcome (Option (Option Pointer) × Memory)}
    → Extends m lab m' lab'
    → m'.nalloc ≤ m.nalloc + 1
    → (ppn ≡ no_mapping → m' ≡ m)
    → OnPath m lab root (suc j) n k
    → is_valid (word m' n (slot k (suc j))) ≡ true
    → Walked mmap m' lab' root j (child_of (word m' n (slot k (suc j)))) k ppn r
    → Walked mmap m lab root (suc j) n k ppn r
unfolding leaf_of
Walked-suc mmap {m} {m'} {j = j} {n} {k} x few still on v (gave_up e q d) =
    gave_up e (q ∙ ap (λ z. done (none, z)) (still e))
      (sym (x.same _ (suc j) n k on) ∙ rw (descend-suc m' j n k, v) d)
Walked-suc mmap {m} {m'} {j = j} {n} {k} x few still on v (reached m'' lab'' leaf q x' l on') =
    reached m'' lab'' leaf q (Extends-trans x x')
      (let w = x'.kept n (slot k (suc j)) ((x.keeps _ _ _ _ on).allocated) v in rw (w, v) l) on'
Walked-suc mmap x few still on v (no_memory ne c lo hi q e) =
    no_memory ne c (omega (arith, x.grown)) (omega arith) q e

module _ (mmap : Mmap) (vpn ppn : ℕ) where
  -- The second half of the loop's body, `current = phys_to_virt(...)`, and the rounds that follow.
  down_lem :
      (j n : ℕ) {m : Memory} {lab : ℕ → Label} {root : ℕ}
      → IsTree m lab
      → OnPath m lab root (suc j) n (key vpn)
      → is_valid (word m n (slot (key vpn) (suc j))) ≡ true
      → (do
        w ← load (at_frame n) (slot (key vpn) (suc j))
        update_loop mmap j vpn ppn (phys_to_virt (clear_flags w)))
          m
        ≡ update_loop mmap j vpn ppn (at_frame (child_of (word m n (slot (key vpn) (suc j))))) m
  down_lem j n t on v =
      rw (load-OnPath t on (slot (key vpn) (suc j)) (omega arith), ◌>>=◌, next-OnPath t on v)

  Extends-link :
      {m : Memory} {lab : ℕ → Label} (t : IsTree m lab) (room : m.nalloc < npages) (n l i : ℕ)
      (f va : Frame)
      → n < m.nalloc
      → (lab n).level ≡ suc l
      → i < 512
      → m.pages n ≡ some f
      → is_valid (word m n i) ≡ false
      → ((a : ℕ) → va a ≡ 0)
      → Extends m lab (link m n f i va) (label_link m lab n l i)
  Extends-link t room n l i f va a b c d e g = record {
    tree = link-IsTree t room n l i f va a b c d e g;
    grown = omega arith;
    keeps = λ _ _ _ _. OnPath-link t room n l i f va a b c d e g;
    kept = word-link_valid t room n l i f va a b c d e g;
    same = λ _ j a' k. descend-link t room n l i f va a b c d e g j a' k;
  }

  pub update_loop_lem :
      MmapZeroes mmap
      → (j n : ℕ) {m : Memory} {lab : ℕ → Label} {root : ℕ} → j ≤ 4
      → IsTree m lab
      → OnPath m lab root j n (key vpn)
      → Walked mmap m lab root j n (key vpn) ppn (update_loop mmap j vpn ppn (at_frame n) m)
  unfolding update_loop leaf_of
  update_loop_lem zeroes zero n {m} {lab} h t on = reached m lab n refl (Extends-refl t) refl on
  update_loop_lem zeroes (suc j) n {m} {lab} {root} h t on =
      let i = slot (key vpn) (suc j) in
      let (f, page) = t.present n on.allocated in
      let small : i < 512 = omega arith in
      rw (get_index-eq-slot vpn (suc j) h)
        (elim (ensure_table_lem mmap m n i ppn f page small on.allocated t.few) [
          | there v q ↦
              rw (q, ◌>>=◌, get_index-eq-slot vpn (suc j) h, down_lem j n t on v)
                (Walked-suc mmap (Extends-refl t) (omega arith) (λ _. refl) on v
                  (update_loop_lem zeroes j (child_of (word m n i)) (omega arith) t
                    (OnPath-child t on v)))
          | missing v e q ↦ gave_up e (rw (q, ◌>>=◌)) (rw (descend-suc m j n, v))
          | no_frame ne full q ↦
              no_memory ne m.nalloc (omega arith) (omega arith) full (rw (q, ◌>>=◌))
          | made v ne room va e q ↦
              let blank = zeroes m.nalloc va e in
              let m' = link m n f i va in
              let x = Extends-link t room n j i f va on.allocated on.level small page v blank in
              let on' = x.keeps root (suc j) n (key vpn) on in
              let new : word m' n i ≡ entry m.nalloc =
                word-link_new t room n j i f va on.allocated on.level small page v blank in
              let v' : is_valid (word m' n i) ≡ true = ground (arith, new) in
              rw (q, ◌>>=◌, get_index-eq-slot vpn (suc j) h, down_lem j n x.tree on' v')
                (Walked-suc mmap x (omega arith) (λ z. absurd (ne z)) on v'
                  (update_loop_lem zeroes j (child_of (word m' n i)) (omega arith) x.tree
                    (OnPath-child x.tree on' v')))
        ])
