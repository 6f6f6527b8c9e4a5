-- ===== src/PageTable/Growth.antt =====
-- hw1/pt.c: how many page frames a call of `page_table_update` takes.
use oscourse24btau.Common.{
  ℕ, zero, suc, ◌+◌, ◌≤◌, ◌≡◌, refl, ap, true, false, Bool-cases, Option, Option-cases, none, some,
  inl, inr, ◌==◌, arith,
}
use oscourse24btau.PageTable.Memory.{
  Memory, Mmap, Outcome, done, exited, fault, M, pure, ◌>>=◌, Pointer, npages, alloc_page_frame,
  phys_to_virt, load, store, in_frame, shl12, word_at, update,
}
use oscourse24btau.PageTable.Walk.{
  get_index, no_mapping, is_valid, set_valid, clear_flags, leaf_entry, ensure_table, update_loop,
  page_table_update,
}

-- A run of `c` that returns takes at most `n` frames and gives none back.
pub Grows : {A : Type 0} → ℕ → M A → Type 0
Grows {A} n c =
    (m : Memory) (a : A) (m' : Memory)
    → c m ≡ done (a, m')
    → (m.nalloc ≤ m'.nalloc) × (m'.nalloc ≤ m.nalloc + n)

Grows-pure : {A : Type 0} (a : A) (n : ℕ) → Grows n (pure a)
unfolding Grows
Grows-pure a n m b m' e =
    let same : m ≡ m' = cc in ground (arith, ap (λ (z : Memory). z.nalloc) same)

Grows-bind :
    {A B : Type 0} (i j : ℕ) (c : M A) (k : A → M B)
    → Grows i c
    → ((a : A) → Grows j (k a))
    → Grows (i + j) (c >>= k)
unfolding Grows
Grows-bind {A} i j c k first next m b m' e = go (c m) refl
  where
    go :
        (o : Outcome (A × Memory))
        → c m ≡ o
        → (m.nalloc ≤ m'.nalloc) × (m'.nalloc ≤ m.nalloc + (i + j))
    go (done (a, mid)) q =
        let f = first m a mid q in
        let t = next a mid b m' (rw (q, ◌>>=◌) at e) in omega (arith, f, t)
    go (exited n) q = absurd (cc (rw (q, ◌>>=◌) at e))
    go fault q = absurd (cc (rw (q, ◌>>=◌) at e))

Grows-load : (p : Option Pointer) (i : ℕ) → Grows 0 (load p i)
unfolding Grows load
Grows-load none i m a m' e = absurd (cc)
Grows-load (some p) i m a m' e = elim (Bool-cases (in_frame p i)) [
  | inr out ↦ absurd (cc (rw out at e))
  | inl inside ↦ elim (Option-cases (m.pages p.page)) [
    | inl q ↦ absurd (cc (rw (inside, q) at e))
    | inr (f, q) ↦
        let same : m ≡ m' = cc (rw (inside, q) at e) in
        ground (arith, ap (λ (z : Memory). z.nalloc) same)
  ]
]

Grows-store : (p : Option Pointer) (i v : ℕ) → Grows 0 (store p i v)
unfolding Grows store
Grows-store none i v m a m' e = absurd (cc)
Grows-store (some p) i v m a m' e = elim (Bool-cases (in_frame p i)) [
  | inr out ↦ absurd (cc (rw out at e))
  | inl inside ↦ elim (Option-cases (m.pages p.page)) [
    | inl q ↦ absurd (cc (rw (inside, q) at e))
    | inr (f, q) ↦
        let same : record m { pages = update m.pages p.page (some (update f (word_at p i) v)) }
            ≡ m' =
          cc (rw (inside, q) at e) in
        ground (arith, ap (λ (z : Memory). z.nalloc) same)
  ]
]

Grows-alloc : (mmap : Mmap) → Grows 1 (alloc_page_frame mmap)
unfolding Grows alloc_page_frame
Grows-alloc mmap m a m' e = elim (Bool-cases (m.nalloc == npages)) [
  | inl full ↦ absurd (cc (rw full at e))
  | inr room ↦ elim (Option-cases (mmap m.nalloc)) [
    | inl q ↦ absurd (cc (rw (room, q) at e))
    | inr (va, q) ↦
        let same : record { nalloc = m.nalloc + 1; pages = update m.pages m.nalloc (some va) }
            ≡ m' =
          cc (rw (room, q) at e) in
        ground (arith, ap (λ (z : Memory). z.nalloc) same)
  ]
]

Grows-less : {A : Type 0} (i j : ℕ) (c : M A) → i ≤ j → Grows i c → Grows j c
unfolding Grows
Grows-less i j c le g m a m' e = omega (arith, g m a m' e, le)

Grows-ensure : (mmap : Mmap) (p : Option Pointer) (i ppn : ℕ) → Grows 1 (ensure_table mmap p i ppn)
unfolding ensure_table
Grows-ensure mmap p i ppn = Grows-bind 0 1 (load p i) _ (Grows-load p i) (λ w.
    elim (Bool-cases (is_valid w)) [
      | inl v ↦ rw v (Grows-pure true 1)
      | inr v ↦ elim (Bool-cases (ppn == no_mapping)) [
        | inl r ↦ rw (v, r) (Grows-pure false 1)
        | inr r ↦
            rw (v, r)
              (Grows-bind 1 0 (alloc_page_frame mmap) _ (Grows-alloc mmap) (λ frame.
                Grows-bind 0 0 (store p i (set_valid (shl12 frame))) _ (Grows-store p i _)
                  (λ u. Grows-pure true 0)))
      ]
    ])

Grows-loop :
    (mmap : Mmap) (level vpn ppn : ℕ) (p : Option Pointer)
    → Grows level (update_loop mmap level vpn ppn p)
unfolding update_loop
Grows-loop mmap zero vpn ppn p = Grows-pure (some p) 0
Grows-loop mmap (suc level) vpn ppn p = Grows-less (1 + level) (suc level) _ (omega arith) (
    Grows-bind 1 level (ensure_table mmap p (get_index vpn (suc level)) ppn) _
      (Grows-ensure mmap p (get_index vpn (suc level)) ppn)
      (λ go_on.
        elim go_on
          as (λ b. Grows level (elim b as (λ _. M (Option (Option Pointer))) [
            | false ↦ pure none
            | true ↦ load p (get_index vpn (suc level)) >>= λ w.
                update_loop mmap level vpn ppn (phys_to_virt (clear_flags w))
          ])) [
            | false ↦ Grows-pure none level
            | true ↦ Grows-less (0 + level) level _ (omega arith) (
                Grows-bind 0 level (load p (get_index vpn (suc level))) _ (Grows-load p _)
                  (λ w. Grows-loop mmap level vpn ppn (phys_to_virt (clear_flags w))))
          ]))

Grows-leaf :
    (vpn ppn : ℕ) (leaf : Option (Option Pointer))
    → Grows 0 (elim leaf as (λ _. M (Unit {0})) [
      | none ↦ pure tt
      | some current ↦ store current (get_index vpn 0) (leaf_entry ppn)
    ])
Grows-leaf vpn ppn none = Grows-pure tt 0
Grows-leaf vpn ppn (some current) = Grows-store current _ _

-- An update that returns has taken at most four page frames, and has given none back.
pub update-Grows :
    (mmap : Mmap) (pt vpn ppn : ℕ) (m m' : Memory)
    → page_table_update mmap pt vpn ppn m ≡ done (tt, m')
    → (m.nalloc ≤ m'.nalloc) × (m'.nalloc ≤ m.nalloc + 4)
unfolding Grows page_table_update
update-Grows mmap pt vpn ppn m m' e =
    Grows-bind 4 0 (update_loop mmap 4 vpn ppn (phys_to_virt (shl12 pt))) _
      (Grows-loop mmap 4 vpn ppn _) (Grows-leaf vpn ppn) m tt m' e
