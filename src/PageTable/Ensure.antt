-- ===== src/PageTable/Ensure.antt =====
-- hw1/pt.c, lines 20 to 26: what the body of the loop does to one entry.
use oscourse24btau.Common.{
  ℕ, ◌+◌, ◌≤◌, ◌<◌, ◌≡◌, ◌≢◌, refl, ◌⊎◌, inl, inr, Bool, true, false, none, some, ◌==◌, ==_ne,
  ==_iff, Bool-cases, Option-cases, arith,
}
use native.Mathlib.Decide.{ℕ_discrete}
use oscourse24btau.PageTable.Memory.{
  Frame, Memory, Mmap, Outcome, done, exited, npages, base, update, shl12, store, alloc_page_frame,
  ◌>>=◌, ◌>>◌, pure,
}
use oscourse24btau.PageTable.Walk.{is_valid, set_valid, no_mapping, ensure_table}
use oscourse24btau.PageTable.Tree.{word, entry, at_frame}
use oscourse24btau.PageTable.Query.{load-at_frame}
use oscourse24btau.PageTable.Link.{link}

-- Frame `n` cannot be allocated.
abbrev pub NoFrame : Mmap → ℕ → Type 0
NoFrame mmap n = (n ≡ npages) ⊎ (mmap n ≡ none)

-- What `ensure_table` can do with the entry `i` of the table `n`.
pub data Ensured (mmap : Mmap) (m : Memory) (n i ppn : ℕ) (f : Frame) (r : Outcome (Bool × Memory))
    : Type 0 where
  there : is_valid (word m n i) ≡ true → r ≡ done (true, m) → Ensured mmap m n i ppn f r
  missing :
      is_valid (word m n i) ≡ false
      → ppn ≡ no_mapping
      → r ≡ done (false, m)
      → Ensured mmap m n i ppn f r
  made :
      is_valid (word m n i) ≡ false
      → ppn ≢ no_mapping
      → m.nalloc < npages
      → (va : Frame) → mmap m.nalloc ≡ some va
      → r ≡ done (true, link m n f i va)
      → Ensured mmap m n i ppn f r
  no_frame : ppn ≢ no_mapping → NoFrame mmap m.nalloc → r ≡ exited 1 → Ensured mmap m n i ppn f r

set_valid-entry : (c : ℕ) → c < npages → set_valid (shl12 (c + base)) ≡ entry c
set_valid-entry c h = omega arith

alloc_page_frame_ok :
    (mmap : Mmap) (m : Memory) (va : Frame)
    → m.nalloc < npages
    → mmap m.nalloc ≡ some va
    → alloc_page_frame mmap m
      ≡ done (
        m.nalloc + base,
        record { nalloc = m.nalloc + 1; pages = update m.pages m.nalloc (some va) },
      )
unfolding alloc_page_frame
alloc_page_frame_ok mmap m va room e = rw (==_ne m.nalloc npages (omega arith), e)

alloc_page_frame_none :
    (mmap : Mmap) (m : Memory) → NoFrame mmap m.nalloc → alloc_page_frame mmap m ≡ exited 1
unfolding alloc_page_frame
alloc_page_frame_none mmap m (inl e) = rw ((==_iff _ _).1 e)
alloc_page_frame_none mmap m (inr e) = elim (Bool-cases (m.nalloc == npages)) [
  | inl full ↦ rw full
  | inr room ↦ rw (room, e)
]

-- The write of the entry, after the allocation.
store-link :
    (m : Memory) (n i : ℕ) (f va : Frame)
    → m.pages n ≡ some f
    → i < 512
    → n < m.nalloc
    → m.nalloc < npages
    → store
        (at_frame n)
        i
        (set_valid (shl12 (m.nalloc + base)))
        (record { nalloc = m.nalloc + 1; pages = update m.pages m.nalloc (some va) })
      ≡ done (tt, link m n f i va)
unfolding store
store-link m n i f va page small here room = ground (arith, set_valid-entry m.nalloc room)

link_lem :
    (mmap : Mmap) (m : Memory) (n i : ℕ) (f va : Frame)
    → m.pages n ≡ some f
    → i < 512
    → n < m.nalloc
    → m.nalloc < npages
    → mmap m.nalloc ≡ some va
    → (do frame ← alloc_page_frame mmap; store (at_frame n) i (set_valid (shl12 frame)); pure true)
        m
      ≡ done (true, link m n f i va)
link_lem mmap m n i f va page small here room e =
    rw (alloc_page_frame_ok mmap m va room e, ◌>>=◌)
      (rw (store-link m n i f va page small here room, ◌>>=◌))

pub ensure_table_lem :
    (mmap : Mmap) (m : Memory) (n i ppn : ℕ) (f : Frame)
    → m.pages n ≡ some f
    → i < 512
    → n < m.nalloc
    → m.nalloc ≤ npages
    → Ensured mmap m n i ppn f (ensure_table mmap (at_frame n) i ppn m)
unfolding ensure_table
ensure_table_lem mmap m n i ppn f page small here few =
    rw (load-at_frame m n i f page small, ◌>>=◌)
      (elim (Bool-cases (is_valid (word m n i))) [
        | inl v ↦ rw v (there v refl)
        | inr v ↦ elim (ℕ_discrete ppn no_mapping) [
          | yes e ↦ missing v e (rw (v, (==_iff _ _).1 e))
          | no ne ↦ elim (ℕ_discrete m.nalloc npages) [
            | yes e ↦
                no_frame ne (inl e)
                  (rw (v, ==_ne ppn no_mapping ne, alloc_page_frame_none mmap m (inl e), ◌>>=◌))
            | no room ↦ elim (Option-cases (mmap m.nalloc)) [
              | inl e ↦
                  no_frame ne (inr e)
                    (rw (v, ==_ne ppn no_mapping ne, alloc_page_frame_none mmap m (inr e), ◌>>=◌))
              | inr (va, e) ↦ made v ne (omega arith) va e (
                  rw (v, ==_ne ppn no_mapping ne)
                    (link_lem mmap m n i f va page small here (omega arith) e))
            ]
          ]
        ]
      ])
