-- ===== src/PageTable/Runs.antt =====
-- hw1: whole runs of a client on the memory, and on the abstract tables.
use oscourse24btau.Common.{
  ℕ, ◌+◌, ◌*◌, ◌≤◌, ◌≡◌, refl, inl, inr, true, Bool-cases, Option, Option-cases, some, List, [],
  ◌∷◌, ◌==◌, length, arith,
}
use mathlib.Core.Path.{subst}
use oscourse24btau.PageTable.Memory.{
  Memory, Mmap, MmapZeroes, Outcome, done, exited, base, npages, ◌>>=◌, alloc_page_frame, Frame,
}
use oscourse24btau.PageTable.Walk.{page_table_update, page_table_query}
use oscourse24btau.PageTable.Tree.{key, Label}
use oscourse24btau.PageTable.Laws.{stored}
use oscourse24btau.PageTable.Contract.{update_ends}
use oscourse24btau.PageTable.Growth.{update-Grows}
use oscourse24btau.PageTable.Calls.{Var, Call, allocs, updates, expects, Vars, set, run}
use oscourse24btau.PageTable.Spec.{Tables, map_key, spec_run}
use oscourse24btau.PageTable.Refine.{
  Agrees, Refined, agrees, no_memory, alloc_ends, Agrees-alloc, Agrees-update,
}

-- A run from a later state, after at most four frames more.
Refined-more :
    {mmap : Mmap} {m m' : Memory} {n : ℕ} {s : Tables} {o : Outcome (Option Vars × Memory)}
    → m.nalloc ≤ m'.nalloc
    → m'.nalloc ≤ m.nalloc + 4
    → Refined mmap m' n s o
    → Refined mmap m (4 + n) s o
Refined-more lo hi (agrees vars m'' lab roots a le) =
    agrees vars m'' lab roots a (omega (arith, le))
Refined-more lo hi (no_memory c le lt nf) = no_memory c (omega (arith, le)) (omega (arith, lt)) nf

module _ (mmap : Mmap) (calls : List Call) (vars : Vars) (m : Memory) where
  run-allocs :
      (v : Var) {frame : ℕ} {m' : Memory}
      → alloc_page_frame mmap m ≡ done (frame, m')
      → run mmap (allocs v ∷ calls) vars m ≡ run mmap calls (set v frame vars) m'
  unfolding run
  run-allocs v e = rw (e, ◌>>=◌) refl

  run-allocs_exits :
      (v : Var) → alloc_page_frame mmap m ≡ exited 1 → run mmap (allocs v ∷ calls) vars m ≡ exited 1
  unfolding run
  run-allocs_exits v e = rw (e, ◌>>=◌) refl

  run-updates :
      (v : Var) (vpn ppn p : ℕ) {m' : Memory}
      → vars v ≡ p
      → page_table_update mmap p vpn ppn m ≡ done (tt, m')
      → run mmap (updates v vpn ppn ∷ calls) vars m ≡ run mmap calls vars m'
  unfolding run
  run-updates v vpn ppn p at e = rw (at, e, ◌>>=◌) refl

  run-updates_exits :
      (v : Var) (vpn ppn p : ℕ)
      → vars v ≡ p
      → page_table_update mmap p vpn ppn m ≡ exited 1
      → run mmap (updates v vpn ppn ∷ calls) vars m ≡ exited 1
  unfolding run
  run-updates_exits v vpn ppn p at e = rw (at, e, ◌>>=◌) refl

  run-expects :
      (v : Var) (vpn ppn p x : ℕ)
      → vars v ≡ p
      → page_table_query p vpn m ≡ done (x, m)
      → (x == ppn) ≡ true
      → run mmap (expects v vpn ppn ∷ calls) vars m ≡ run mmap calls vars m
  unfolding run
  run-expects v vpn ppn p x at e same = rw (at, e, ◌>>=◌, same) refl

-- A run of an abstract call that is not `none`.
pub spec-updates :
    (v : Var) (vpn ppn : ℕ) (calls : List Call) (s : Tables) {s' : Tables}
    → spec_run (updates v vpn ppn ∷ calls) s ≡ some s'
    → (h : ℕ) × (s.held v ≡ some h)
      × (spec_run calls (map_key h (key vpn) (stored ppn) s) ≡ some s')
unfolding spec_run
spec-updates v vpn ppn calls s e = elim (Option-cases (s.held v)) [
  | inl q ↦ absurd (cc (rw (spec_run, q) at e))
  | inr (h, q) ↦ (h, q, rw (spec_run, q) at e)
]

pub spec-expects :
    (v : Var) (vpn ppn : ℕ) (calls : List Call) (s : Tables) {s' : Tables}
    → spec_run (expects v vpn ppn ∷ calls) s ≡ some s'
    → (h : ℕ) × (s.held v ≡ some h)
      × ((s.content h (key vpn) == ppn) ≡ true)
      × (spec_run calls s ≡ some s')
unfolding spec_run
spec-expects v vpn ppn calls s e = elim (Option-cases (s.held v)) [
  | inl q ↦ absurd (cc (rw (spec_run, q) at e))
  | inr (h, q) ↦ elim (Bool-cases (s.content h (key vpn) == ppn)) [
    | inl same ↦ (h, q, same, rw (spec_run, q, same) at e)
    | inr other ↦ absurd (cc (rw (spec_run, q, other) at e))
  ]
]

-- When a client's calls pass on the abstract tables, they do on a memory that stands for them: its
-- assertions hold, and the memory it leaves stands for the tables at the end. The one exception is
-- that the program exits with code 1 because a frame cannot be allocated, one of the next four for
-- each call.
pub run_refines :
    {mmap : Mmap}
    → MmapZeroes mmap
    → (calls : List Call)
    → {m : Memory} {lab : ℕ → Label} {vars : Vars} {roots : ℕ → ℕ} {s s' : Tables}
    → Agrees m lab vars roots s
    → spec_run calls s ≡ some s'
    → Refined mmap m (4 * length calls) s' (run mmap calls vars m)
unfolding run spec_run
run_refines zeroes [] {m} {lab} {vars} {roots} {s} {s'} a e =
    let same : s ≡ s' = cc in
    agrees vars m lab roots (subst (Agrees m lab vars roots) same a) (omega arith)
run_refines {mmap} zeroes (allocs v ∷ calls) {m} {lab} {vars} {roots} {s} {s'} a e =
    elim (alloc_ends mmap m) [
      | inl (frame, m', q) ↦
          let (lab', roots', a', grown) = Agrees-alloc zeroes a v q in
          rw (run-allocs mmap calls vars m v q) (
            subst (λ n. Refined mmap m n s' (run mmap calls (set v frame vars) m')) (omega arith)
              (Refined-more (omega (arith, grown)) (omega (arith, grown))
                (run_refines zeroes calls a' e)))
      | inr (nf, q) ↦
          rw (run-allocs_exits mmap calls vars m v q)
            (no_memory m.nalloc (omega arith) (omega arith) nf)
    ]
run_refines {mmap} zeroes (updates v vpn ppn ∷ calls) {m} {lab} {vars} {roots} {s} {s'} a e =
    let (h, held, e') = spec-updates v vpn ppn calls s e in
    let (small, at) = a.holds v h held in
    elim (update_ends zeroes a.tree (roots h) vpn ppn (a.root h small)) [
      | inl (m', q) ↦
          let (lab', a') = Agrees-update zeroes a v vpn ppn h held q in
          let (lo, hi) = update-Grows mmap (roots h + base) vpn ppn m m' q in
          rw (run-updates mmap calls vars m v vpn ppn _ at q) (
            subst (λ n. Refined mmap m n s' (run mmap calls vars m')) (omega arith)
              (Refined-more lo hi (run_refines zeroes calls a' e')))
      | inr (ne, (c, lo, hi, nf), q) ↦
          rw (run-updates_exits mmap calls vars m v vpn ppn _ at q)
            (no_memory c lo (omega (arith, hi)) nf)
    ]
run_refines {mmap} zeroes (expects v vpn ppn ∷ calls) {m} {lab} {vars} {roots} {s} {s'} a e =
    let (h, held, same, e') = spec-expects v vpn ppn calls s e in
    let (small, at) = a.holds v h held in
    rw (run-expects mmap calls vars m v vpn ppn _ _ at (a.finds h vpn small) same) (
      subst (λ n. Refined mmap m n s' (run mmap calls vars m)) (omega arith)
        (Refined-more (omega arith) (omega arith) (run_refines zeroes calls a e')))

-- The same, when there is room for four frames for each call and `mmap` does not fail: the calls run to
-- their end, and no assertion fails.
pub run_ends :
    {mmap : Mmap}
    → MmapZeroes mmap
    → ((n : ℕ) → (f : Frame) × (mmap n ≡ some f))
    → (calls : List Call)
    → {m : Memory} {lab : ℕ → Label} {vars : Vars} {roots : ℕ → ℕ} {s s' : Tables}
    → Agrees m lab vars roots s
    → spec_run calls s ≡ some s'
    → m.nalloc + 4 * length calls ≤ npages
    → (vars' : Vars) × (m' : Memory) × (run mmap calls vars m ≡ done (some vars', m'))
run_ends {mmap} zeroes given calls {m} {vars = vars} {s' = s'} a e room =
    go (run_refines zeroes calls a e)
  where
    go :
        {o : Outcome (Option Vars × Memory)}
        → Refined mmap m (4 * length calls) s' o
        → (vars' : Vars) × (m' : Memory) × (o ≡ done (some vars', m'))
    go (agrees vars' m' lab' roots' a' le) = (vars', m', refl)
    go (no_memory c lo hi (inl full)) = absurd (omega (arith, lo, hi, full, room))
    go (no_memory c lo hi (inr failed)) = let (f, q) = given c in absurd (cc)
