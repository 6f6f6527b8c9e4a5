-- ===== src/PageTable/Calls.antt =====
-- hw1/os.c, `main`: the kinds of statement that it is made of, and how they run.
use oscourse24btau.Common.{ℕ, Option, none, some, List, [], ◌∷◌, ◌==◌, if◌then◌else◌}
use oscourse24btau.PageTable.Memory.{Mmap, M, pure, ◌>>=◌, ◌>>◌, alloc_page_frame}
use oscourse24btau.PageTable.Walk.{page_table_update, page_table_query}

-- The two variables of `main` that hold page tables.
pub data Var : Type 0 where
  pt new_pt : Var

-- `v = alloc_page_frame()`, `page_table_update(v, vpn, ppn)`,
-- `assert(page_table_query(v, vpn) == ppn)`.
pub data Call : Type 0 where
  allocs : Var → Call
  updates : Var → ℕ → ℕ → Call
  expects : Var → ℕ → ℕ → Call

abbrev pub Vars : Type 0
Vars = Var → ℕ

-- `f` with the value `a` for the variable
abbrev pub set {ℓ} : {A : Type ℓ} → Var → A → (Var → A) → Var → A
set pt a f pt = a
set pt a f new_pt = f new_pt
set new_pt a f pt = f pt
set new_pt a f new_pt = a

-- The statements in order; `none` when an assertion fails.
unfoldable pub run : Mmap → List Call → Vars → M (Option Vars)
run mmap [] vars = pure (some vars)
run mmap (allocs v ∷ calls) vars = do
  frame ← alloc_page_frame mmap
  run mmap calls (set v frame vars)
run mmap (updates v vpn ppn ∷ calls) vars = do
  page_table_update mmap (vars v) vpn ppn
  run mmap calls vars
run mmap (expects v vpn ppn ∷ calls) vars = do
  x ← page_table_query (vars v) vpn
  let rest = run mmap calls vars
  if x == ppn then rest else pure none
