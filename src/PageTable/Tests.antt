-- ===== src/PageTable/Tests.antt =====
-- hw1: runs of the model on the first calls of `main` in hw1/os.c, and instances of the laws.
use oscourse24btau.Common.{ℕ, ◌+◌, ◌≡◌, refl, none, some, arith}
use oscourse24btau.PageTable.Memory.{
  Memory, Mmap, MmapZeroes, Outcome, done, exited, fault, base, update, alloc_page_frame,
  phys_to_virt, load, store,
}
use oscourse24btau.PageTable.Walk.{
  get_index, ensure_table, update_loop, no_mapping, page_table_update, page_table_query, query_loop,
}
use oscourse24btau.PageTable.Tree.{Label, IsTree}
use oscourse24btau.PageTable.Laws.{IsRoot}
use oscourse24btau.PageTable.Contract.{query-update}

-- A machine whose `mmap` always succeeds.
abbrev zero_pages : Mmap
zero_pages n = some (λ _. 0)

zero_pages-MmapZeroes : MmapZeroes zero_pages
zero_pages-MmapZeroes n f e i = let same : (λ (_ : ℕ). 0) ≡ f = cc in rw (← same)

-- The memory after `pt = alloc_page_frame()`.
abbrev one_table : Memory
one_table = record { nalloc = 1; pages = update (λ _. none) 0 (some (λ _. 0)) }

abbrev one_label : ℕ → Label
one_label n = record { root = 0; level = 4; prefix = 0 }

one_table-IsTree : IsTree one_table one_label
one_table-IsTree = record {
  few = omega arith;
  present = λ n h. (λ _. 0, ground arith);
  child = λ n l i h lev s v. absurd (ground arith);
}

one_table-IsRoot : IsRoot one_table one_label 0
one_table-IsRoot = omega arith

abbrev memory_of : {A : Type 0} → Outcome (A × Memory) → Memory
memory_of (done (a, m)) = m
memory_of (exited n) = one_table
memory_of fault = one_table

abbrev mapped : Memory
mapped = memory_of (page_table_update zero_pages base 0xcafecafeeee 0xf00d one_table)

run_update :
    page_table_update zero_pages (0 + base) 0xcafecafeeee 0xf00d one_table ≡ done (tt, mapped)
unfolding page_table_update update_loop ensure_table alloc_page_frame phys_to_virt load store
    get_index
run_update = refl

run_query : page_table_query base 0xcafecafeeee mapped ≡ done (0xf00d, mapped)
unfolding page_table_query query_loop page_table_update update_loop ensure_table alloc_page_frame
    phys_to_virt load store get_index
run_query = refl

run_query_before :
    page_table_query (0 + base) 0xcafecafe000 one_table ≡ done (no_mapping, one_table)
unfolding page_table_query query_loop phys_to_virt load get_index
run_query_before = refl

query-update_example : page_table_query (0 + base) 0xcafecafe000 mapped ≡ done (0xf00d, mapped)
query-update_example =
    query-update zero_pages-MmapZeroes one_table-IsTree 0 0xcafecafeeee 0xf00d one_table-IsRoot 0
      0xcafecafe000 one_table-IsRoot run_query_before run_update

abbrev two_tables : Memory
two_tables = record { nalloc = 2; pages = update one_table.pages 1 (some (λ _. 0)) }

run_alloc : alloc_page_frame zero_pages one_table ≡ done (1 + base, two_tables)
unfolding alloc_page_frame
run_alloc = refl
