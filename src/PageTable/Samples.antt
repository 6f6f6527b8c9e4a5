-- ===== src/PageTable/Samples.antt =====
-- hw1: a short client, and `main`, on a machine whose `mmap` always succeeds.
use oscourse24btau.Common.{ℕ, ◌+◌, ◌*◌, ◌≡◌, ◌≤◌, refl, some, none, Option, List, [], ◌∷◌}
use oscourse24btau.PageTable.Memory.{
  Memory, Mmap, MmapZeroes, Frame, done, exited, fault, base, alloc_page_frame, phys_to_virt, load,
  store,
}
use oscourse24btau.PageTable.Walk.{get_index, ensure_table, update_loop, page_table_update}
use oscourse24btau.PageTable.Calls.{pt, new_pt, Call, allocs, updates, expects, Vars, run}
use oscourse24btau.PageTable.Main.{main}
use oscourse24btau.PageTable.Spec.{Tables, spec_run}
use oscourse24btau.PageTable.Refine.{Refined}
use oscourse24btau.PageTable.Growth.{update-Grows}
use oscourse24btau.PageTable.Runs.{run_refines}
use oscourse24btau.PageTable.Passes.{no_table, boot, boot-Agrees, main_passes}

abbrev zero_pages : Mmap
zero_pages n = some (λ _. 0)

zero_pages-MmapZeroes : MmapZeroes zero_pages
zero_pages-MmapZeroes n f e i = let same : (λ (_ : ℕ). 0) ≡ f = cc in rw (← same)

zero_pages-given : (n : ℕ) → (f : Frame) × (zero_pages n ≡ some f)
zero_pages-given n = (λ _. 0, refl)

abbrev start : Vars
start v = 0

-- Two tables, with one page mapped in each.
abbrev client : List Call
client =
    allocs pt
    ∷ allocs new_pt
    ∷ updates pt 0x5000 7
    ∷ updates new_pt 0x5000 8
    ∷ expects pt 0x5000 7
    ∷ []

abbrev tables_after : Option Tables → Tables
tables_after s = elim s [ some t ↦ t | none ↦ no_table ]

client_passes : spec_run client no_table ≡ some (tables_after (spec_run client no_table))
unfolding spec_run
client_passes = refl

run_refines_example :
    Refined zero_pages boot
      (4 * 5)
      (tables_after (spec_run client no_table))
      (run zero_pages client start boot)
run_refines_example = run_refines zero_pages-MmapZeroes client (boot-Agrees start) client_passes

main_passes_example :
    (vars : Vars) × (m : Memory) × (main zero_pages start boot ≡ done (some vars, m))
main_passes_example = main_passes start zero_pages-MmapZeroes zero_pages-given

abbrev one_table : Memory
one_table = record { nalloc = 1; pages = λ n. some (λ _. 0) }

abbrev memory_after : Memory
memory_after = elim (page_table_update zero_pages base 0x5000 7 one_table) [
  | done (a, m) ↦ m
  | exited n ↦ boot
  | fault ↦ boot
]

update_run : page_table_update zero_pages base 0x5000 7 one_table ≡ done (tt, memory_after)
unfolding page_table_update update_loop ensure_table alloc_page_frame phys_to_virt load store
    get_index
update_run = refl

update-Grows_example : (1 ≤ memory_after.nalloc) × (memory_after.nalloc ≤ 1 + 4)
update-Grows_example = update-Grows zero_pages base 0x5000 7 one_table memory_after update_run
