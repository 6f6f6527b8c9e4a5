-- ===== src/PageTable/Passes.antt =====
-- hw1/os.c, `main`: its assertions hold.
use oscourse24btau.Common.{
  ℕ, zero, suc, ◌+◌, ◌*◌, ◌≤◌, ◌≡◌, refl, ◌∙◌, Option, none, some, ◌++◌, length, length-append,
  arith,
}
use oscourse24btau.PageTable.Memory.{Memory, Mmap, MmapZeroes, done, Frame}
use oscourse24btau.PageTable.Calls.{pt, Vars}
use oscourse24btau.PageTable.Main.{
  before_loops, after_loops, map_pages, unmap_pages, map_large, unmap_large, large_addrs, loops,
  main_calls, main,
}
use oscourse24btau.PageTable.Spec.{Tables, spec_run}
use oscourse24btau.PageTable.Refine.{Agrees}
use oscourse24btau.PageTable.Runs.{run_ends}
use oscourse24btau.PageTable.Loops.{Passes, spec_run-append, loops-Passes}

-- No table yet.
abbrev pub no_table : Tables
no_table = record { count = 0; content = λ h k. 0; held = λ v. none }

abbrev after_run : Option Tables → Tables
after_run none = no_table
after_run (some s) = s

abbrev before : Tables
before = after_run (spec_run before_loops no_table)

before-passes : spec_run before_loops no_table ≡ some before
unfolding spec_run
before-passes = refl

before-held : before.held pt ≡ some 3
unfolding spec_run
before-held = refl

abbrev after : (ℕ → ℕ → ℕ) → Tables
after f = after_run (spec_run after_loops (record before { content = f }))

after-passes :
    (f : ℕ → ℕ → ℕ) → spec_run after_loops (record before { content = f }) ≡ some (after f)
unfolding spec_run
after-passes f = refl

main_calls-passes : (s : Tables) × (spec_run main_calls no_table ≡ some s)
unfolding Passes
main_calls-passes =
    let (f, e) = loops-Passes 3 before before-held in
    (
      after f,
      spec_run-append before_loops (loops ++ after_loops) no_table before before-passes
          ∙ spec_run-append loops after_loops before (record before { content = f }) e
          ∙ after-passes f,
    )

length-map_pages : (offset n i : ℕ) → length (map_pages offset n i) ≡ 2 * n
unfolding map_pages
length-map_pages offset zero i = refl
length-map_pages offset (suc n) i = omega (arith, length-map_pages offset n (i + 1))

length-unmap_pages : (n i : ℕ) → length (unmap_pages n i) ≡ 2 * n
unfolding unmap_pages
length-unmap_pages zero i = refl
length-unmap_pages (suc n) i = omega (arith, length-unmap_pages n (i + 1))

length-loops : length loops ≡ 12320
unfolding map_large unmap_large
length-loops =
    rw
      (
        length-append (map_pages 0x1000 1024 0),
        length-append (unmap_pages 1024 0),
        length-append (map_large large_addrs),
        length-append (unmap_large large_addrs),
        length-append (map_pages 0x2000 2048 0),
        length-map_pages 0x1000 1024 0,
        length-unmap_pages 1024 0,
        length-map_pages 0x2000 2048 0,
        length-unmap_pages 2048 0,
      )
      refl

length-main_calls : length main_calls ≤ 12500
length-main_calls = omega (
  arith,
  length-append before_loops (loops ++ after_loops),
  length-append loops after_loops,
  length-loops,
)

-- The memory when the program starts.
abbrev pub boot : Memory
boot = record { nalloc = 0; pages = λ n. none }

pub boot-Agrees :
    (vars : Vars)
    → Agrees boot (λ n. record { root = n; level = 4; prefix = 0 }) vars (λ h. h) no_table
boot-Agrees vars = record {
  tree = record {
    few = omega arith;
    present = λ n lt. absurd (omega (arith, lt));
    child = λ n l i lt e small v. absurd (omega (arith, lt));
  };
  root = λ h lt. absurd (omega (arith, lt));
  apart = λ h h' lt lt' e. absurd (omega (arith, lt));
  finds = λ h vpn lt. absurd (omega (arith, lt));
  holds = λ v h e. absurd (cc);
}

-- When `mmap` does not fail, `main` runs to its end and none of its assertions fails.
pub main_passes :
    {mmap : Mmap} (vars : Vars)
    → MmapZeroes mmap
    → ((n : ℕ) → (f : Frame) × (mmap n ≡ some f))
    → (vars' : Vars) × (m' : Memory) × (main mmap vars boot ≡ done (some vars', m'))
unfolding main
main_passes vars zeroes given =
    let (s, e) = main_calls-passes in
    run_ends zeroes given main_calls (boot-Agrees vars) e (omega (arith, length-main_calls))
