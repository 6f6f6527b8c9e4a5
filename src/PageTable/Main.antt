-- ===== src/PageTable/Main.antt =====
-- hw1/os.c, `main`: its statements. The assertions that stand in comments there are left out, and so
-- are the calls of printf.
use oscourse24btau.Common.{ℕ, zero, suc, ◌+◌, ◌/◌, Option, List, [], ◌∷◌, ◌++◌}
use oscourse24btau.PageTable.Memory.{Mmap, M}
use oscourse24btau.PageTable.Walk.{no_mapping}
use oscourse24btau.PageTable.Calls.{pt, new_pt, Call, allocs, updates, expects, Vars, run}

-- The statements before the loops.
abbrev pub before_loops : List Call
before_loops =
    allocs pt
    ∷ expects pt 0xcafecafeeee no_mapping
    ∷ expects pt 0xfffecafeeee no_mapping
    ∷ updates pt 0xcafecafeeee 0xf00d
    ∷ expects pt 0xcafecafeeee 0xf00d
    ∷ expects pt 0xfffecafeeee no_mapping
    ∷ updates pt 0xcafecafeeee no_mapping
    ∷ expects pt 0xcafecafeeee no_mapping
    ∷ expects pt 0xfffecafeeee no_mapping
    ∷ allocs pt
    ∷ allocs new_pt
    ∷ expects pt 0xcafe no_mapping
    ∷ updates pt 0xcafe 0xf00d
    ∷ updates pt 0xbaff 0xbadd
    ∷ expects pt 0xcafe 0xf00d
    ∷ expects pt 0xbaff 0xbadd
    ∷ updates pt 0xcafe no_mapping
    ∷ expects pt 0xcafe no_mapping
    ∷ expects pt 0xbaff 0xbadd
    ∷ updates pt 0xbaff no_mapping
    ∷ expects pt 0xbaff no_mapping
    ∷ updates pt 0xcafe 0
    ∷ expects pt 0xcafe 0
    ∷ updates pt 0xcafe no_mapping
    ∷ expects pt 0xcafe no_mapping
    ∷ updates pt 0x8686 0xabcd
    ∷ expects pt 0x8686 0xabcd
    ∷ updates pt 0x8686 0x1234
    ∷ expects pt 0x8686 0x1234
    ∷ updates pt 0xcafe 0xacdc
    ∷ updates pt 0xcaff 0xaaaa
    ∷ updates pt 0xcafe no_mapping
    ∷ updates pt 0xcaff no_mapping
    ∷ expects pt 0xcafe no_mapping
    ∷ expects pt 0xcaff no_mapping
    ∷ updates new_pt 0xcafe 0xabcd
    ∷ expects new_pt 0xcafe 0xabcd
    ∷ updates new_pt 0xcafe no_mapping
    ∷ expects new_pt 0xcafe no_mapping
    ∷ allocs pt
    ∷ expects pt 0x0 no_mapping
    ∷ expects pt 0x1 no_mapping
    ∷ updates pt 0x0 0x100
    ∷ expects pt 0x0 0x100
    ∷ updates pt 0x1 0x101
    ∷ updates pt 0x0 no_mapping
    ∷ expects pt 0x0 no_mapping
    ∷ updates pt 0x1 no_mapping
    ∷ expects pt 0x1 no_mapping
    ∷ []

-- The loops over `i`, with `n` rounds left.
unfoldable pub map_pages : ℕ → ℕ → ℕ → List Call
map_pages offset zero i = []
map_pages offset (suc n) i =
    updates pt i (i + offset) ∷ expects pt i (i + offset) ∷ map_pages offset n (i + 1)

unfoldable pub unmap_pages : ℕ → ℕ → List Call
unmap_pages zero i = []
unmap_pages (suc n) i = updates pt i no_mapping ∷ expects pt i no_mapping ∷ unmap_pages n (i + 1)

abbrev pub large_addrs : List ℕ
large_addrs =
    0x1ffff8000000 ∷ 0x2ffff9000000 ∷ 0x3ffffa000000 ∷ 0x4ffffb000000 ∷ 0x5ffffc000000
    ∷ 0x6ffffd000000 ∷ 0x7ffffe000000 ∷ 0x8fffff000000 ∷ []

-- The loops over `large_addrs`.
unfoldable pub map_large : List ℕ → List Call
map_large [] = []
map_large (a ∷ l) = updates pt a (a / 4096) ∷ expects pt a (a / 4096) ∷ map_large l

unfoldable pub unmap_large : List ℕ → List Call
unmap_large [] = []
unmap_large (a ∷ l) = updates pt a no_mapping ∷ expects pt a no_mapping ∷ unmap_large l

-- The six loops.
abbrev pub loops : List Call
loops =
    map_pages 0x1000 1024 0
    ++ (unmap_pages 1024 0
        ++ (map_large large_addrs
            ++ (unmap_large large_addrs ++ (map_pages 0x2000 2048 0 ++ unmap_pages 2048 0))))

-- The statements behind the loops.
abbrev pub after_loops : List Call
after_loops =
    allocs pt
    ∷ allocs pt
    ∷ updates pt 0xabc 0x123
    ∷ updates pt 0xabc no_mapping
    ∷ expects pt 0xabc no_mapping
    ∷ allocs pt
    ∷ updates pt 0x100 0x200
    ∷ updates pt 0x200 0x300
    ∷ updates pt 0x100 no_mapping
    ∷ expects pt 0x100 no_mapping
    ∷ allocs pt
    ∷ updates pt 0x100 0x0
    ∷ expects pt 0x100 0x0
    ∷ updates pt 0x100 no_mapping
    ∷ allocs pt
    ∷ updates pt 0xabc 0x123
    ∷ updates pt 0xabc 0x456
    ∷ expects pt 0xabc 0x456
    ∷ updates pt 0xabc no_mapping
    ∷ allocs pt
    ∷ updates pt 0xabc 0x123
    ∷ updates pt 0xabd 0x456
    ∷ expects pt 0xabd 0x456
    ∷ updates pt 0xabc no_mapping
    ∷ updates pt 0xabd no_mapping
    ∷ allocs pt
    ∷ allocs new_pt
    ∷ updates pt 0xabc 0x123
    ∷ updates new_pt 0xabc 0x456
    ∷ expects new_pt 0xabc 0x456
    ∷ updates pt 0xabc no_mapping
    ∷ updates new_pt 0xabc no_mapping
    ∷ []

abbrev pub main_calls : List Call
main_calls = before_loops ++ (loops ++ after_loops)

-- `main`; what its variables hold at first is `vars`.
unfoldable pub main : Mmap → Vars → M (Option Vars)
unfolding run
main mmap vars = run mmap main_calls vars
