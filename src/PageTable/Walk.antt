-- ===== src/PageTable/Walk.antt =====
-- hw1/pt.c: the walk over the five levels of a page table.
use oscourse24btau.Common.{
  ℕ, zero, suc, ◌+◌, ◌-◌, ◌*◌, ◌/◌, ◌%◌, ◌^◌, Bool, true, false, Option, none, some, ◌==◌,
  if◌then◌else◌,
}
use oscourse24btau.PageTable.Memory.{
  Mmap, Pointer, M, pure, ◌>>=◌, ◌>>◌, alloc_page_frame, phys_to_virt, load, store, shl12, shr12,
}

-- `NO_MAPPING`, ~0ULL
abbrev pub no_mapping : ℕ
no_mapping = 2 ^ 64 - 1

unfoldable pub get_index : ℕ → ℕ → ℕ
get_index vpn level = vpn / 2 ^ (12 + 9 * level) % 512

-- `w & 1`
abbrev pub is_valid : ℕ → Bool
is_valid w = w % 2 == 1

-- `w | 1`
abbrev pub set_valid : ℕ → ℕ
set_valid w = w + 1 - w % 2

-- `w & ~0xFFF`
abbrev pub clear_flags : ℕ → ℕ
clear_flags w = w - w % 4096

-- The `if` in the loop of `page_table_update`: `false` is its `return`.
unfoldable pub ensure_table : Mmap → Option Pointer → ℕ → ℕ → M Bool
ensure_table mmap current index ppn = do
  w ← load current index
  if is_valid w then pure true else if ppn == no_mapping then pure false else do
    frame ← alloc_page_frame mmap
    store current index (set_valid (shl12 frame))
    pure true

-- The loop of `page_table_update`, at the levels from the given one down to 1: the table of level 0,
-- or `none` for the early return.
unfoldable pub update_loop : Mmap → ℕ → ℕ → ℕ → Option Pointer → M (Option (Option Pointer))
update_loop mmap zero vpn ppn current = pure (some current)
update_loop mmap (suc level) vpn ppn current = do
  let index = get_index vpn (suc level)
  go_on ← ensure_table mmap current index ppn
  elim go_on [
    | false ↦ pure none
    | true ↦ do
      w ← load current index
      update_loop mmap level vpn ppn (phys_to_virt (clear_flags w))
  ]

-- What `page_table_update` writes into the table of level 0.
abbrev pub leaf_entry : ℕ → ℕ
leaf_entry ppn = if ppn == no_mapping then 0 else set_valid (shl12 ppn)

unfoldable pub page_table_update : Mmap → ℕ → ℕ → ℕ → M (Unit {0})
page_table_update mmap pt vpn ppn = do
  leaf ← update_loop mmap 4 vpn ppn (phys_to_virt (shl12 pt))
  elim leaf [ none ↦ pure tt | some current ↦ store current (get_index vpn 0) (leaf_entry ppn) ]

unfoldable pub query_loop : ℕ → ℕ → Option Pointer → M ℕ
query_loop zero vpn current = do
  w ← load current (get_index vpn 0)
  if is_valid w then pure (shr12 w) else pure no_mapping
query_loop (suc level) vpn current = do
  w ← load current (get_index vpn (suc level))
  let rest = query_loop level vpn (phys_to_virt (clear_flags w))
  if is_valid w then rest else pure no_mapping

unfoldable pub page_table_query : ℕ → ℕ → M ℕ
page_table_query pt vpn = query_loop 4 vpn (phys_to_virt (shl12 pt))
