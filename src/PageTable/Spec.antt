-- ===== src/PageTable/Spec.antt =====
-- hw1: what page tables are for, as an abstract state. Each allocation gives a new table that maps
-- nothing, and a table is a function from keys to physical page numbers.
use oscourse24btau.Common.{ℕ, ◌+◌, ◌&&◌, Option, none, some, List, [], ◌∷◌, ◌==◌, if◌then◌else◌}
use oscourse24btau.PageTable.Walk.{no_mapping}
use oscourse24btau.PageTable.Tree.{key}
use oscourse24btau.PageTable.Laws.{stored}
use oscourse24btau.PageTable.Calls.{Var, Call, allocs, updates, expects, set}

-- The number of tables so far, their content, and the table that each variable holds, if it has been
-- assigned to.
pub record Tables : Type 0 where
  pub count : ℕ
  pub content : ℕ → ℕ → ℕ
  pub held : Var → Option ℕ

abbrev pub add_table : Var → Tables → Tables
add_table v s = record {
  count = s.count + 1;
  content = λ h k. if h == s.count then no_mapping else s.content h k;
  held = set v (some s.count) s.held;
}

abbrev pub map_key : ℕ → ℕ → ℕ → Tables → Tables
map_key h k x s = record s {
  content = λ h' k'. if (h' == h) && (k' == k) then x else s.content h' k';
}

-- `none` when an assertion fails, or when a variable is used that has not been assigned to.
unfoldable pub spec_run : List Call → Tables → Option Tables
spec_run [] s = some s
spec_run (allocs v ∷ calls) s = spec_run calls (add_table v s)
spec_run (updates v vpn ppn ∷ calls) s = elim (s.held v) [
  | none ↦ none
  | some h ↦ spec_run calls (map_key h (key vpn) (stored ppn) s)
]
spec_run (expects v vpn ppn ∷ calls) s = elim (s.held v) [
  | none ↦ none
  | some h ↦ let rest = spec_run calls s in if s.content h (key vpn) == ppn then rest else none
]
