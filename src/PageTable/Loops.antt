-- ===== src/PageTable/Loops.antt =====
-- hw1/os.c, `main`: its loops, on the abstract tables.
use oscourse24btau.Common.{
  ℕ, zero, suc, ◌+◌, ◌/◌, ◌^◌, ◌<◌, ◌≡◌, refl, ◌∙◌, ap, some, List, [], ◌∷◌, ◌++◌, ==_refl, arith,
}
use oscourse24btau.PageTable.Walk.{no_mapping}
use oscourse24btau.PageTable.Tree.{key}
use oscourse24btau.PageTable.Laws.{stored}
use oscourse24btau.PageTable.Calls.{pt, Call, allocs, updates, expects}
use oscourse24btau.PageTable.Main.{
  map_pages, unmap_pages, map_large, unmap_large, large_addrs, loops,
}
use oscourse24btau.PageTable.Spec.{Tables, add_table, map_key, spec_run}
use oscourse24btau.PageTable.Runs.{spec-updates, spec-expects}

-- The calls pass and change nothing but the content of the tables.
unfoldable pub Passes : List Call → Tables → Type 0
Passes calls s = (f : ℕ → ℕ → ℕ) × (spec_run calls s ≡ some (record s { content = f }))

pub spec_run-append :
    (a b : List Call) (s s' : Tables) → spec_run a s ≡ some s' → spec_run (a ++ b) s ≡ spec_run b s'
unfolding spec_run
spec_run-append [] b s s' e = let same : s ≡ s' = cc in ap (spec_run b) same
spec_run-append (allocs v ∷ a) b s s' e = spec_run-append a b (add_table v s) s' e
spec_run-append (updates v vpn ppn ∷ a) b s s' e =
    let (h, held, e') = spec-updates v vpn ppn a s e in
    rw (spec_run, held) (spec_run-append a b (map_key h (key vpn) (stored ppn) s) s' e')
spec_run-append (expects v vpn ppn ∷ a) b s s' e =
    let (h, held, same, e') = spec-expects v vpn ppn a s e in
    rw (spec_run, held, same) (spec_run-append a b s s' e')

-- One round of each loop: an update, and the assertion that it can be read.
spec-round :
    (vpn ppn h : ℕ) (calls : List Call) (s : Tables)
    → s.held pt ≡ some h
    → stored ppn ≡ ppn
    → spec_run (updates pt vpn ppn ∷ expects pt vpn ppn ∷ calls) s
      ≡ spec_run calls (map_key h (key vpn) (stored ppn) s)
unfolding spec_run
spec-round vpn ppn h calls s held fits =
    rw (spec_run, held, spec_run, held, ==_refl h, ==_refl (key vpn), fits, ==_refl ppn) refl

module _ (h : ℕ) where
  -- The loop over `i` that maps, and the one that removes.
  map_pages-Passes :
      (offset n i : ℕ) (s : Tables)
      → s.held pt ≡ some h
      → i + n + offset < 2 ^ 52
      → Passes (map_pages offset n i) s
  unfolding Passes map_pages spec_run
  map_pages-Passes offset zero i s held small = (s.content, refl)
  map_pages-Passes offset (suc n) i s held small =
      let (f, e) =
        map_pages-Passes offset n (i + 1) (map_key h (key i) (stored (i + offset)) s) held
          (omega arith) in
      (f, spec-round i (i + offset) h (map_pages offset n (i + 1)) s held (ground arith) ∙ e)

  unmap_pages-Passes : (n i : ℕ) (s : Tables) → s.held pt ≡ some h → Passes (unmap_pages n i) s
  unfolding Passes unmap_pages spec_run
  unmap_pages-Passes zero i s held = (s.content, refl)
  unmap_pages-Passes (suc n) i s held =
      let (f, e) = unmap_pages-Passes n (i + 1) (map_key h (key i) (stored no_mapping) s) held in
      (f, spec-round i no_mapping h (unmap_pages n (i + 1)) s held refl ∙ e)

  -- One after the other.
  Passes-append :
      (a b : List Call) (s : Tables)
      → s.held pt ≡ some h
      → Passes a s
      → ((f : ℕ → ℕ → ℕ) → Passes b (record s { content = f }))
      → Passes (a ++ b) s
  unfolding Passes
  Passes-append a b s held (f, e) next =
      let (g, e') = next f in (g, spec_run-append a b s (record s { content = f }) e ∙ e')

  Fits : List ℕ → Type 0
  Fits [] = Unit {0}
  Fits (a ∷ l) = (a < 2 ^ 64) × Fits l

  map_large-Passes :
      (l : List ℕ) (s : Tables) → s.held pt ≡ some h → Fits l → Passes (map_large l) s
  unfolding Passes map_large spec_run Fits
  map_large-Passes [] s held fits = (s.content, refl)
  map_large-Passes (a ∷ l) s held fits =
      let (f, e) = map_large-Passes l (map_key h (key a) (stored (a / 4096)) s) held fits.1 in
      (
        f,
        spec-round a (a / 4096) h (map_large l) s held (let small = fits.0 in ground (arith, small))
            ∙ e,
      )

  unmap_large-Passes : (l : List ℕ) (s : Tables) → s.held pt ≡ some h → Passes (unmap_large l) s
  unfolding Passes unmap_large spec_run
  unmap_large-Passes [] s held = (s.content, refl)
  unmap_large-Passes (a ∷ l) s held =
      let (f, e) = unmap_large-Passes l (map_key h (key a) (stored no_mapping) s) held in
      (f, spec-round a no_mapping h (unmap_large l) s held refl ∙ e)

  large_addrs-Fits : Fits large_addrs
  unfolding Fits
  large_addrs-Fits = (
    omega arith,
    (
      omega arith,
      (omega arith, (omega arith, (omega arith, (omega arith, (omega arith, (omega arith, tt)))))),
    ),
  )

  pub loops-Passes : (s : Tables) → s.held pt ≡ some h → Passes loops s
  loops-Passes s held =
      Passes-append _ _ s held (map_pages-Passes 0x1000 1024 0 s held (omega arith)) λ f1.
        Passes-append _ _ (record s { content = f1 }) held
          (unmap_pages-Passes 1024 0 (record s { content = f1 }) held)
          λ f2.
            Passes-append _ _ (record s { content = f2 }) held
              (map_large-Passes large_addrs (record s { content = f2 }) held large_addrs-Fits)
              λ f3.
                Passes-append _ _ (record s { content = f3 }) held
                  (unmap_large-Passes large_addrs (record s { content = f3 }) held)
                  λ f4.
                    Passes-append _ _ (record s { content = f4 }) held
                      (map_pages-Passes 0x2000 2048 0 (record s { content = f4 }) held
                        (omega arith))
                      λ f5. unmap_pages-Passes 2048 0 (record s { content = f5 }) held
