-- ===== src/Common/Members.antt =====
-- Membership, absence and distinctness in lists of numbers, by recursion.
use Prim.Native.Nat.{ℕ, ◌+◌}
use mathlib.Core.Path.{◌≡◌, refl, ◌∙◌, sym}
use mathlib.Core.Logic.{◌≢◌, ◌⊎◌, inl, inr}
use mathlib.Core.List.{List, [], ◌∷◌, ◌++◌}
use native.Mathlib.Decide.{ℕ_discrete}
use native.Mathlib.Omega.{arith}
use oscourse24btau.Common.Lists.{length}
use oscourse24btau.Common.Tests.{◌==◌, if◌then◌else◌, Bool-cases}

abbrev pub In : ℕ → List ℕ → Type 0
In t [] = ⊥
In t (x ∷ l) = (t ≡ x) ⊎ In t l

abbrev pub NotIn : ℕ → List ℕ → Type 0
NotIn t [] = Unit {0}
NotIn t (x ∷ l) = (t ≢ x) × NotIn t l

abbrev pub Distinct : List ℕ → Type 0
Distinct [] = Unit {0}
Distinct (x ∷ l) = NotIn x l × Distinct l

pub NotIn-In : (t : ℕ) (l : List ℕ) → NotIn t l → In t l → ⊥
NotIn-In t [] n h = h
NotIn-In t (x ∷ l) n (inl e) = n.0 e
NotIn-In t (x ∷ l) n (inr h) = NotIn-In t l n.1 h

pub NotIn-ne : (t b : ℕ) (l : List ℕ) → NotIn t l → In b l → t ≢ b
NotIn-ne t b [] n h e = h
NotIn-ne t b (x ∷ l) n (inl q) e = n.0 (e ∙ q)
NotIn-ne t b (x ∷ l) n (inr h) e = NotIn-ne t b l n.1 h e

pub NotIn-of_absent : (t : ℕ) (l : List ℕ) → (In t l → ⊥) → NotIn t l
NotIn-of_absent t [] h = tt
NotIn-of_absent t (x ∷ l) h = (λ e. h (inl e), NotIn-of_absent t l (λ i. h (inr i)))

pub In-cases : (t : ℕ) (l : List ℕ) → In t l ⊎ NotIn t l
In-cases t [] = inr tt
In-cases t (x ∷ l) = elim (ℕ_discrete t x) [
  | yes e ↦ inl (inl e)
  | no ne ↦ elim (In-cases t l) [ inl h ↦ inl (inr h) | inr h ↦ inr (ne, h) ]
]

pub In-snoc : (t x : ℕ) (l : List ℕ) → In t (l ++ (x ∷ [])) → In t l ⊎ (t ≡ x)
In-snoc t x [] (inl e) = inr e
In-snoc t x [] (inr h) = absurd h
In-snoc t x (y ∷ l) (inl e) = inl (inl e)
In-snoc t x (y ∷ l) (inr h) = elim (In-snoc t x l h) [ inl i ↦ inl (inr i) | inr e ↦ inr e ]

pub In-append_left : (t : ℕ) (l r : List ℕ) → In t l → In t (l ++ r)
In-append_left t [] r h = absurd h
In-append_left t (x ∷ l) r (inl e) = inl e
In-append_left t (x ∷ l) r (inr h) = inr (In-append_left t l r h)

pub In-snoc_self : (t : ℕ) (l : List ℕ) → In t (l ++ (t ∷ []))
In-snoc_self t [] = inl refl
In-snoc_self t (x ∷ l) = inr (In-snoc_self t l)

pub NotIn-snoc : (t x : ℕ) (l : List ℕ) → NotIn t l → t ≢ x → NotIn t (l ++ (x ∷ []))
NotIn-snoc t x [] h ne = (ne, tt)
NotIn-snoc t x (y ∷ l) h ne = (h.0, NotIn-snoc t x l h.1 ne)

pub NotIn-of_snoc : (t x : ℕ) (l : List ℕ) → NotIn t (l ++ (x ∷ [])) → NotIn t l × (t ≢ x)
NotIn-of_snoc t x [] h = (tt, h.0)
NotIn-of_snoc t x (y ∷ l) h = let (n, ne) = NotIn-of_snoc t x l h.1 in ((h.0, n), ne)

pub Distinct-snoc : (x : ℕ) (l : List ℕ) → Distinct l → NotIn x l → Distinct (l ++ (x ∷ []))
Distinct-snoc x [] d h = (tt, tt)
Distinct-snoc x (y ∷ l) d h = (NotIn-snoc y x l d.0 (λ e. h.0 (sym e)), Distinct-snoc x l d.1 h.1)

-- The list without its first `t`.
abbrev pub remove : ℕ → List ℕ → List ℕ
remove t [] = []
remove t (x ∷ l) = if t == x then l else x ∷ remove t l

pub length-remove : (t : ℕ) (l : List ℕ) → In t l → length (remove t l) + 1 ≡ length l
length-remove t [] h = absurd h
length-remove t (x ∷ l) h = elim (Bool-cases (t == x)) [
  | inl e ↦ rw e (omega arith)
  | inr ne ↦ elim h [
    | inl e ↦ absurd (ground arith)
    | inr i ↦ rw ne (omega (arith, length-remove t l i))
  ]
]

pub In-remove : (x t : ℕ) (l : List ℕ) → In x (remove t l) → In x l
In-remove x t [] h = h
In-remove x t (y ∷ l) h = elim (Bool-cases (t == y)) [
  | inl e ↦ inr (rw e at h)
  | inr ne ↦ elim (rw ne at h) [ inl e ↦ inl e | inr i ↦ inr (In-remove x t l i) ]
]

pub In-remove_ne : (x t : ℕ) (l : List ℕ) → In x l → x ≢ t → In x (remove t l)
In-remove_ne x t [] h ne = h
In-remove_ne x t (y ∷ l) h ne = elim (Bool-cases (t == y)) [
  | inl e ↦ elim h [ inl e' ↦ absurd (ground arith) | inr i ↦ rw e i ]
  | inr ne' ↦ elim h [ inl e' ↦ rw ne' (inl e') | inr i ↦ rw ne' (inr (In-remove_ne x t l i ne)) ]
]

NotIn-remove : (x t : ℕ) (l : List ℕ) → NotIn x l → NotIn x (remove t l)
NotIn-remove x t l h = NotIn-of_absent x (remove t l) (λ i. NotIn-In x l h (In-remove x t l i))

pub Distinct-remove : (t : ℕ) (l : List ℕ) → Distinct l → Distinct (remove t l)
Distinct-remove t [] d = tt
Distinct-remove t (x ∷ l) d = elim (Bool-cases (t == x)) [
  | inl e ↦ rw e d.1
  | inr ne ↦ rw ne (NotIn-remove x t l d.0, Distinct-remove t l d.1)
]

pub NotIn-remove_self : (t : ℕ) (l : List ℕ) → Distinct l → NotIn t (remove t l)
NotIn-remove_self t [] d = tt
NotIn-remove_self t (x ∷ l) d = elim (Bool-cases (t == x)) [
  | inl e ↦ let same : t ≡ x = ground arith in rw (e, same) d.0
  | inr ne ↦ rw ne ((λ e. absurd (ground arith)), NotIn-remove_self t l d.1)
]
