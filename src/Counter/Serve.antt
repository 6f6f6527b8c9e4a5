-- ===== src/Counter/Serve.antt =====
-- hw5/pcc_server.c: what a sequence of connections adds to `pcc_total`.
use mathlib.Core.Path.{subst, ap₂}
use oscourse24btau.Common.{
  ℕ, zero, suc, ◌+◌, ◌%◌, ◌^◌, ◌≤◌, ◌<◌, ◌≡◌, refl, sym, ◌∙◌, ap, Bool, true, false, ◌&&◌, List, [],
  ◌∷◌, ◌++◌, ◌==◌, length, arith,
}
use oscourse24btau.Counter.Wire.{htonl, Answer, bytes}
use oscourse24btau.Counter.Server.{
  Totals, Report, sent, gave_up, pending, count_printable_characters, Connection, Accept, accepted,
  not_accepted, interrupted, serve, no_counts, print_totals, handle_sigint,
}
use oscourse24btau.Counter.Count.{occurrences, occurrences-append, occurrences-bound}
use oscourse24btau.Counter.Laws.{Chops}
use oscourse24btau.Counter.Contract.{IsEnd, at_closed, at_failed, received, broken_off}

-- A connection that ends, and the text that it adds: all of it or nothing.
pub data Session : Connection → List ℕ → Type 0 where
  full :
      (memory text : List ℕ) (answers rest : List Answer)
      → length text < 2 ^ 32
      → Chops text answers
      → Session
          (record {
            memory = memory;
            answers = bytes (htonl (length text)) ∷ answers ++ rest;
            sends = true;
          })
          text
  broken :
      (memory text : List ℕ) (n : ℕ) (answers rest : List Answer) (a : Answer) (sends : Bool)
      → length text ≤ n
      → n < 2 ^ 32
      → Chops text answers
      → IsEnd a
      → sends && (length text == n) ≡ false
      → Session
          (record {
            memory = memory;
            answers = bytes (htonl n) ∷ answers ++ a ∷ rest;
            sends = sends;
          })
          []
  no_size :
      (memory : List ℕ) (rest : List Answer) (a : Answer) (sends : Bool)
      → IsEnd a
      → Session (record { memory = memory; answers = a ∷ rest; sends = sends }) []

-- A sequence of them, and the texts that count, one after the other.
pub data Sessions : List Accept → List ℕ → Type 0 where
  no_session : Sessions [] []
  session :
      {c : Connection} {text : List ℕ} {l : List Accept} {texts : List ℕ}
      → Session c text
      → Sessions l texts
      → Sessions (accepted c ∷ l) (text ++ texts)
  skipped :
      {l : List Accept} {texts : List ℕ} → Sessions l texts → Sessions (not_accepted ∷ l) texts
  stopped : {l : List Accept} → Sessions (interrupted ∷ l) []

-- The totals hold numbers of 32 bits.
abbrev pub IsTotals : Totals → Type 0
IsTotals t = (i : ℕ) → i < 95 → t i < 2 ^ 32

-- What a session does to the totals, and that it does not wait.
data Ends (totals : Totals) (text : List ℕ) : Report × Totals → Type 0 where
  with_count :
      (t' : Totals) (count : List ℕ)
      → ((i : ℕ) → i < 95 → t' i ≡ (totals i + occurrences (i + 32) text) % 2 ^ 32)
      → Ends totals text (sent count, t')
  without : text ≡ [] → Ends totals text (gave_up, totals)

Session-Ends :
    {c : Connection} {text : List ℕ} (totals : Totals)
    → Session c text
    → Ends totals text (count_printable_characters c.memory c.answers c.sends totals)
unfolding count_printable_characters
Session-Ends totals (full memory text answers rest small c) =
    let (t', e, grown) = received memory text answers rest totals small c in
    subst (Ends totals text) (sym e) (with_count t' _ grown)
Session-Ends totals (broken memory text n answers rest a sends le small c end early) =
    subst (Ends totals [])
      (sym (broken_off memory text n answers rest a sends totals le small c end early))
      (without refl)
Session-Ends totals (no_size memory rest a sends at_closed) = without refl
Session-Ends totals (no_size memory rest a sends at_failed) = without refl

serve-Ends :
    (c : Connection) (l : List Accept) (text : List ℕ) (totals : Totals)
    → Ends totals text (count_printable_characters c.memory c.answers c.sends totals)
    → IsTotals totals
    → (t' : Totals) × (serve (accepted c ∷ l) totals ≡ serve l t')
      × IsTotals t'
      × ((i : ℕ) → i < 95 → t' i ≡ (totals i + occurrences (i + 32) text) % 2 ^ 32)
unfolding serve occurrences
serve-Ends c l text totals h is = go h refl
  where
    turn : Report × Totals → Totals
    turn r = elim r.0 as (λ _. Totals) [
      | sent count ↦ serve l r.1
      | gave_up ↦ serve l r.1
      | pending ↦ r.1
    ]

    go :
        {r : Report × Totals}
        → Ends totals text r
        → r ≡ count_printable_characters c.memory c.answers c.sends totals
        → (t' : Totals) × (serve (accepted c ∷ l) totals ≡ serve l t')
          × IsTotals t'
          × ((i : ℕ) → i < 95 → t' i ≡ (totals i + occurrences (i + 32) text) % 2 ^ 32)
    go (with_count t' count grown) e =
        (t', ap turn (sym e), λ i lt. omega (arith, grown i lt), grown)
    go (without none) e = (totals, ap turn (sym e), is, λ i lt. rw none (omega (arith, is i lt)))

-- From totals below 2^32, after calls of `accept` that fail or give connections that each end,
-- completed or broken off anywhere, in any order, each entry of `pcc_total` has grown by the number
-- of its character in the texts of the completed ones, modulo 2^32.
pub serve_totals :
    (l : List Accept) (texts : List ℕ) (totals : Totals)
    → Sessions l texts
    → IsTotals totals
    → (i : ℕ) → i < 95
    → serve l totals i ≡ (totals i + occurrences (i + 32) texts) % 2 ^ 32
unfolding serve occurrences
serve_totals l texts totals no_session is i lt = omega (arith, is i lt)
serve_totals l texts totals (skipped {l = rest} more) is i lt =
    serve_totals rest texts totals more is i lt
serve_totals l texts totals stopped is i lt = omega (arith, is i lt)
serve_totals l texts totals (session {c} {text} {l = rest} {texts = others} s more) is i lt =
    let (t', e, is', grown) = serve-Ends c rest text totals (Session-Ends totals s) is in
    ap (λ t. t i) e
    ∙ serve_totals rest others t' more is' i lt
    ∙ omega (arith, grown i lt, occurrences-append (i + 32) text others)

-- How often each of `n` characters from `c` on occurs in a text.
unfoldable pub histogram : ℕ → ℕ → List ℕ → List (ℕ × ℕ)
unfolding occurrences
histogram zero c text = []
histogram (suc n) c text = (c, occurrences c text) ∷ histogram n (c + 1) text

pub print_totals-range :
    (n i : ℕ) (t : Totals) (text : List ℕ)
    → ((j : ℕ) → i ≤ j → j < i + n → t j ≡ occurrences (j + 32) text)
    → print_totals n i t ≡ histogram n (i + 32) text
unfolding print_totals histogram
print_totals-range zero i t text same = refl
print_totals-range (suc n) i t text same =
    ap₂ (λ x r. (i + 32, x) ∷ r) (same i (omega arith) (omega arith))
      (print_totals-range n (i + 1) t text
          (λ j le lt. same j (omega (arith, le)) (omega (arith, lt)))
        ∙ ap (λ c. histogram n c text) (omega arith))

pub print_totals-histogram :
    (n i : ℕ) (t : Totals) (text : List ℕ)
    → ((j : ℕ) → j < 95 → t j ≡ occurrences (j + 32) text)
    → i + n ≤ 95
    → print_totals n i t ≡ histogram n (i + 32) text
print_totals-histogram n i t text same le =
    print_totals-range n i t text (λ j _ lt. same j (omega (arith, lt, le)))

-- The totals after a sequence of connections, from empty ones and without a wrap.
pub serve-occurrences :
    (l : List Accept) (texts : List ℕ)
    → Sessions l texts
    → length texts < 2 ^ 32
    → (j : ℕ) → j < 95
    → serve l no_counts j ≡ occurrences (j + 32) texts
serve-occurrences l texts s small j lt =
    serve_totals l texts no_counts s (λ i lt'. omega arith) j lt
    ∙ omega (arith, occurrences-bound (j + 32) texts, small)

-- When a server that has started with empty totals is interrupted after calls of `accept` that fail or
-- give connections that each end, completed or broken off anywhere, in any order, and the texts of the
-- completed ones have less than 2^32 bytes together, it prints for each printable character, from 32 to
-- 126 in order, how often it occurs in these texts.
pub sigint-histogram :
    (l : List Accept) (texts : List ℕ)
    → Sessions l texts
    → length texts < 2 ^ 32
    → handle_sigint (serve l no_counts) ≡ histogram 95 32 texts
unfolding handle_sigint
sigint-histogram l texts s small =
    print_totals-histogram 95 0 (serve l no_counts) texts (serve-occurrences l texts s small)
      (omega arith)
