-- ===== src/Clients/Groups.antt =====
-- hw4/test2.c and hw4/test_queue.c: how many items threads put in and take out.
use oscourse24btau.Common.{ℕ, zero, suc, ◌+◌, ◌*◌, ◌≡◌, refl, ◌∙◌, ap, List, [], ◌∷◌, ◌++◌, arith}
use oscourse24btau.Clients.Programs.{Op, takes, polls, sum_of, puts_in, takes_out, Lends, AllLend}
use oscourse24btau.Clients.Suites.{calls, producer_thread, mixed_thread, rounds}

-- A thread that puts in `i` items and takes out `o` of them.
pub record Thread (l : List Op) (i o : ℕ) : Type 0 where
  pub lends : Lends l
  pub in_all : puts_in l ≡ i
  pub out_all : takes_out l ≡ o

-- Threads that put in `i` items together and take out `o`.
pub record Group (ps : List (List Op)) (i o : ℕ) : Type 0 where
  pub lends : AllLend ps
  pub in_all : sum_of puts_in ps ≡ i
  pub out_all : sum_of takes_out ps ≡ o

pub takes-Thread : (n : ℕ) → Thread (calls n takes) 0 n
unfolding calls
takes-Thread zero = record { lends = tt; in_all = refl; out_all = refl }
takes-Thread (suc n) =
    let th = takes-Thread n in
    record {
      lends = (omega (arith, th.in_all), th.lends);
      in_all = th.in_all;
      out_all = ap suc th.out_all;
    }

pub polls-Thread : (n : ℕ) → Thread (calls n polls) 0 n
unfolding calls
polls-Thread zero = record { lends = tt; in_all = refl; out_all = refl }
polls-Thread (suc n) =
    let th = polls-Thread n in
    record {
      lends = (omega (arith, th.in_all), th.lends);
      in_all = th.in_all;
      out_all = ap suc th.out_all;
    }

pub producer-Thread : (new : ℕ → ℕ) (i n : ℕ) → Thread (producer_thread new i n) n 0
unfolding producer_thread
producer-Thread new i zero = record { lends = tt; in_all = refl; out_all = refl }
producer-Thread new i (suc n) =
    let th = producer-Thread new (i + 1) n in
    record { lends = th.lends; in_all = ap suc th.in_all; out_all = th.out_all }

pub mixed-Thread : (new : ℕ → ℕ) (i n : ℕ) → Thread (mixed_thread new i n) n n
unfolding mixed_thread
mixed-Thread new i zero = record { lends = tt; in_all = refl; out_all = refl }
mixed-Thread new i (suc n) =
    let th = mixed-Thread new (i + 1) n in
    record {
      lends = (omega (arith, th.in_all, th.out_all), th.lends);
      in_all = ap suc th.in_all;
      out_all = ap suc th.out_all;
    }

pub cons-Group :
    {l : List Op} {ps : List (List Op)} {i o j u : ℕ}
    → Thread l i o
    → Group ps j u
    → Group (l ∷ ps) (i + j) (o + u)
cons-Group th g = record {
  lends = (th.lends, g.lends);
  in_all = omega (arith, th.in_all, g.in_all);
  out_all = omega (arith, th.out_all, g.out_all);
}

pub append-Group :
    (ps : List (List Op)) {qs : List (List Op)} {i o j u : ℕ}
    → Group ps i o
    → Group qs j u
    → Group (ps ++ qs) (i + j) (o + u)
append-Group [] g h = record {
  lends = h.lends;
  in_all = omega (arith, g.in_all, h.in_all);
  out_all = omega (arith, g.out_all, h.out_all);
}
append-Group (p ∷ ps) g h =
    let rest = append-Group ps (record { lends = g.lends.1; in_all = refl; out_all = refl }) h in
    record {
      lends = (g.lends.0, rest.lends);
      in_all = omega (arith, g.in_all, rest.in_all);
      out_all = omega (arith, g.out_all, rest.out_all);
    }

pub rounds-Group :
    (n : ℕ) (threads : ℕ → List (List Op)) (i o : ℕ)
    → ((t : ℕ) → Group (threads t) i o)
    → Group (rounds n threads) (n * i) (n * o)
unfolding rounds
rounds-Group zero threads i o g = record { lends = tt; in_all = grind arith; out_all = grind arith }
rounds-Group (suc n) threads i o g =
    let rest = append-Group (threads n) (g n) (rounds-Group n threads i o g) in
    record {
      lends = rest.lends;
      in_all = rest.in_all ∙ grind arith;
      out_all = rest.out_all ∙ grind arith;
    }

pub single-Group : {l : List Op} {i o : ℕ} → Thread l i o → Group (l ∷ []) i o
single-Group th = record {
  lends = (th.lends, tt);
  in_all = omega (arith, th.in_all);
  out_all = omega (arith, th.out_all);
}
