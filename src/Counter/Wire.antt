-- ===== src/Counter/Wire.antt =====
-- hw5: numbers on the wire, `htonl` and `ntohl` of 32 bits, and what a connection delivers.
use oscourse24btau.Common.{
  ℕ, ◌+◌, ◌*◌, ◌/◌, ◌%◌, ◌^◌, ◌<◌, ◌≡◌, refl, List, [], ◌∷◌, ◌++◌, length, drop, arith,
}

-- The four bytes of `htonl(n)` in memory, and the number that `ntohl` makes of them.

unfoldable pub htonl : ℕ → List ℕ
htonl n = n / 2 ^ 24 ∷ (n / 2 ^ 16) % 256 ∷ (n / 2 ^ 8) % 256 ∷ n % 256 ∷ []

unfoldable pub ntohl : List ℕ → ℕ
ntohl [] = 0
ntohl (a ∷ []) = 0
ntohl (a ∷ b ∷ []) = 0
ntohl (a ∷ b ∷ c ∷ []) = 0
ntohl (a ∷ b ∷ c ∷ d ∷ l) = ((a * 256 + b) * 256 + c) * 256 + d

-- `recv` into the bytes `memory`.
abbrev pub overwrite : List ℕ → List ℕ → List ℕ
overwrite bytes memory = bytes ++ drop (length bytes) memory

-- What one call of `recv` answers: bytes, 0, or -1.
pub data Answer : Type 0 where
  bytes : List ℕ → Answer
  closed failed : Answer

pub length-htonl : (n : ℕ) → length (htonl n) ≡ 4
unfolding htonl
length-htonl n = refl

pub ntohl-htonl : (n : ℕ) (memory : List ℕ) → n < 2 ^ 32 → ntohl (overwrite (htonl n) memory) ≡ n
unfolding htonl ntohl
ntohl-htonl n memory small = omega arith
