-- ===== src/Digits/Bounds.antt =====
-- How many digits a number has.
use native.Mathlib.Nat.{mod-lt, div-lt_self, zero-div}
use fcgiserver.Prelude.{
  ◌≡◌, refl, ◌⊎◌, inl, inr, ltb, ltb→lt, Bool-cases, ℕ, zero, suc, ◌+◌, ◌/◌, ◌%◌, ◌^◌, ◌≤◌, ◌<◌, [],
  ◌∷◌, Bytes, arith, length, All,
}
use fcgiserver.Digits.{digit, print_onto, print}

-- n has at most k + 1 digits.
abbrev HasDigits : ℕ → ℕ → ℕ → Type 0
HasDigits base zero n = n < base
HasDigits base (suc k) n = HasDigits base k (n / base)

length-print_onto :
    (k base fuel n : ℕ) (out : Bytes)
    → HasDigits base k n
    → length (print_onto base fuel n out) ≤ suc k + length out
unfolding print_onto
length-print_onto k base zero n out h = omega arith
length-print_onto zero base (suc fuel) n out h = ground arith
length-print_onto (suc k) base (suc fuel) n out h =
    ground (arith, length-print_onto k base fuel (n / base) (digit (n % base) ∷ out) h)

module _ (n : ℕ) where
  pub length-print_hex_21 : n < 0x200000 → length (print 16 n) ≤ 6
  unfolding print
  length-print_hex_21 h = omega (arith, length-print_onto 5 16 n n [] (omega arith))

  pub length-print_hex_32 : n < 2 ^ 32 → length (print 16 n) ≤ 8
  unfolding print
  length-print_hex_32 h = omega (arith, length-print_onto 7 16 n n [] (omega arith))

  pub length-print_8 : n < 2 ^ 8 → length (print 10 n) ≤ 3
  unfolding print
  length-print_8 h = omega (arith, length-print_onto 2 10 n n [] (omega arith))

  pub length-print_16 : n < 2 ^ 16 → length (print 10 n) ≤ 5
  unfolding print
  length-print_16 h = omega (arith, length-print_onto 4 10 n n [] (omega arith))

  pub length-print_32 : n < 2 ^ 32 → length (print 10 n) ≤ 10
  unfolding print
  length-print_32 h = omega (arith, length-print_onto 9 10 n n [] (omega arith))

  pub length-print_63 : n ≤ 2 ^ 63 → length (print 10 n) ≤ 19
  unfolding print
  length-print_63 h = omega (arith, length-print_onto 18 10 n n [] (omega arith))

  pub length-print_64 : n < 2 ^ 64 → length (print 10 n) ≤ 20
  unfolding print
  length-print_64 h = omega (arith, length-print_onto 19 10 n n [] (omega arith))

pos-cases : (n : ℕ) → (n ≡ 0) ⊎ (0 < n)
pos-cases zero = inl refl
pos-cases (suc n) = inr (omega arith)

-- What holds of every digit of a base up to 16 holds of all bytes that are printed.
module _ (P : ℕ → Type 0) (each : (v : ℕ) → v < 16 → P (digit v)) (base : ℕ) (some_base : 1 < base)
    (hex : base ≤ 16) where
  All-print_onto :
      (fuel n : ℕ) (out : Bytes) → n ≤ fuel → All P out → All P (print_onto base fuel n out)
  unfolding print_onto
  All-print_onto zero n out f h = (each n (omega arith), h)
  All-print_onto (suc fuel) n out f h =
      let positive : 0 < base = omega arith in
      let rest : n % base < 16 = omega (arith, mod-lt n positive) in
      let less : n / base ≤ fuel = elim (pos-cases n) [
        | inl nothing ↦ rw (nothing, zero-div base) (omega arith)
        | inr some_n ↦ omega (arith, div-lt_self some_n some_base)
      ] in
      let more =
        All-print_onto fuel (n / base) (digit (n % base) ∷ out) less (each (n % base) rest, h) in
      elim (Bool-cases (ltb n base)) [
        | inl one ↦ rw one (each n (omega (arith, ltb→lt n base one)), h)
        | inr longer ↦ rw longer more
      ]

  pub All-print : (n : ℕ) → All P (print base n)
  unfolding print
  All-print n = All-print_onto n n [] (omega arith) tt
