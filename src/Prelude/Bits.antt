-- ===== src/Prelude/Bits.antt =====
-- Facts about masks and disjoint unions of bits that the UTF-8 code uses.
use Prim.Native.Nat.{
  ℕ, zero, suc, ◌+◌, ◌*◌, ◌/◌, ◌%◌, ◌≤◌, ◌<◌, min, max, bit_and, bit_or, digits, bit_and-bitwise,
  bit_or-bitwise,
}
use mathlib.Core.Path.{◌≡◌, refl, ap}
use mathlib.Core.Bool.{Bool, true, ◌&&◌}
use mathlib.Core.Logic.{inl, inr}
use native.Mathlib.Omega.{arith}
use fcgiserver.Prelude.Tests.{◌==◌, Bool-cases}

-- A test that holds for all numbers up to a bound, run at each of them.
holds_upto : (ℕ → Bool) → ℕ → Bool
holds_upto test zero = test zero
holds_upto test (suc last) = holds_upto test last && test (suc last)

holds_upto-at :
    (test : ℕ → Bool) (last c : ℕ) → c ≤ last → holds_upto test last ≡ true → test c ≡ true
unfolding holds_upto
holds_upto-at test zero zero fits held = held
holds_upto-at test zero (suc c) fits held = absurd (omega arith)
holds_upto-at test (suc last) c fits held = elim (Bool-cases (c == suc last)) [
  | inl same ↦ let e : c ≡ suc last = ground arith in rw e (ground arith)
  | inr other ↦
      let below : c ≤ last = ground arith in holds_upto-at test last c below (ground arith)
]

abbrev masks : ℕ → Bool
masks c =
    bit_and c 0x80 == c / 128 * 128
    && bit_and c 0xc0 == c / 64 * 64
    && bit_and c 0xe0 == c / 32 * 32
    && bit_and c 0xf0 == c / 16 * 16
    && bit_and c 0xf8 == c / 8 * 8
    && bit_and c 0x1f == c % 32
    && bit_and c 0x0f == c % 16
    && bit_and c 0x07 == c % 8

masks_hold : holds_upto masks 255 ≡ true
unfolding holds_upto
masks_hold = refl

-- A mask of the high bits of a byte, and one of the low bits.
pub record ByteMasks (c : ℕ) : Type 0 where
  pub high_1 : bit_and c 0x80 ≡ c / 128 * 128
  pub high_2 : bit_and c 0xc0 ≡ c / 64 * 64
  pub high_3 : bit_and c 0xe0 ≡ c / 32 * 32
  pub high_4 : bit_and c 0xf0 ≡ c / 16 * 16
  pub high_5 : bit_and c 0xf8 ≡ c / 8 * 8
  pub low_5 : bit_and c 0x1f ≡ c % 32
  pub low_4 : bit_and c 0x0f ≡ c % 16
  pub low_3 : bit_and c 0x07 ≡ c % 8

pub byte_masks : (c : ℕ) → c < 256 → ByteMasks c
byte_masks c h = let t = holds_upto-at masks 255 c (omega arith) masks_hold in ground arith

-- The recursion on binary digits that the native operations stand for: fuel beyond the first number
-- is not used.
module _ (rest : ℕ → ℕ) (join : ℕ → ℕ → ℕ) where
  digits_spare :
      (spare least x y : ℕ)
      → least ≤ spare
      → x ≤ least
      → digits rest join spare x y ≡ digits rest join least x y
  digits_spare zero zero zero y _ _ = refl
  digits_spare (suc spare) zero zero y _ _ = refl
  digits_spare (suc spare) (suc least) zero y _ _ = refl
  digits_spare (suc spare) (suc least) (suc x) y h h' =
      let half = suc x / 2 in rw (digits_spare spare least half (y / 2) (omega arith) (omega arith))
  digits_spare spare least x y h h' = absurd (omega arith)

  digits_halved :
      (x y : ℕ)
      → digits rest join x (suc x / 2) (y / 2) ≡ digits rest join (suc x / 2) (suc x / 2) (y / 2)
  digits_halved x y = digits_spare x (suc x / 2) (suc x / 2) (y / 2) (omega arith) (omega arith)

bit_and-halves : (x y : ℕ) → bit_and x y ≡ bit_and (x / 2) (y / 2) * 2 + min (x % 2) (y % 2)
bit_and-halves zero y = omega (arith, bit_and-bitwise 0 y, bit_and-bitwise 0 (y / 2))
bit_and-halves (suc x) y =
    let whole = bit_and-bitwise (suc x) y in
    let halved = bit_and-bitwise (suc x / 2) (y / 2) in
    omega (arith, whole, halved, digits_halved (λ _. zero) min x y)

bit_or-halves : (x y : ℕ) → bit_or x y ≡ bit_or (x / 2) (y / 2) * 2 + max (x % 2) (y % 2)
bit_or-halves zero y = omega (arith, bit_or-bitwise 0 y, bit_or-bitwise 0 (y / 2))
bit_or-halves (suc x) y =
    let whole = bit_or-bitwise (suc x) y in
    let halved = bit_or-bitwise (suc x / 2) (y / 2) in
    omega (arith, whole, halved, digits_halved (λ z. z) max x y)

bit_and-none : (bound x : ℕ) → x ≤ bound → bit_and x 0 ≡ 0
bit_and-none bound zero _ = bit_and-bitwise 0 0
bit_and-none zero (suc x) fits = absurd (omega arith)
bit_and-none (suc bound) (suc x) fits =
    let half = bit_and-none bound (suc x / 2) (omega arith) in
    omega (arith, half, bit_and-halves (suc x) 0)

bit_or-none : (bound x : ℕ) → x ≤ bound → bit_or x 0 ≡ x
bit_or-none bound zero _ = bit_or-bitwise 0 0
bit_or-none zero (suc x) fits = absurd (omega arith)
bit_or-none (suc bound) (suc x) fits =
    let half = bit_or-none bound (suc x / 2) (omega arith) in
    omega (arith, half, bit_or-halves (suc x) 0)

bit_and-seven : (a : ℕ) → bit_and a 7 ≡ a % 8
bit_and-seven a = omega (
  arith,
  bit_and-halves a 7,
  bit_and-halves (a / 2) 3,
  bit_and-halves (a / 2 / 2) 1,
  bit_and-none (a / 2 / 2 / 2) (a / 2 / 2 / 2) (omega arith),
)

-- x & 0x3f
pub bit_and-low_6 : (a : ℕ) → bit_and a 0x3f ≡ a % 64
bit_and-low_6 a = omega (
  arith,
  bit_and-halves a 0x3f,
  bit_and-halves (a / 2) 0x1f,
  bit_and-halves (a / 2 / 2) 0x0f,
  bit_and-seven (a / 2 / 2 / 2),
)

bit_or-shift_3 : (a b : ℕ) → b < 8 → bit_or (a * 8) b ≡ a * 8 + b
bit_or-shift_3 a b h =
    let used_up : b / 2 / 2 / 2 ≡ 0 = omega arith in
    omega (
      arith,
      bit_or-halves (a * 8) b,
      bit_or-halves (a * 8 / 2) (b / 2),
      bit_or-halves (a * 8 / 2 / 2) (b / 2 / 2),
      ap (λ (t : ℕ). bit_or (a * 8 / 2 / 2 / 2) t) used_up,
      bit_or-none (a * 8 / 2 / 2 / 2) (a * 8 / 2 / 2 / 2) (omega arith),
    )

-- (a << 6) | b, where b has six bits
pub bit_or-shift_6 : (a b : ℕ) → b < 64 → bit_or (a * 64) b ≡ a * 64 + b
bit_or-shift_6 a b h =
    let halved : a * 64 / 2 / 2 / 2 ≡ a * 8 = omega arith in
    omega (
      arith,
      bit_or-halves (a * 64) b,
      bit_or-halves (a * 64 / 2) (b / 2),
      bit_or-halves (a * 64 / 2 / 2) (b / 2 / 2),
      ap (λ (t : ℕ). bit_or t (b / 2 / 2 / 2)) halved,
      bit_or-shift_3 a (b / 2 / 2 / 2) (omega arith),
    )
