-- ===== src/Utils/Hex.antt =====
-- `unhex` against the digits of a byte (src/lib/utils.cpp).
use fcgiserver.Prelude.{
  ℕ, ◌+◌, ◌-◌, ◌*◌, ◌/◌, ◌%◌, ◌<◌, ◌≡◌, ◌↔◌, Bool, some, arith, ltb, if◌then◌else◌, Option-cases,
  inl, inr,
}
use fcgiserver.Utils.{hex_value, unhex}

-- The digit of a value below 16, in upper or in lower case.
abbrev pub hex_digit : Bool → ℕ → ℕ
hex_digit upper v =
    if ltb v 10 then b'0' + v else if upper then b'A' + (v - 10) else b'a' + (v - 10)

pub hex_value-hex_digit : (upper : Bool) (v : ℕ) → v < 16 → hex_value (hex_digit upper v) ≡ some v
unfolding hex_value
hex_value-hex_digit upper v h = ground arith

pub hex_value-lt : (c : ℕ) {v : ℕ} → hex_value c ≡ some v → v < 16
unfolding hex_value
hex_value-lt c h = ground arith

-- The two digits of any byte, each in either case, are read as that byte.
pub unhex-hex_digit :
    (upper upper' : Bool) (v : ℕ)
    → v < 256
    → unhex (hex_digit upper (v / 16)) (hex_digit upper' (v % 16)) ≡ some v
unfolding unhex
unhex-hex_digit upper upper' v h =
    ground (arith, hex_value-hex_digit upper (v / 16), hex_value-hex_digit upper' (v % 16))

unhex-digits :
    (c d v : ℕ)
    → unhex c d ≡ some v
    → (high low : ℕ) × (hex_value c ≡ some high) × (hex_value d ≡ some low) × (v ≡ high * 16 + low)
unhex-digits c d v e = elim (Option-cases (hex_value c)) [
  | inl bad ↦ absurd (unfold unhex in ground arith)
  | inr (high, hc) ↦ elim (Option-cases (hex_value d)) [
    | inl bad ↦ absurd (unfold unhex in ground arith)
    | inr (low, hd) ↦
        (high, low, hc, hd, unfold unhex in ground (arith, hex_value-lt c hc, hex_value-lt d hd))
  ]
]

digits-unhex :
    (c d v high low : ℕ)
    → hex_value c ≡ some high
    → hex_value d ≡ some low
    → v ≡ high * 16 + low
    → unhex c d ≡ some v
unfolding unhex
digits-unhex c d v high low hc hd e = ground (arith, hex_value-lt c hc, hex_value-lt d hd)

-- `unhex` succeeds exactly on two hexadecimal digits, and its value is then theirs in base 16.
pub unhex_iff :
    (c d v : ℕ)
    → (unhex c d ≡ some v) ↔ (
        (high low : ℕ) × (hex_value c ≡ some high)
        × (hex_value d ≡ some low)
        × (v ≡ high * 16 + low))
unhex_iff c d v = (unhex-digits c d v, λ h. digits-unhex c d v h.0 h.1 h.2 h.3 h.4)
