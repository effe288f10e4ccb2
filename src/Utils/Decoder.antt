-- ===== src/Utils/Decoder.antt =====
-- The states that the decoder can be in (src/lib/utils.cpp).
use fcgiserver.Prelude.{ℕ, ◌+◌, ◌*◌, ◌%◌, ◌≤◌, ◌<◌, ◌^◌, bit_and, bit_or, ◌≡◌, arith, IsByte}
use fcgiserver.Prelude.Bits.{byte_masks, bit_and-low_6, bit_or-shift_6}
use fcgiserver.Utils.{
  ConvertState, convert_state, continue_glyph, start_glyph, result_glyph, utf8_step, utf8_to_32,
}

-- At most three bytes are missing, and a glyph with r bytes missing has room for 6 r more bits.
pub record IsDecoding (s : ConvertState) : Type 0 where
  pub few : s.remaining ≤ 3
  pub three : s.remaining ≡ 3 → s.glyph < 8
  pub two : s.remaining ≡ 2 → s.glyph < 512
  pub one : s.remaining ≡ 1 → s.glyph < 0x8000
  pub whole : s.remaining ≡ 0 → s.glyph < 0x200000

-- `state.glyph <<= 6; state.glyph |= (next & 0x3f)` appends six bits, where the shift loses none.
pub push_six_bits :
    (glyph next : ℕ)
    → glyph < 0x4000000
    → bit_or (glyph * 2 ^ 6 % 2 ^ 32) (bit_and next 0x3f) ≡ glyph * 64 + next % 64
push_six_bits glyph next h =
    let kept : glyph * 2 ^ 6 % 2 ^ 32 ≡ glyph * 64 = omega arith in
    rw (kept, bit_and-low_6 next) (bit_or-shift_6 glyph (next % 64) (omega arith))

continue_glyph-IsDecoding :
    (next : ℕ) (s : ConvertState)
    → IsDecoding s
    → 0 < s.remaining
    → IsDecoding (continue_glyph next s)
unfolding continue_glyph
continue_glyph-IsDecoding next s v h = ground (arith, push_six_bits s.glyph next)

result_glyph-lt : (s : ConvertState) → IsDecoding s → result_glyph s < 0x200000
unfolding result_glyph
result_glyph-lt s v = ground arith

start_glyph-IsDecoding :
    (next : ℕ) (s : ConvertState)
    → IsByte next
    → IsDecoding s
    → s.remaining ≡ 0
    → IsDecoding (start_glyph next s)
unfolding start_glyph
start_glyph-IsDecoding next s b v z = ground (arith, byte_masks next b)

pub utf8_step-IsDecoding :
    (next : ℕ) (s : ConvertState) → IsByte next → IsDecoding s → IsDecoding (utf8_step next s)
unfolding utf8_step
utf8_step-IsDecoding next s b v =
    ground (arith, continue_glyph-IsDecoding next s, start_glyph-IsDecoding next s)

pub convert_state-IsDecoding : IsDecoding convert_state
convert_state-IsDecoding = omega arith

-- From a state that the decoder can be in, a byte leads to such a state, and the glyph that is
-- returned is below 2^21.
pub utf8_to_32-IsDecoding :
    (next : ℕ) (s : ConvertState)
    → IsByte next
    → IsDecoding s
    → IsDecoding (utf8_to_32 next s).1 × ((utf8_to_32 next s).0 < 0x200000)
unfolding utf8_to_32
utf8_to_32-IsDecoding next s b v =
    let w = utf8_step-IsDecoding next s b v in (w, result_glyph-lt _ w)
