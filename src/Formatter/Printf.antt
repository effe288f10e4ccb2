-- ===== src/Formatter/Printf.antt =====
-- `vprintf` (src/lib/generic_formatter.cpp). The call of `std::vsnprintf` is the text that it would
-- write in a buffer without end, or `none` where it fails.
use fcgiserver.Prelude.{
  ℕ, ◌+◌, ◌-◌, ◌≤◌, ◌≡◌, ◌≢◌, refl, List, [], ◌∷◌, ◌++◌, Option, none, some, Bytes, length, take,
  leb, ◌==◌, arith, if◌then◌else◌, ap, take-length-append, Lacks, All-right, ◌↔◌, Bool-cases, inl,
  inr, false, take_all, length-take-le, length-append,
}
use fcgiserver.Formatter.{GenericFormat, verbatim, format_text}

-- A buffer of this size after `std::vsnprintf`: the text, cut where a NUL would not fit behind it.
abbrev pub vsnprintf : ℕ → Bytes → Bytes
vsnprintf size text = take (size - 1) text ++ 0 ∷ []

unfoldable pub vprintf : GenericFormat → Bytes → Option Bytes → Option (List Bytes)
vprintf format fmt none = format_text format fmt
vprintf format fmt (some text) =
    let retval = length text in
    if retval == 0
    then some []
    else if leb retval 128
    then format_text format (take retval (vsnprintf 128 text))
    else format_text format (take retval (vsnprintf (retval + 1) text))

vsnprintf_fits :
    (n : ℕ) (text : Bytes) → length text ≤ n → take (length text) (vsnprintf (n + 1) text) ≡ text
vsnprintf_fits n text h =
    let pred : n + 1 - 1 ≡ n = omega arith in
    rw (pred, take_all n text h) (take-length-append text (0 ∷ []))

-- A text that is not empty, and not as long as the buffer, is printed as `operator<<` prints it.
pub vprintf-format_text :
    (format : GenericFormat) (fmt text : Bytes)
    → length text ≢ 0
    → length text ≢ 128
    → vprintf format fmt (some text) ≡ format_text format text
unfolding vprintf
vprintf-format_text format fmt text n m =
    let some_text : (length text == 0) ≡ false = ground arith in
    elim (Bool-cases (leb (length text) 128)) [
      | inl small ↦
          rw (some_text, small) (ap (format_text format) (vsnprintf_fits 127 text (ground arith)))
      | inr large ↦
          rw (some_text, large)
            (ap (format_text format) (vsnprintf_fits (length text) text (omega arith)))
    ]

-- A text of 128 bytes loses its last byte to the NUL of the buffer.
pub vprintf_128 :
    (format : GenericFormat) (fmt text : Bytes)
    → length text ≡ 128
    → vprintf format fmt (some text) ≡ format_text format (take 127 text ++ 0 ∷ [])
unfolding vprintf
vprintf_128 format fmt text h = rw h (
    ap (format_text format) (
      take_all 128 (take 127 text ++ 0 ∷ [])
        (omega (arith, length-append (take 127 text) (0 ∷ []), length-take-le 127 text))))

-- For a text with no NUL that is not empty, in the format `verbatim`: `vprintf` prints what
-- `operator<<` prints exactly if the text is not of 128 bytes.
pub vprintf-format_text_iff :
    (fmt text : Bytes)
    → length text ≢ 0
    → Lacks 0 text
    → (vprintf verbatim fmt (some text) ≡ format_text verbatim text) ↔ (length text ≢ 128)
vprintf-format_text_iff fmt text n clean = (
  λ same long. cut_differs (vprintf_128 verbatim fmt text long) same,
  vprintf-format_text verbatim fmt text n,
)
  where
    cut_differs :
        vprintf verbatim fmt (some text) ≡ format_text verbatim (take 127 text ++ 0 ∷ [])
        → vprintf verbatim fmt (some text) ≡ format_text verbatim text
        → ⊥
    cut_differs e same =
        let cut : take 127 text ++ 0 ∷ [] ≡ text = unfold format_text in cc (e, same) in
        let nul : Lacks 0 (take 127 text ++ 0 ∷ []) = rw cut clean in
        (All-right (λ (c : ℕ). c ≢ 0) (take 127 text) (0 ∷ []) nul).0 refl
