-- ===== src/Logger/Lines.antt =====
-- The lines of a message, described without indices.
use mathlib.Core.List.{map}
use mathlib.Core.Option
use fcgiserver.Prelude.{
  ℕ, zero, suc, ◌≤◌, ◌≡◌, ◌∙◌, sym, ap, refl, true, false, List, [], ◌∷◌, Option, none, some, Bytes,
  take, length, ltb, ltb_zero_suc, if◌then◌else◌, arith, Bool-cases, inl, inr,
}
use fcgiserver.Strings.{find, before, after, is_empty}
use fcgiserver.Strings.Split.{split, other_parts, split_first, filled, length-after}
use fcgiserver.Logger.{LogLevel, is_trimmed, trim_end, log_loop, log}

-- A byte before what is kept of the bytes behind it.
abbrev pub keep_byte : ℕ → Bytes → Bytes
keep_byte c [] = if is_trimmed c then [] else c ∷ []
keep_byte c (d ∷ s) = c ∷ d ∷ s

-- A line without the bytes at its end that are trimmed.
unfoldable pub trim_right : Bytes → Bytes
trim_right [] = []
trim_right (c ∷ s) = keep_byte c (trim_right s)

trim_end-cons :
    (c : ℕ) (s : Bytes) (n : ℕ)
    → trim_end (c ∷ s) (suc n)
      ≡ (if ltb 0 (trim_end s n) then suc (trim_end s n) else if is_trimmed c then 0 else 1)
unfolding trim_end
trim_end-cons c s zero = ground arith
trim_end-cons c s (suc n) = ground (arith, trim_end-cons c s n)

trim_end-le : (s : Bytes) (n : ℕ) → trim_end s n ≤ n
unfolding trim_end
trim_end-le s zero = omega arith
trim_end-le s (suc n) = ground (arith, trim_end-le s n)

rebuild :
    (c : ℕ) (s : Bytes) (e : ℕ)
    → e ≤ length s
    → take (if ltb 0 e then suc e else if is_trimmed c then 0 else 1) (c ∷ s)
      ≡ keep_byte c (take e s)
rebuild c s zero h = elim (Bool-cases (is_trimmed c)) [ inl blank ↦ rw blank | inr kept ↦ rw kept ]
rebuild c [] (suc e) h = absurd (omega arith)
rebuild c (d ∷ s) (suc e) h = rw (ltb_zero_suc e)

-- The index loop finds the same end.
take-trim_end : (s : Bytes) → take (trim_end s (length s)) s ≡ trim_right s
unfolding trim_right
take-trim_end [] = unfold trim_end in refl
take-trim_end (c ∷ s) =
    rw (trim_end-cons c s (length s), ← take-trim_end s)
      (rebuild c s (trim_end s (length s)) (trim_end-le s (length s)))

is_empty-take :
    (s : Bytes) (e : ℕ) → e ≤ length s → ltb 0 e ≡ (if is_empty (take e s) then false else true)
is_empty-take s zero h = refl
is_empty-take [] (suc e) h = absurd (omega arith)
is_empty-take (c ∷ s) (suc e) h = ltb_zero_suc e

-- The lines that a message is logged as.
abbrev pub log_lines : Bytes → List Bytes
log_lines message = filled (map trim_right (split b'\n' message))

log_lines-after :
    (newline : Option ℕ) (s : Bytes)
    → filled (map trim_right (other_parts b'\n' newline s)) ≡ log_lines (after newline s)
unfolding split trim_right
log_lines-after none s = refl
log_lines-after (some i) s = refl

module _ {C : Type 0} (log_message : LogLevel → Bytes → C → C) where
  abbrev pub log_each : LogLevel → List Bytes → C → C
  log_each level [] callback = callback
  log_each level (line ∷ lines) callback = log_each level lines (log_message level line callback)

  log_one : LogLevel → Bytes → C → C
  log_one level line callback =
      let end = trim_end line (length line) in
      if ltb 0 end then log_message level (take end line) callback else callback

  log_each-filled :
      (level : LogLevel) (line : Bytes) (lines : List Bytes) (callback : C)
      → log_each level (filled (trim_right line ∷ lines)) callback
        ≡ log_each level (filled lines) (log_one level line callback)
  unfolding log_one
  log_each-filled level line lines callback =
      rw (is_empty-take line _ (trim_end-le line (length line)), take-trim_end line)
        (by_first (trim_right line))
    where
      by_first :
          (first : Bytes)
          → log_each level (filled (first ∷ lines)) callback
            ≡ log_each level (filled lines) (
                if (if is_empty first then false else true)
                then log_message level first callback
                else callback)
      by_first [] = refl
      by_first (c ∷ first) = refl

  log_lines_nil :
      (level : LogLevel) (callback : C) → log_each level (log_lines []) callback ≡ callback
  unfolding split trim_right
  log_lines_nil level callback = refl

  log_loop-log_each :
      (fuel : ℕ) (level : LogLevel) (rest : Bytes) (callback : C)
      → length rest ≤ fuel
      → log_loop log_message fuel level rest callback ≡ log_each level (log_lines rest) callback
  unfolding log_loop log_one
  log_loop-log_each zero level [] callback h = sym (log_lines_nil level callback)
  log_loop-log_each zero level (c ∷ s) callback h = absurd (omega arith)
  log_loop-log_each (suc fuel) level [] callback h = sym (log_lines_nil level callback)
  log_loop-log_each (suc fuel) level (c ∷ s) callback h =
      let newline = find b'\n' (c ∷ s) in
      let line = before newline (c ∷ s) in
      let rest = after newline (c ∷ s) in
      log_loop-log_each fuel level rest (log_one level line callback)
        (omega (arith, length-after b'\n' c s))
      ∙ sym (
          rw (split_first b'\n' (c ∷ s)) (
            log_each-filled level line (map trim_right (other_parts b'\n' newline (c ∷ s))) callback
            ∙ ap (λ lines. log_each level lines (log_one level line callback))
                (log_lines-after newline (c ∷ s))))

  -- `Logger::log` hands the callback the lines of the message, in order: the parts between newlines,
  -- each cut at its end, that are not empty then. Without a callback it does nothing.
  pub log-log_each :
      (level : LogLevel) (message : Bytes) (logger : Option C)
      → log log_message level message logger
        ≡ Option.map (log_each level (log_lines message)) logger
  unfolding log
  log-log_each level message none = refl
  log-log_each level message (some callback) =
      ap some (log_loop-log_each (length message) level message callback (omega arith))
