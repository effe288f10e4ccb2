-- ===== src/Logger/Shape.antt =====
-- What the lines that are logged look like, and what is lost at the end of a message.
use mathlib.Core.List.{map}
use mathlib.Core.Path.{subst}
use fcgiserver.Prelude.{
  ℕ, ◌≤◌, ◌<◌, ◌≡◌, ◌≢◌, ap, refl, true, List, [], ◌∷◌, ◌++◌, Option, some, Bytes, arith, All,
  Lacks, All-map, All-append,
}
use fcgiserver.Strings.Split.{split, split-Lacks, filled, split_one, IsFilled}
use fcgiserver.Logger.{LogLevel, is_trimmed, log}
use fcgiserver.Logger.Lines.{keep_byte, trim_right, log_lines, log_each, log-log_each}

-- A line that is logged: not empty, of one line, and the byte at its end is printable ASCII.
abbrev pub IsEnd : Bytes → Type 0
IsEnd [] = ⊥
IsEnd (c ∷ []) = (32 < c) × (c < 128)
IsEnd (c ∷ d ∷ s) = IsEnd (d ∷ s)

keep_byte-IsEnd :
    (c : ℕ) (r : Bytes) → (IsFilled r → IsEnd r) → IsFilled (keep_byte c r) → IsEnd (keep_byte c r)
keep_byte-IsEnd c [] ih h = ground arith
keep_byte-IsEnd c (d ∷ r) ih h = ih tt

trim_right-IsEnd : (s : Bytes) → IsFilled (trim_right s) → IsEnd (trim_right s)
unfolding trim_right
trim_right-IsEnd [] h = absurd h
trim_right-IsEnd (c ∷ s) h = keep_byte-IsEnd c (trim_right s) (trim_right-IsEnd s) h

keep_byte-Lacks : (b c : ℕ) (r : Bytes) → c ≢ b → Lacks b r → Lacks b (keep_byte c r)
keep_byte-Lacks b c [] n h = ground arith
keep_byte-Lacks b c (d ∷ r) n h = (n, h)

trim_right-Lacks : (b : ℕ) (s : Bytes) → Lacks b s → Lacks b (trim_right s)
unfolding trim_right
trim_right-Lacks b [] h = tt
trim_right-Lacks b (c ∷ s) (n, h) = keep_byte-Lacks b c (trim_right s) n (trim_right-Lacks b s h)

abbrev pub IsLine : Bytes → Type 0
IsLine line = IsEnd line × Lacks b'\n' line

filled-IsLine :
    (ps : List Bytes)
    → All (λ p. IsFilled p → IsEnd p) ps
    → All (Lacks b'\n') ps
    → All IsLine (filled ps)
filled-IsLine [] _ _ = tt
filled-IsLine ([] ∷ ps) (_, e) (_, l) = filled-IsLine ps e l
filled-IsLine ((c ∷ p) ∷ ps) (e, es) (l, ls) = ((e tt, l), filled-IsLine ps es ls)

map-trim_right :
    (ps : List Bytes)
    → All (Lacks b'\n') ps
    → All (λ p. IsFilled p → IsEnd p) (map trim_right ps) × All (Lacks b'\n') (map trim_right ps)
map-trim_right [] _ = (tt, tt)
map-trim_right (p ∷ ps) (l, ls) =
    let (ends, lacks) = map-trim_right ps ls in
    ((trim_right-IsEnd p, ends), (trim_right-Lacks b'\n' p l, lacks))

log_lines-IsLine : (message : Bytes) → All IsLine (log_lines message)
log_lines-IsLine message =
    let (ends, lacks) = map-trim_right (split b'\n' message) (split-Lacks b'\n' message) in
    filled-IsLine _ ends lacks

module _ {C : Type 0} (log_message : LogLevel → Bytes → C → C) (P : C → Type 0) where
  log_each-keeps :
      (level : LogLevel)
      → ((line : Bytes) (c : C) → IsLine line → P c → P (log_message level line c))
      → (lines : List Bytes) (callback : C) → All IsLine lines
      → P callback
      → P (log_each log_message level lines callback)
  log_each-keeps level step [] callback _ p = p
  log_each-keeps level step (line ∷ lines) callback (h, hs) p =
      log_each-keeps level step lines (log_message level line callback) hs (step line callback h p)

  -- What the callback keeps, given lines that are not empty, hold no newline and end with a
  -- printable ASCII character, it keeps under every call of `log`.
  pub log-keeps :
      (level : LogLevel) (message : Bytes) (callback : C) {callback' : C}
      → ((line : Bytes) (c : C) → IsLine line → P c → P (log_message level line c))
      → log log_message level message (some callback) ≡ some callback'
      → P callback
      → P callback'
  log-keeps level message callback step e p =
      let same = log-log_each log_message level message (some callback) in
      subst P (cc (same, e))
        (log_each-keeps level step (log_lines message) callback (log_lines-IsLine message) p)

trim_right-append :
    (s tail : Bytes) → All (λ c. is_trimmed c ≡ true) tail → trim_right (s ++ tail) ≡ trim_right s
unfolding trim_right
trim_right-append [] [] _ = refl
trim_right-append [] (c ∷ tail) (h, hs) = rw (trim_right-append [] tail hs, h)
trim_right-append (c ∷ s) tail h = ap (keep_byte c) (trim_right-append s tail h)

-- A message of one line loses all bytes from 128 on at its end, so each character at the end that
-- is not ASCII.
pub log_drops_tail :
    {C : Type 0} (log_message : LogLevel → Bytes → C → C) (level : LogLevel) (s tail : Bytes)
    (logger : Option C)
    → Lacks b'\n' s
    → All (λ c. 128 ≤ c) tail
    → log log_message level (s ++ tail) logger ≡ log log_message level s logger
log_drops_tail log_message level s tail logger l h =
    let clean = All-map {Q = λ c. c ≢ b'\n'} (λ c (high : 128 ≤ c). omega arith) tail h in
    let trimmed =
      All-map {Q = λ c. is_trimmed c ≡ true} (λ c (high : 128 ≤ c). ground arith) tail h in
    rw (log-log_each log_message level (s ++ tail) logger, log-log_each log_message level s logger)
      (rw (
        split_one b'\n' (s ++ tail) (All-append _ s tail l clean),
        split_one b'\n' s l,
        trim_right-append s tail trimmed,
      ))
