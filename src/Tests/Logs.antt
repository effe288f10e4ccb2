-- ===== src/Tests/Logs.antt =====
-- A callback that keeps the lines it is given.
use fcgiserver.Prelude.{◌≡◌, refl, List, [], ◌∷◌, some, Bytes, codes}
use fcgiserver.Logger.{LogLevel, info, log}
use fcgiserver.Logger.Lines.{log-log_each, log_each, log_lines}
use mathlib.Core.Option

abbrev keep_line : LogLevel → Bytes → List Bytes → List Bytes
keep_line level line lines = line ∷ lines

abbrev two_lines : Bytes
two_lines = codes "one\n\ntwo "

log-log_each_example :
    log keep_line info two_lines (some [])
    ≡ Option.map (log_each keep_line info (log_lines two_lines)) (some [])
log-log_each_example = log-log_each keep_line info two_lines (some [])

two_lines_logged : log keep_line info two_lines (some []) ≡ some (codes "two" ∷ codes "one" ∷ [])
unfolding log
two_lines_logged = refl
