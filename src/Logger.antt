-- ===== src/Logger.antt =====
-- src/lib/logger.cpp, line_formatter.cpp, console_log_callback.cpp: messages cut into lines for a
-- callback, the buffer of a log stream, and the callback that writes to the console.
pub mod Lines
pub mod Shape
pub mod Stream
use fcgiserver.Prelude.{
  ℕ, zero, suc, Bool, true, false, ◌||◌, List, [], ◌∷◌, ◌++◌, Option, none, some, Bytes, codes,
  take, length, concat, ltb, leb, if◌then◌else◌, ◌>>=◌,
}
use fcgiserver.Strings.{find, before, after, is_empty}
use fcgiserver.Formatter.{GenericFormat, utf8, format_text}
use fcgiserver.Formatter.Printf.{vprintf}

pub data LogLevel : Type 0 where
  debug info error : LogLevel

-- `message[end-1] <= 32`, where `char` is signed, as it is on the platforms that the library is
-- built for: a byte from 128 on is negative.
abbrev pub is_trimmed : ℕ → Bool
is_trimmed c = leb c 32 || leb 128 c

abbrev byte_at : Bytes → ℕ → ℕ
byte_at [] i = 0
byte_at (c ∷ s) zero = c
byte_at (c ∷ s) (suc i) = byte_at s i

-- `while (end > start && message[end-1] <= 32) --end;`, with indices from `start`
pub trim_end : Bytes → ℕ → ℕ
trim_end line zero = 0
trim_end line (suc end) =
    let trimmed = trim_end line end in if is_trimmed (byte_at line end) then trimmed else suc end

-- A callback object of type C takes a message by `log_message`.
module _ {C : Type 0} (log_message : LogLevel → Bytes → C → C) where
  -- The loop of `Logger::log` on what stands from `start` on. A round leaves at least one byte
  -- behind, so the length of the message is fuel enough.
  pub log_loop : ℕ → LogLevel → Bytes → C → C
  log_loop zero level rest callback = callback
  log_loop (suc fuel) level [] callback = callback
  log_loop (suc fuel) level (c ∷ s) callback =
      let newline = find b'\n' (c ∷ s) in
      let line = before newline (c ∷ s) in
      let end = trim_end line (length line) in
      log_loop fuel level (after newline (c ∷ s))
        (if ltb 0 end then log_message level (take end line) callback else callback)

  -- `Logger::log`; a logger is its callback, if it has one.
  unfoldable pub log : LogLevel → Bytes → Option C → Option C
  unfolding log_loop trim_end find
  log level message none = none
  log level message (some callback) = some (log_loop (length message) level message callback)

-- `class LineFormatter`
pub record LineFormatter : Type 0 where
  pub format : GenericFormat
  pub buffer : Bytes

abbrev pub line_formatter : Bytes → GenericFormat → LineFormatter
line_formatter buffer format = record { format = format; buffer = buffer }

abbrev pub clear : LineFormatter → LineFormatter
clear f = record f { buffer = [] }

abbrev pub real_append : LineFormatter → Bytes → LineFormatter
real_append f s = record f { buffer = f.buffer ++ s }

abbrev real_append_all : LineFormatter → List Bytes → LineFormatter
real_append_all f [] = f
real_append_all f (s ∷ strings) = real_append_all (real_append f s) strings

-- `operator<<` of a text on a line formatter.
unfoldable pub append : LineFormatter → Bytes → Option LineFormatter
append f s = do strings ← format_text f.format s; some (real_append_all f strings)

abbrev pub append_all : LineFormatter → List Bytes → Option LineFormatter
append_all f [] = some f
append_all f (s ∷ texts) = append f s >>= λ f'. append_all f' texts

-- A `LogStream` is a line formatter in the format UTF8, which its destructor logs.
unfoldable pub log_stream :
    {C : Type 0} → (LogLevel → Bytes → C → C) → LogLevel → List Bytes → Option C → Option (Option C)
log_stream log_message level texts logger = do
  f ← append_all (line_formatter [] utf8) texts
  some (log log_message level f.buffer logger)

-- `Logger::set_log_callback`; a null pointer is `none`.
unfoldable pub set_log_callback : {C : Type 0} → Option C → Option C → Option C
set_log_callback callback logger = callback

-- `Logger::log_callback`
abbrev pub log_callback : {C : Type 0} → Option C → Option C
log_callback logger = logger

-- `Logger::logf`: the text that the format makes is printed to a log stream.
unfoldable pub logf :
    {C : Type 0}
    → (LogLevel → Bytes → C → C)
    → LogLevel
    → Bytes
    → Option Bytes
    → Option C
    → Option (Option C)
logf log_message level fmt text logger = do
  strings ← vprintf utf8 fmt text
  some (log log_message level (real_append_all (line_formatter [] utf8) strings).buffer logger)

-- What was written to the two streams of the console.
pub record Console : Type 0 where
  pub stdout : Bytes
  pub stderr : Bytes

-- `ConsoleLogCallback::log_message`
unfoldable pub console_log_message : LogLevel → Bytes → Console → Console
console_log_message debug message c = record c {
  stdout = c.stdout ++ (codes "[DEBUG] " ++ (message ++ codes "\n"));
}
console_log_message info message c = record c {
  stdout = c.stdout ++ (codes "[INFO] " ++ (message ++ codes "\n"));
}
console_log_message error message c = record c {
  stderr = c.stderr ++ (codes "[ERROR] " ++ (message ++ codes "\n"));
}
