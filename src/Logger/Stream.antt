-- ===== src/Logger/Stream.antt =====
-- Line formatters and log streams: what reaches the logger.
use mathlib.Core.List.{map}
use fcgiserver.Formatter.Printf.{vprintf-format_text}
use fcgiserver.Prelude.{
  ◌≢◌, length, ◌≡◌, ◌∙◌, List, [], ◌∷◌, ◌++◌, Option, some, Bytes, concat, All, IsByte,
  append_assoc, append-nil,
}
use fcgiserver.Request.Codec.{utf8_decode, utf8_encode}
use fcgiserver.Formatter.{utf8}
use fcgiserver.Formatter.Text.{format_text-Formats}
use fcgiserver.Formatter.Html.{format_text_recodes}
use fcgiserver.Logger.{
  LogLevel, LineFormatter, line_formatter, real_append_all, append, append_all, log, log_stream,
  logf,
}

real_append_all-concat :
    (f : LineFormatter) (strings : List Bytes)
    → real_append_all f strings ≡ line_formatter (f.buffer ++ concat strings) f.format
real_append_all-concat f [] = rw append-nil
real_append_all-concat f (s ∷ strings) =
    real_append_all-concat (record f { buffer = f.buffer ++ s }) strings ∙ rw append_assoc

-- A text as the format UTF8 writes it.
abbrev pub recoded : Bytes → Bytes
recoded s = utf8_encode (utf8_decode s)

pub append-recoded :
    (buffer s : Bytes)
    → All IsByte s
    → append (line_formatter buffer utf8) s ≡ some (line_formatter (buffer ++ recoded s) utf8)
unfolding append
append-recoded buffer s h =
    let f = format_text-Formats utf8 s (cc) h in
    rw (f.returns, real_append_all-concat (line_formatter buffer utf8) f.strings)
      (rw (format_text_recodes s h f.returns))

append_all-recoded :
    (buffer : Bytes) (texts : List Bytes)
    → All (All IsByte) texts
    → append_all (line_formatter buffer utf8) texts
      ≡ some (line_formatter (buffer ++ concat (map recoded texts)) utf8)
append_all-recoded buffer [] _ = rw append-nil
append_all-recoded buffer (s ∷ texts) (h, hs) =
    rw (append-recoded buffer s h)
      (append_all-recoded (buffer ++ recoded s) texts hs ∙ rw append_assoc)

-- A log stream logs the texts that went into it, in order, as one message. Each is decoded and
-- encoded again by itself.
pub log_stream-log :
    {C : Type 0} (log_message : LogLevel → Bytes → C → C) (level : LogLevel) (texts : List Bytes)
    (logger : Option C)
    → All (All IsByte) texts
    → log_stream log_message level texts logger
      ≡ some (log log_message level (concat (map recoded texts)) logger)
unfolding log_stream
log_stream-log log_message level texts logger h = rw (append_all-recoded [] texts h)

-- A formatted text of bytes that is neither empty nor as long as the buffer is logged as it would be
-- by a log stream.
pub logf-log_stream :
    {C : Type 0} (log_message : LogLevel → Bytes → C → C) (level : LogLevel) (fmt text : Bytes)
    (logger : Option C)
    → All IsByte text
    → length text ≢ 0
    → length text ≢ 128
    → logf log_message level fmt (some text) logger
      ≡ log_stream log_message level (text ∷ []) logger
unfolding logf log_stream append
logf-log_stream log_message level fmt text logger h n m =
    let f = format_text-Formats utf8 text (cc) h in
    rw (vprintf-format_text utf8 fmt text n m, f.returns)
