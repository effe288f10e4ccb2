-- ===== src/LogCallback.antt =====
-- src/lib/i_log_callback.cpp: `ILogCallback::log_request`. The callback is a function on its state.
pub mod Line
use fcgiserver.Prelude.{ℕ, ◌/◌, ◌^◌, List, [], ◌∷◌, Option, none, some, Bytes, codes, ◌>>=◌}
use fcgiserver.Prelude.Int.{ℤ}
use fcgiserver.Formatter.{utf8}
use fcgiserver.Formatter.Numbers.{w32, format_signed}
use fcgiserver.Logger.{LogLevel, debug, line_formatter, real_append, append}
use fcgiserver.Request.Response.{header, status_symbol}
use fcgiserver.Request.State.{
  Request, remote_addr, remote_port, request_method_string, document_uri,
}

-- The line, from its parts; `:` and the blank are chars, and the port is an int.
unfoldable pub request_line : Bytes → ℤ → Bytes → Bytes → Bytes → Option Bytes
request_line addr port status method uri = do
  f₁ ← append (line_formatter [] utf8) addr
  digits ← format_signed w32 port
  f₂ ← append (real_append (real_append f₁ (codes ":")) digits) (codes " - ")
  f₃ ← append f₂ status
  f₄ ← append f₃ (codes " - ")
  f₅ ← append f₄ method
  f₆ ← append (real_append f₅ (codes " ")) uri
  some f₆.buffer

unfoldable pub log_request :
    {D L : Type 0} → (LogLevel → Bytes → L → L) → Request D L → L → Option (L × Request D L)
log_request log_message r callback =
    let (addr, r₁) = remote_addr r in
    let (port, r₂) = remote_port r₁ in
    let (method, r₃) = request_method_string r₂ in
    let (uri, r₄) = document_uri r₃ in
    request_line addr port (header status_symbol r.response) method uri >>= λ line.
    some (log_message debug line callback, r₄)

-- `ILogCallback::now`, of the nanoseconds since the epoch, with the calendar of `localtime_r`.
unfoldable pub now : {T : Type 0} → (ℕ → T) → ℕ → T
now localtime time_since_epoch = localtime (time_since_epoch / 10 ^ 9)
