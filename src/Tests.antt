-- ===== src/Tests.antt =====
-- The theorems at concrete inputs.
mod Texts
mod Formats
mod Interned
mod Logs
mod Routes
mod Responses
mod Requests
mod Serving
mod Threads
mod Programs
