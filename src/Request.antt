-- ===== src/Request.antt =====
-- src/lib/request.cpp: the encodings of request texts, what is read from the environment, and the
-- response.
pub mod Codec
pub mod Parse
pub mod Response
pub mod Env
pub mod State
pub mod Stream
pub mod Access
