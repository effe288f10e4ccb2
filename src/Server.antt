-- ===== src/Server.antt =====
-- src/lib/server.cpp: the threads of a server, the requests that a thread serves, and the thread that
-- wakes the others for their maintenance.
pub mod Ticker
pub mod Answer
pub mod EmptyRouter
pub mod Worker
pub mod Pool
pub mod Contexts
pub mod Signals
