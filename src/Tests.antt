-- ===== src/Tests.antt =====
-- Tests: concrete runs of the modelled functions, and an instance of each main theorem.
mod Jitter
mod Session
mod Ops
mod Streams
mod Volume
mod Versions
mod Engine
mod Output
mod Home
