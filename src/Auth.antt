-- ===== src/Auth.antt =====
-- The challenges and bearer sessions of firmware/components/michi_home/michi_auth.c. Randomness, the
-- clock, the cryptography and the server's own id (`none`: the identity is not ready) are arguments.
-- A fixed buffer holds the bytes before its NUL.
pub mod Slots
pub mod Table
pub mod Requests
pub mod Handlers
pub mod Histories
pub mod Checks
mod Effects
mod Fits
pub mod Grants
pub mod Unique
pub mod Counts
pub mod Eviction
pub mod Tokens
pub mod Accepted
unfoldable pub use Table.*
unfoldable pub use Requests.*
unfoldable pub use Handlers.*
unfoldable pub use Histories.*
