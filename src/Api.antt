-- ===== src/Api.antt =====
-- What the programs of example/ call but do not implement (libssh2, sockets, stdio), the actions
-- that a `main` is made of, the data that a trace carries, and the rules to reason about actions.
mod Calls
mod Action
mod Flow
mod Rules
pub mod Steady
mod Wait
pub use Calls.*
unfoldable pub use Action.*
unfoldable pub use Flow.*
unfoldable pub use Wait.*
pub use Rules.*
