-- ===== src/System.antt =====
-- The program as it is configured: resolvers that hold resolvers, by nesting or by name, cycles
-- included. `run` ties the methods of Resolvers and Core together. It follows a call on fuel, one
-- unit for each call of `Resolve` inside a call.
mod Memory
mod Graph
pub mod WellFormed
pub mod Idle
pub mod Termination
pub mod Safe
pub mod Given
pub mod Configured
pub mod Serving
pub mod Replies
pub mod Answered
unfoldable pub use Memory.*
unfoldable pub use Graph.*
