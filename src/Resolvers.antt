-- ===== src/Resolvers.antt =====
-- The resolvers of internal/upstream/resolvers: each is its method `Resolve`, over those of the
-- resolvers that it holds. A required resolver that is nil would be `λ _. panic`.
mod Guard
mod Fixed
mod Addresses
mod Alias
mod Sequence
mod FilterOut
mod FilterIf
mod Translation
mod NameServers
mod Concurrent
mod Https
pub mod Arranged
pub mod Safe
pub mod Tidy
pub mod Goroutines
pub mod Racing
pub mod Outrun
pub mod Failover
pub mod Connections
pub mod Filtered
pub mod Synthesis
unfoldable pub use Guard.*
unfoldable pub use Fixed.*
unfoldable pub use Addresses.*
unfoldable pub use Alias.*
unfoldable pub use Sequence.*
unfoldable pub use FilterOut.*
unfoldable pub use FilterIf.*
unfoldable pub use Translation.*
unfoldable pub use NameServers.*
unfoldable pub use Concurrent.*
unfoldable pub use Https.*
