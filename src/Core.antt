-- ===== src/Core.antt =====
-- internal/core/instance.go and pkg/upstream/resolver/check.go: the instance, which chooses a
-- resolver by the name asked for, and the handler of a listener.
pub mod Safe
pub mod Tidy
pub mod Answers
pub mod FirstRule
pub mod Suffixes
pub mod Providers
pub mod Scanning
pub mod Precedence
pub mod Order
mod Check
mod Resolution
mod Loading
mod Serving
unfoldable pub use Check.*
unfoldable pub use Resolution.*
unfoldable pub use Loading.*
unfoldable pub use Serving.*
