-- ===== src/Rules.antt =====
-- The rules of the program: pkg/rules/provider (what provides them) and internal/rules/providers.
pub mod Lines
mod Interface
mod Collected
mod Dnsmasq
unfoldable pub use Interface.*
unfoldable pub use Collected.*
unfoldable pub use Dnsmasq.*
