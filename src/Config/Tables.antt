-- ===== src/Config/Tables.antt =====
-- The descriptors that the packages register: which field of an object is made of which part of the
-- configuration, by which conversions, and what it is where that part is missing.
mod Servers
mod Https
mod Synthesis
mod Wrappers
mod Slices
mod Rules
mod Names
unfoldable pub use Servers.*
unfoldable pub use Https.*
unfoldable pub use Synthesis.*
unfoldable pub use Wrappers.*
unfoldable pub use Slices.*
unfoldable pub use Rules.*
unfoldable pub use Names.*
