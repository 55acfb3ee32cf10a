-- ===== src/Logger.antt =====
-- internal/logger: two zerolog loggers, for the standard and the error output, their level and
-- their form. zerolog is a parameter.
mod Level
mod Formats
pub mod Consistent
unfoldable pub use Level.*
unfoldable pub use Formats.*
