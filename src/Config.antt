-- ===== src/Config.antt =====
-- How the program is set up: the registration of types, the conversions of the configuration, the
-- search for its file, LoadConfig, and the run of main.go.
mod Registration
mod Values
mod Fields
mod Files
mod Loading
mod Features
mod Dispatch
mod Program
mod Descriptors
mod Tables
pub mod Registered
pub mod Ready
pub mod Ports
pub mod Converted
pub mod Distinct
pub mod Featured
pub mod Filled
pub mod Tabled
pub mod Omitted
pub mod Assigned
unfoldable pub use Registration.*
unfoldable pub use Values.*
unfoldable pub use Fields.*
unfoldable pub use Files.*
unfoldable pub use Loading.*
unfoldable pub use Features.*
unfoldable pub use Dispatch.*
unfoldable pub use Descriptors.*
unfoldable pub use Tables.*
unfoldable pub use Program.*
