-- ===== src/Dns.antt =====
-- The messages of github.com/miekg/dns as far as the program reads and writes them, and what the
-- program relies on in that library.
mod Message
mod Interface
pub use Message.*
pub use Interface.*
