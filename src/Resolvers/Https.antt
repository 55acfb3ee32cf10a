-- ===== src/Resolvers/Https.antt =====
-- resolvers/doh/types.go: queries over HTTPS. The resolver keeps a client with the URLs that it
-- found for its host; it makes the client at the first query, and looks the host up again when no
-- URL serves.
mod Hosts
mod Requests
unfoldable pub use Hosts.*
unfoldable pub use Requests.*
