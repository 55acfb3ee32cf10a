-- ===== src/Lib.antt =====
-- secDNS, a DNS server that sends each query to the resolver that its configuration names.
--
-- A listener hands each query to the instance (internal/core/instance.go). The instance looks up the
-- rules for the name, which rule providers (internal/rules/providers) have given to it, and calls a
-- resolver (internal/upstream/resolvers), which may call others. Each call takes a depth, one less
-- than that of its caller, and fails below 0.
--
-- The model and the code:
--   Prelude     library names, and Go's strings, maps and signed integers; subtraction on ℕ is
--               not used where the code's numbers can be negative.
--   Dns         github.com/miekg/dns: messages as records, the library functions as an interface
--               (`Library`) with the documented behaviour that is relied on (`Documented`).
--   Exec        calls: a state with the query behind the caller's pointer and the world, results
--               as values, Go's run-time panics as an exit. `Resolve` is the method `Resolve`.
--   Common      internal/common/common.go: IsDomainName, EnsureFQDN, FilterResourceRecords and the
--               error message handlers.
--   Resolvers   internal/upstream/resolvers: one module per resolver. The network of nameServer is a
--               parameter (`Network`). A concurrent list is a function of the order in which its
--               goroutines end (`concurrent`), and a step relation over all interleavings (`Step`).
--               doh (Resolvers/Https) reads and writes the fields that change in a `Slot` of the
--               world; net/http and net/url are parameters (`Web`, `Urls`). Its requests are only a
--               function of the order in which they end (`settle`), not a step relation.
--   Rules       internal/rules/providers: the method Provide of collection and dnsmasqConf.
--   Core        internal/core/instance.go and pkg/upstream/resolver/check.go: Resolve,
--               AcceptProvider, Listen and the handler of a query.
--   Listeners   internal/listeners/servers/dns/server: the method Serve, over the queries that come
--               in, one after another. dns.ListenAndServe and WriteMsg are parameters.
--   Logger      internal/logger: levels, which output a message goes to, and the form of the level.
--   Named       internal/config/named/resolver: the registry of names and the named resolvers.
--   Config      internal/config/loader.go and types.go, the conversions in the init functions of
--               resolvers, rule providers and listeners, the registrations and assignment functions
--               under pkg and internal/config, the types that internal/features registers, the
--               search for files, and the run of main.go with its exit codes. The descriptors in the
--               init functions (Config/Tables) are values of the types of go-descriptor, which is an
--               interface (`GoDescriptor`) with the documented behaviour that is relied on
--               (`Describes`). encoding/json, net, net/url, strconv and os are parameters.
--   System      all resolvers of a configuration together, which refer to each other by name, and
--               the memory with the DoH objects (`World`). `IsWellFormed` says what the methods
--               read without a test; that a call returns rests on it, and on a network and servers
--               that keep to their protocols (`Reliable`, `Answering`). `Given` relates values of
--               the configuration to the resolvers they give.
--   Samples     concrete inputs.
--
-- Bounds and fuel: `run` of System follows a chain of calls on fuel, one unit for each call;
-- `calls_from` gives an amount that is enough for a depth, with 66 more for each DoH object that has
-- no client yet: making one looks its host up at depth 64. `accept` of Core takes one unit for each
-- call of Provide; one more than there are rules or lines is enough. Loops over slices are
-- structural.
--
-- Errors that goroutines hand to an error handler are listed in the order in which the goroutines are
-- started; the handler may see them in another.
--
-- Not modelled: the wire format and the sockets of miekg/dns, net and socks5; the bytes of error
-- texts; the descriptor of internal/config/types.go as a table (its conversions, which are
-- modelled one by one, change the registry of names while they run); the functions of the logger
-- that only hand their arguments to zerolog (Print, Printf and the writers). Data races between
-- the goroutines of a concurrent list, which share one query, or between queries that find a DoH
-- object without its client are not modelled: calls run one after another.
pub mod Prelude
pub mod Dns
pub mod Exec
pub mod Common
pub mod Resolvers
pub mod Rules
pub mod Core
pub mod Listeners
pub mod Logger
pub mod Named
pub mod Config
pub mod System
mod Samples
