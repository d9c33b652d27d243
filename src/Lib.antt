-- ===== src/Lib.antt =====
-- SniShaper: a local proxy that hides the server name of TLS connections from an observer. A client
-- connects to it; the rule of the user that fits the host (or an automatic decision) says how the
-- connection to the upstream is made: directly, with the ClientHello cut into several TLS records and
-- writes, or with a TLS connection of the proxy's own, under another server name.
--
-- How the parts of the Go program, nearly all in the folder proxy, stand here:
--
-- * proxy/tls_fragment.go. Tls.Hello is `parseClientHello`, in one function for each stretch of the
--   source; Tls.Fragment is `findLastDot`, `makeRecord`, `splitAndAppend` and `sendRecords`. What
--   `sendRecords` does to the connection is the list of its writes, out-of-band sends and sleeps
--   (`Send`); which of them the connection takes before one fails is the business of `deliver` in
--   Handlers.Fragment. A slice or an index out of range is the outcome `panic`.
-- * proxy/gfwlist.go. Auto.GfwList: the list of blocked domains, `LoadFromReader`, `LoadFromURL`,
--   `IsBlocked`.
-- * proxy/auto_routing.go. Auto.Router: the networks of Cloudflare, the cache of answers with its time
--   limit, `Decide`, `GetStatus`. The answers of the resolver and the clock are arguments.
-- * proxy/proxy.go, the rule manager. Rules.Types holds the structs; Rules.Domain is `hostMatchesDomain`
--   and `domainMatchScore`; Rules.Match is `matchRule`, which asks Auto.Router where no rule fits;
--   Rules.Build is `buildRules`; Rules.Manage the operations on site groups, upstreams, DNS nodes and
--   ECH profiles; Rules.Ech the profiles and `migrateLegacyECHRules`; Rules.EchSync the binary form of an
--   ECH configuration and its update; Rules.Load what is made of the decoded rules file; Rules.Website the
--   guess of a site's name. Settings is the settings file, its loading and its setters.
-- * proxy/config.go. Rules.Import: the import of a configuration, from its decoded payloads on.
-- * proxy/proxy.go, the addresses. Net.Address is `normalizeHost`, `ensureAddrWithPort` and the
--   functions of package net that they call; Net.Candidates is what a connection dials
--   (`resolveUpstreamHost` to `buildDialCandidates`); Net.ServerName is `chooseUpstreamSNI`.
-- * proxy/proxy.go, the connections. Connect.Prepare is `mergeRule` and `prepareConnect`, which asks
--   Rules.Match once more for the upstream's own name; Connect.Dial is `dialUpstream`, with the reports
--   to the pool as a list.
-- * proxy/proxy.go and proxy/socks5.go, the handlers. A handler is a function to the list of what it
--   does to its connections, a `List Event` of Handlers.Lifetime: opened, written to, closed, joined to
--   the client. Handlers.Fragment is `handleTLSFragment` with `readInitialTLSRecord` and
--   `handleTLSRFFallback`; Handlers.Upstream `establishUpstreamConn` with its fallbacks; Handlers.Mitm
--   `handleMITM`; Handlers.Connect `handleConnect`, which chooses among these by the mode that
--   Connect.Prepare gives; Handlers.Socks the requests of SOCKS5; Handlers.Http what `handleHTTP` sends on;
--   Handlers.Forward the URLs of a worker, and the headers that are taken off.
-- * proxy/doh.go. Dns.Message reads the answers; Dns.Exchange asks several servers at once;
--   Dns.Resolve is the lookup of addresses and of ECH configurations with its cache.
-- * proxy/tun_flow.go. Tun.Plan: what becomes of a connection that comes from the TUN device.
-- * proxy/cert_verify.go. Cert.Verify: which certificate of an upstream is accepted; Cert.Client which
--   checks a client of TLS is made with.
-- * proxy/proxy.go, the server. Server is the life of `ProxyServer`: `Start` in its two locked parts with
--   the listening between them, the goroutine it leaves (`Serve` begins, fails, and is behind), `Stop`, and
--   what is set from outside. Server.Reach is the relation of the states that these lead to in any order.
-- * core_runtime.go and external_mihomo.go. Runtime.RingLog is `ringLogWriter`, the log in memory;
--   Runtime.Mihomo what the output of the external TUN process says of its state, and its `Status`;
--   Runtime.Mihomo.Start its start, stop and restart. The files and processes of the operating system are in
--   the state of the manager; the lines of the process are taken in the order in which they are read.
--   Runtime.Core is what the runtime itself keeps: route events, the state of the TUN device, the log.
-- * proxy/cf_pool.go. Pool.Stats: the pool of Cloudflare addresses. The statistics of an address are an
--   object that the map and the list of active addresses share; it is a place in a heap. Pool.Reach is
--   the relation of the pools that the operations lead to.
--
-- Prelude has the tests, the lists, the results of calls and the lemmas on them; Text the functions of
-- package strings that the source uses. The modules named Samples, ConfigSamples and LoadSamples hold concrete runs.
--
-- Text is a list of bytes. Lower case and white space are those of ASCII; the source uses those of
-- Unicode, which differ on names that are not ASCII. An `int` of Go is a natural number where the source
-- keeps it from being negative; the only width that matters is that of the length field of a record, two
-- bytes, which wraps around in `make_record`. A configuration's `segments` of -1 is a constructor of its
-- own. A Go map is an association list, or the function that looks a key up; where the order in which a map
-- is gone through could matter, it is a parameter. A lock is not modelled: each function is what happens
-- while the lock is held.
--
-- The loops on fuel are that over the extensions of a ClientHello, which is given as many units as there
-- are bytes, every round moving the offset by four bytes at least; and the recursion of
-- `establishUpstreamConn`, which calls itself once at most, so that two units suffice. The text of a number
-- has nineteen digits at most, the length of the largest `int`.
--
-- Parameters, since their code is not in the repository: regular expressions, `net.ParseIP`, the text of an
-- address, base 64, the coding of JSON, the files that are read and written, the verification of a chain
-- of certificates and the hash of a key, the ids that are made, the clock, and what the network does:
-- whether a dial, a handshake or a write succeeds, what a server answers and in which order the answers
-- come.
--
-- Not modelled: the copying between two connections in `directTunnel` (here one event, which closes both),
-- the loops that accept, the cache of made certificates, the counters of bytes, the bytes of HTTP requests
-- and answers, `getNodeClient`, proxy/error_page.go, proxy/port_manager_linux.go, cert/cert.go,
-- log_writer.go, web.go, cli.go, the rest of core_runtime.go (`startProxy`, `reloadConfig` and the markers),
-- and main.go: network, file and process work around the parts above. The folder utls is a copy of another
-- project, which the source calls.

pub mod Prelude
pub mod Text
pub mod Auto
pub mod Cert
pub mod Connect
pub mod Dns
pub mod Handlers
pub mod Net
pub mod Pool
pub mod Rules
pub mod Runtime
pub mod Server
pub mod Settings
pub mod Tls
pub mod Tun
