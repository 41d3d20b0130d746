-- ===== src/Lib.antt =====
-- amarre: the console that watches the backups of a fleet of hosts.
--
-- The program queries each host over SSH at an interval, records what it learns in a SQLite
-- database, and shows whether the backup of each host is as recent as it should be. It watches
-- over the absence of a backup, not over its failure. An operator signs in with a password and a
-- one-time code, from an allowed address, and can start an operation on a host.
--
-- Parts, and the files that model them:
--   Auth/Limiter    internal/auth/auth.go: `Limiter`, the attempts of each key. Each call holds
--                   the mutex, so it is one function of the state and of the clock reading.
--                   Window has the log of events, Guarantee what the limit promises.
--   Auth/Totp       internal/auth/auth.go: `totpAt` and `VerifyTOTP`. Base32 and HMAC-SHA1 are the
--                   record `Mac`, with the documented size of a SHA-1 sum as its one law.
--   Auth/Password   internal/auth/auth.go: `HashPassword`, `VerifyPassword`, the tokens. Argon2id
--                   and base64 are the record `Kdf`, with their documented laws.
--   Config          internal/config/config.go: `validate` and `IPAllowed`. Config/Net has the
--                   addresses and prefixes of Go's netip; its parsers are the record `Parsers`.
--   Store           internal/store/store.go: each table is a list of rows in the order of
--                   insertion, with its keys and constraints; each query is a function over it.
--                   Store/Hourly has `HourlyHistory`.
--   Fleet/Health    internal/fleet/health.go: the report of a host.
--   Fleet/Tree      internal/fleet/tree.go: the tree of a snapshot from the answer of the host on;
--                   trimming, the JSON decoder and Go's path functions are the record `Paths`.
--   Fleet/Calls     internal/fleet/fleet.go: `run` and the verbs on it. What SSH does at each step
--                   is the record `Line`; the JSON decoders and the scanner are the record `Decode`.
--   Fleet/Client    internal/fleet/knownhosts.go, `NewClient` and `FetchHealth`.
--   Fleet/Pool      internal/fleet/pool.go: each critical section is a function of the pool, and
--                   Pool/Leaks lets them follow each other in any order.
--   Collector/View  internal/collector/collector.go: `Fleet`, `Sum` and the states of a host.
--   Collector/Sante internal/collector/sante.go: `Evaluate` part by part (Sante/Evaluate), the
--                   page of findings (Sante/Board). Go's formatting of times and lower-casing are
--                   the record `Texts`, the JSON decoders the record `Decoders`.
--   Collector/Probing   internal/collector/probe.go: `probeHTTP`; the answer to each attempt and
--                   the end of the context in the wait after it are an argument.
--   Collector/Timeline    internal/collector/timeline.go: `episodes`, the row of a host
--                   (Timeline/Rows) and the page (Timeline/Page), at one reading of the clock,
--                   with Go's formatting of times as an argument. Timeline/Bars has
--                   `bars`; its percentages in floating point are the record `Share`.
--   Collector/Backoff   internal/collector/collector.go: `due`, `noteFailure`, `noteSuccess`.
--   Collector/Cache     internal/collector/cache.go.
--   Collector/Trees     internal/collector/trees.go: each critical section is a function of the
--                   store of trees, and Trees/Steps lets them follow each other in any order.
--   Collector/Collect   internal/collector/collector.go: `collectOne` and the loops around it, on
--                   the whole state of the collector (`Console`). The answers of the host are an
--                   argument.
--   Collector/Rounds    internal/collector/collector.go: `CollectAll`; a goroutine takes a place of
--                   the channel or ends its collection in one step, at every order; and what `Run`
--                   does between two rounds.
--   Collector/Action    internal/collector/collector.go: `Action`, its goroutine, and `Busy`.
--   Collector/Detail    internal/collector/collector.go: `HostDetail`, the page of a host.
--   Collector/Browse    internal/collector/collector.go and trees.go: the cached calls, `Tree` and
--                   `Browse` as whole calls, the answers of the host and the waits as arguments.
--   Web             internal/web/server.go: what a handler reads of a request (Web/Request),
--                   `postLogin` and `postLogout` (Web/Login), `postAction` behind the filter of
--                   addresses and `requireAuth` (Web/Operation). Go's text of an address, the
--                   comparison of a password and trimming are the record `Environment`.
--                   Web/Crumbs has `crumbs`, Web/Pages the data of each page, and Web/Site the routes
--                   and the whole chain of `Handler`. Web/Funcs has the functions of the templates
--                   of internal/web/funcs.go that do not draw or round.
--   Commands        cmd/amarre/main.go: `cmdUserAdd`, `cmdTOTP` and `cmdServe` up to the listener;
--                   the files, the terminal and the random bytes are arguments.
--   Qr              internal/qr/qr.go: `Terminal` and `Dimensions`; the code of the library is an
--                   argument.
--   Base            what they share: Boolean tests, lists, Go maps as association lists, int64,
--                   times and durations, results, sorting, lists of named
--                   records, and what the code uses of Go's strings package (Base/Text)
--                   and of `fmt.Sscanf` (Base/Scan).
--
-- How they interact: the collection (Collect) writes the backoff, the cache and the tables; the
-- view of the fleet (View) reads the table of checks and the configuration; the findings (Sante)
-- read the view and the collected data; an operation (Action) drops the cache and the trees of
-- its host and collects it again. The web server reaches Action after the address, the session
-- and the token of the form have been checked, and opens a session after the limit, the password
-- and the one-time code.
--
-- Numbers: a time is its nanoseconds since Go's zero time, as a natural number, a duration an
-- int64; sums, products and shifts of int64 wrap around (Base/Int); a difference of times is held
-- within int64, as in Go. Seconds since 1970 are natural numbers. A float is kept as its text or
-- as the pair of its terms.
--
-- Fuel: the eviction of Trees runs on the number of trees, since each turn of its loop removes one;
-- `itoa` and the decimal form of an integer run on twenty digits, which an int64 does not exceed;
-- the axis of the timeline runs on the number of its cells, since each turn moves on by one cell at
-- least; the lines of the QR code run on its size, since each turn moves on by two rows; the loop
-- of `bytes` runs on seven divisions by 1024, which leave nothing of an int64. All other loops are
-- recursions on their lists.
--
-- Order: a `range` over a Go map visits the entries in the order of the list that models it, and
-- the order of equal elements in an unstable sort is that of a stable one.
--
-- Not modelled: the SSH client (the dial and the keep-alive of pool.go), the templates and those of
-- their functions that draw or round, `getExplorer`, which no route reaches, the charts, the flags
-- and the output of the commands, and the errors of SQLite other than a missing row or a
-- constraint.
pub mod Base
pub mod Auth
pub mod Config
pub mod Store
pub mod Fleet
pub mod Collector
pub mod Web
pub mod Commands
pub mod Qr
