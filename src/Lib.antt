-- ===== src/Lib.antt =====
-- phenk, a mail server for throwaway and shared addresses: its core logic in Go, modelled and
-- proved.
--
-- The program accepts mail by SMTP (internal/smtpd) for identities, addresses that are either
-- random and owned by a session or named and shared (internal/core). It provisions them
-- (internal/alloc), keeps everything in Postgres (internal/store/pg) with the bytes of messages
-- sealed under keys of their own in a blob store (internal/crypto, internal/store/blob), parses
-- each message in the background (internal/worker/parse, internal/mimeparse), and ends addresses
-- and messages by jobs (internal/worker/lifecycle). The HTTP API (internal/api) gives out
-- identities and messages, with the codes and links found in them (internal/extract), and holds
-- requests until mail comes, as the event hub (internal/events) tells it.
--
-- Core.Address, Core.Domain, Core.Identity, Core.Message and Core.Uuid model internal/core: one
-- record or data type per struct or enumeration, one function per function. Crypto.Keys and
-- Crypto.Stream model internal/crypto/crypto.go and stream.go over any AEAD, a record of operations
-- with laws that Crypto.Aead states and shows to be satisfiable; Crypto.Keyring is what the other
-- parts use of them. Store models the statements of internal/store/pg: Tables has the tables,
-- transactions and the forms of SQL, and Domains, Identities, Deliveries, Blobs, Events and
-- Lifecycle the files of those names. Store.Respect and Store.Rows carry the proofs about
-- transactions. Alloc models internal/alloc/alloc.go. Smtpd.Limits, Smtpd.Cache, Smtpd.Receiver,
-- Smtpd.Server and Smtpd.Session model the files of internal/smtpd; a session runs over any
-- receiver, as MailReceiver lets it in the source. Worker.Lifecycle models
-- internal/worker/lifecycle/lifecycle.go. History puts the receiver's commits, allocation and the
-- jobs together, in any order. Examples applies the theorems.
--
-- Regexp and Strings hold what the program uses of the packages regexp and strings. Extract models
-- internal/extract/extract.go (Candidates and Codes the search for codes, Links and Html the links,
-- Message the function Message); Mimeparse and Mimeparse.Parts model
-- internal/mimeparse/mimeparse.go, from what the MIME library gives of an entity. Worker.Parse,
-- with Auth and Commit, models parse.go and auth.go of internal/worker/parse over Store.Parsed
-- (internal/store/pg/parsed.go) and Store.Files (internal/store/blob, whose files are a map from
-- paths to contents). Api.Messages, Api.Identities, Api.Named, Api.Wait and Api.Stream model the
-- handlers of internal/api in messages.go, identities.go, session.go, meta.go, named.go,
-- named_wait.go, wait.go and stream.go: each is a function of the server's state that ends in the
-- reply that is written or in a refusal. A wait or a stream takes what its select statements
-- receive as a list of events, each with the server as it is then. Events models
-- internal/events/hub.go: one function per method, and a history of calls in any order, in which a
-- panic is none. The limiter of internal/api/limits.go is the same code as that of
-- internal/smtpd/limits.go and shares its model.
--
-- State is passed explicitly. A transaction is a function of the tables that fails or returns new
-- ones; a statement of SQL is read as the function on lists of rows that it denotes, with the
-- constraints of migrations/0001_init.sql. Transactions run one after the other, so row locks and
-- skipped rows do not show. Failures of the connection to the database, logging and the payloads of
-- events are left out. Texts are lists of bytes, in UTF-8 beyond ASCII; Strings.Cases has the lower
-- case of letters from the tables of Unicode 15. Identifiers in tables are the numbers that their
-- sixteen bytes spell. Times and lengths of time are numbers of nanoseconds; a length of time or a
-- setting that is not positive is 0. Random bytes, readings of the clock, the FNV hash, the blob
-- store of the receiver and the jobs, and the hook that schedules follow-up work are arguments; so
-- are the SHA-256 hash, url.Parse, the HTML tokenizer, the MIME reader, the readers of dates and
-- media types, DKIM verification and the HTML sanitizer. The tokens of the rate limiter are exact,
-- scaled so that a token is a window of nanoseconds; the time after which its sweep drops a bucket
-- is computed in Prelude.Float64, whose rounding takes at most 200 rounds for the numbers that come
-- up. The loops of the stream functions run on fuel: each round reads a chunk or a frame, and there
-- is a round for each byte and one more. Eviction from the cache runs once for each entry at most.
-- The loops of regular expressions, of the search for matches and of trimming run on fuel too: a
-- round takes at least a byte, and there is at least a round for each byte.
--
-- Not modelled: sanitizing (internal/sanitize), whose rules are a library's; the image proxy,
-- routing and rendering in internal/api; configuration (internal/config); the search for messages
-- and the listening connection of the event hub, which are the database's; temporary files and
-- syncing in internal/store/blob; the queue (internal/worker/queue), the wiring (cmd) and generated
-- code.
pub mod Prelude
pub mod Regexp
pub mod Strings
pub mod Extract
pub mod Mimeparse
pub mod Core
pub mod Crypto
pub mod Store
pub mod Alloc
pub mod Smtpd
pub mod Worker
pub mod Api
pub mod Events
pub mod History
pub mod Examples
