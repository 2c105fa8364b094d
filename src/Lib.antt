-- ===== src/Lib.antt =====
-- pevo-pinner: a service that finds the CIDs of PEvO papers on the Hive chain, pins their content to
-- IPFS through an embedded node or Pinata, and serves a management API.
--
-- The parts and how they interact. Discovery (discovery.go) reads rows from a HAF database, extracts
-- the CIDs they mention and keeps a snapshot of items; after each refresh it calls back with them.
-- The rule manager (autopin.go) selects the items that some rule matches, and keeps its rules in a
-- file. The runner (autopin_runner.go) caps the selected items by author and pins them through a
-- bounded pool that all callers share. Every CID is checked by ValidateCID (pinner.go), and state
-- files are written by atomicWriteFile (atomicfile.go). The embedded node (ipfsnode.go) pins a CID by
-- bitswap, or else by a CAR stream from a chain of gateways (ipfsnode_fetch.go) that the mesh of
-- pinners (ipfsnode_pubsub.go) adds to; its HTTP gateway serves pinned CIDs only (ipfsnode_gateway.go).
-- The Pinata backend (pinata.go) asks a remote API instead. The handlers (server.go) call the backend,
-- the manager and the runner; the configuration (config.go) and main (main.go) put the parts together.
--
-- The files.
--   Prelude            shared names, lists, and Go strings as lists of bytes
--   Cid                ValidateCID and its regular expression (pinner.go)
--   AtomicFile         atomicWriteFile as the system calls that take effect (atomicfile.go)
--   Discovery          rows, extractItemsFromRow, refresh, the loop of Start (discovery.go); Scan is
--                      the search for links in a body, Start is NewDiscovery and the ticker, Query is
--                      buildDiscoveryQuery with the reading of its literals, Spec the abstract
--                      view, Refinement and Snapshot the theorems
--   AutoPin            Rule is Matches and MatchingItems, Manager the operations with their file
--                      faults, NewId the text of an ID (autopin.go); Matching, Persistence, Identity,
--                      Restart the theorems
--   Runner             NewAutoPinRunner and the shedding loop of Run, Pool the goroutines of all calls
--                      of Run as a step relation (autopin_runner.go)
--   Fetch              Url and Chain are normalizeFallbackURL and assembleFallbackChain, Import is
--                      fetchCARFromGateway and fetchViaCAR, Reader is byteCountReader over its
--                      LimitReader (ipfsnode_fetch.go); Laws, Completion, Outcome, Fallback and
--                      Counting the theorems
--   Mesh               applyHeartbeat, recvLoop, evictExpired (ipfsnode_pubsub.go); Url is the guard on
--                      gateway URLs, Publish is publishHeartbeat, Goroutines the loops, the dials and
--                      Stop as a step relation; Peers, Invariant and Fallback the theorems
--   Backend            IPFSBackend as a record of operations, and what it is to be a set of CIDs
--                      (pinner.go)
--   Node               Pin, Unpin, loadPins, savePins (ipfsnode.go), gatewayGuard
--                      (ipfsnode_gateway.go), with Pins and Guard the theorems; Interface is the node
--                      as a backend; Drain is the gate that Pin and Drain share, as a step relation,
--                      and Saves the interleaving of savePins; Lifecycle is what NewEmbeddedNode
--                      opens, with newLibp2pHost (ipfsnode_libp2p.go), and what Close closes;
--                      Host is startGateway with its mux; PeerKey is loadOrCreatePeerKey
--                      (ipfsnode_libp2p.go)
--   Pinata             the calls of the Pinata API (pinata.go); Pages is the loop of PinnedCIDs,
--                      Interface the backend
--   Config             Env is loadDotenv and envOrFlag, Settings and Parse are ParseConfig, Redact is
--                      redactURL, Log is LogConfig (config.go); Valid and Precedence the theorems
--   Server             the handlers (server.go), with those of the proxy and of the rules in Proxy and
--                      Rules, beside their theorems; Format is formatDuration; Routes is the mux of
--                      NewServer, with Meaning for what a request asks of the rules by its
--                      method and path, Serve is ServeHTTP over a sequence of requests, with the theorems
--                      that cross its components; Status and Pins
--                      the theorems on the other handlers
--   Main               the options, the runner and the refresh callback of main.go, with the defaults
--                      of NewEmbeddedNode and startMesh; MeshStart is startMesh, Process is main with
--                      its exits and its shutdown; Wiring and Handover the theorems
-- Names follow the source in snake case: extractItemsFromRow is extract_items_from_row.
--
-- Conventions. A Go string is its list of bytes, a map[string]bool that is only set is the list of its
-- keys, other maps are association lists; instants are natural numbers. A method takes its receiver
-- and returns it with the result. What the code does not decide is an argument: the outcome of each
-- system call, random bytes, the JSON codec, strings.ToLower, time.Parse, the database driver, the
-- remote side of Pinata. Only PinnedCIDs takes fuel, one round for each page, and its theorem says how
-- much is enough; digits are printed with as many rounds as the number has units, which is more than
-- it has digits. The other loops recur on the list they walk, and the pool is a relation with a measure.
--
-- Not modelled: log lines, the browser interface (static/), the construction of libp2p, DHT, flatfs and
-- pubsub objects (ipfsnode_libp2p.go, ipfsnode_repo.go), the wire format of JSON, what a query means to
-- the database, deadlines other than as steps that may come at any time, the grace period of Drain
-- behind its deadline, which changes no state, PinnedCIDs of the node, which only reads and which
-- nothing calls, and the texts of errors. Of net/http, the mux is modelled as its documentation
-- describes the patterns that are used here, and of io the LimitReader; both muxes are given paths
-- that they have cleaned, and what http.Redirect does with the text it is given is left to net/http. Node.Saves has one temporary
-- file, whose path each write names; the pin set of the other parts is taken one call at a time.
pub mod Prelude
pub mod Cid
pub mod AtomicFile
pub mod Discovery
pub mod AutoPin
pub mod Runner
pub mod Fetch
pub mod Mesh
pub mod Backend
pub mod Node
pub mod Pinata
pub mod Config
pub mod Server
pub mod Main
