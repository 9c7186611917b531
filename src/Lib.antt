-- ===== src/Lib.antt =====
-- A model of the CESS decentralised CDN components: the cache node, the client of its users, the
-- libraries that both share, and the contract that pays for the cache.
--
-- The parts of the program and the files that model them:
-- - Types: the messages between nodes and clients (cd2n-lib/types/types.go).
-- - Credit: the ledger of credits of a cache node (cd2n-lib/credit/credit.go). Each method of `Credit` is
--   a function over the state `W` of everything outside; `Limit`, `Records` and `Orders` are about it.
-- - Protocol: the contract on an EVM chain (cd2n-lib/protocol/cache_evm_proto.go), and below it `Client`
--   and `Filter` for the chain's client and its subscriptions (cd2n-lib/protocol/evm_client.go). It
--   gives the ledger the orders that pay for credit.
-- - Cacher: the cache actor (cd2n-node/actors/cache_actor.go). `Records` holds the counters and the
--   callbacks of `NewCacher`, `Query` the queries, `Service` the stream handler `CacheService`, `Queue`
--   the download queue of `RunDownloadServer`, `Receive` the messages, `Restore` the restart. The other
--   files below it are about these.
-- - Transfer: requests and downloads (cd2n-lib/lib.go). `Streams` holds the loops of `ReadData` and
--   `WriteData`, `Requests` what is asked of cache nodes, `Storage` what is asked of storage nodes.
-- - Resource: the resource actor (cd2n-node/actors/resource_actor.go). `Neighbors` asks other cache
--   nodes, `Download` is `DownloadStoragedFiles`, `Receive` the messages, `Shuffle` the shuffle.
-- - Actors: the registry of actors and the peer-to-peer actor (cd2n-node/actors/actor.go and
--   cd2n-node/actors/p2p_ts_actor.go).
-- - UserClient: the client library (cd2n-client/client). `Box` packs a directory into one file and reads a
--   file back (`Create` to `Packs` about the packing, `Slots`, `Download` and `Readback` about the
--   reading, `Roundtrip` about both), `Cachers` asks the cache nodes and runs a worker for each, `Downloads` is
--   `DownloadSegment` and, in `Files`, `DownloadFile`, `Uploads` the queue of uploads with its server and, in
--   `Gateway`, the calls of a gateway and of the chain, `Payment` the settlement of orders (files.go,
--   client.go, bucket.go, space.go).
-- - Config: the node's configuration (cd2n-lib/config/config.go).
-- - Peers: the key of the cache's peer-to-peer node and the addresses of its boot nodes
--   (cd2n-lib/p2p/p2p.go).
-- - Store: LevelDB, which the ledger and the counters are kept in; Base: Go's results, strings, paths,
--   integers and dictionaries.
--
-- The parts interact as in the program: the service of the cache actor checks and books credit in the
-- ledger, which redeems orders at the contract; its queries put keys into the download queue; the
-- workers send the keys to the resource actor, which asks other cache nodes and the storage nodes by the
-- functions of Transfer, and sends back what it has stored, for which the cache actor credits the sender.
-- The client asks the cache nodes by the same functions, and pays what it owes to them with its own ledger.
--
-- A Go call that may fail is an `Action W A`: a function of the state that answers with a value, an error
-- with its text, or a panic, and with the new state. Integers of 64 and 32 bits are numbers with the
-- wrap-around written out. Third-party code is a record of functions that the definitions take: the chain
-- and its bindings, JSON, LevelDB, libp2p hosts, files, hashes, the cache of cess-go-tools and the SDK.
-- What is relied on of them stands as a hypothesis, and the tests instantiate each with functions over
-- states in memory.
--
-- Bounds: the loops of `ReadData` and `WriteData` run on fuel, which counts the bytes and the chunks that
-- are left; each read takes one of these at least. A stream is the list of the chunks that its reads
-- give, so a peer that never ends its message is not in the model. The reward server and the download
-- server run for a number of ticks or passes that is an argument, since they run until they are told to stop. The workers
-- of the download server share the queue; what they do is a sequence of passes. The routines that ask
-- neighbours take the peers in the order of their channel. The workers of `DownloadSegmentFromCachers`
-- move one after the other, from one time they hold the lock to the next, in any order that is given: a
-- run is a list of the worker that moves and the answer to its download. `UploadServer` is modelled round
-- by round, and its iterator hands out the peers of a list.
--
-- Not modelled: logging, the wiring of the node's command and of the boot node, generated bindings, the
-- client of the ink contract, and the host and the discovery, which are libp2p's; of the client,
-- `NewClient` and `SetConfig`, which store their arguments, and `RunDiscovery`.
pub mod Base
pub mod Types
pub mod Store
pub mod Credit
pub mod Protocol
pub mod Cacher
pub mod Config
pub mod Peers
pub mod Transfer
pub mod UserClient
pub mod Resource
pub mod Actors
