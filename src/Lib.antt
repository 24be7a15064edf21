-- ===== src/Lib.antt =====
-- A model of ts-store, a circular time-series store in files, with its correctness theorems.
--
-- The program. pkg/block/block.go lays out the records on disk. pkg/store keeps a store in three files:
-- the data file, a circle of blocks of equal size from a tail (oldest) to a head (newest); the index
-- file, one entry with the first timestamp for each block; and the metadata file with head, tail and
-- write offset. `PutObject` (pkg/store/object.go) appends a small object to the head block, starts a
-- block, or writes an object over several blocks (pkg/store/packed.go); a new block comes from behind
-- the head, and in a full circle from the tail, whose objects are lost (pkg/store/freelist.go). Reads go
-- by handle, by time over the index (pkg/store/index.go), or by order. `Open` (pkg/store/store.go)
-- repairs what a crash left (pkg/store/recovery.go). The packages under internal/ and cmd/ serve a store
-- over HTTP, web sockets, MQTT and Unix sockets.
--
-- The files. Prelude holds shared names and lemmas, Word the machine integers and little-endian bytes,
-- File the files (a size and a byte at each offset). Block and its children model pkg/block/block.go.
-- Store/State has the records `Config`, `Store` and `StoreMetadata`, the errors, a state monad that
-- keeps what was written when a step fails, and the access functions of pkg/store/store.go.
-- Store/Freelist, Store/Packed (Store/Packed/Read for the readers), Store/Index, Store/Objects (with
-- Query and Delete), Store/Insert, Store/Recovery and Store/Lifecycle model the file of that name, with
-- one definition for each Go function, named as in Go but in lower case. Their other children hold
-- proofs. Store/Valid is the invariant of an open store. Store/Contents/Spec is the abstract view: the
-- blocks as lists of objects, and what storing one object does to them; Store/Contents relates it to
-- the bytes in the files. Store/Tests runs a small store. Schema and its children model
-- pkg/schema/schema.go, over Strconv (`strconv.Itoa`, `strconv.Atoi`) and Prelude/Dict (maps).
-- Aggregation models internal/aggregation/aggregation.go, over Strings (`strings.Split`, `TrimSpace`), and
-- Aggregation/Window the files accumulator.go and batch.go beside it. A map that the code ranges over is
-- a list of entries in the order of the range, which a theorem leaves open. Rules models
-- internal/rules/rules.go (Rules/Parse the text form, with the pattern written out as a matcher) and
-- Rules/Evaluator internal/rules/evaluator.go; the times of the clock are inputs of a run. ApiKey models
-- internal/apikey/apikey.go, with a key file for each store name, and the UUID, the clock and the end of a
-- write as inputs. WriteFile says how a write of a small file can end: done, not reached, or torn, with a part
-- of the new text in the file. Middleware models the decisions of internal/middleware/auth.go on top of it.
-- Store/Json models pkg/store/json.go, SchemaStore pkg/store/schema.go (a store with its schema set and the
-- file of the set), Filter pkg/store/filter.go, Duration internal/duration/duration.go, Ws/Config
-- pkg/store/ws_config.go, Ws/Manager internal/ws/manager.go and Ws/Pusher internal/ws/pusher.go: Ws/Pusher
-- one round of polling and sending, Ws/Pusher/Setup `NewPusher`, Ws/Pusher/Loop the loops. A step of the push
-- connection returns the messages that the socket has taken, the error and the new state; a run of its loop
-- is given by the outcome of each dial and the ticks before each stop, a poll tick with its clock reading and
-- the store as it is then.
--
-- Parameters. `encoding/json` is a record of `unmarshal` and `marshal` (Schema; for key files `encode` and
-- `decode`, beside the hash of a key, in ApiKey), floating-point arithmetic a record of operations
-- (Aggregation, with the comparisons in Rules), `strconv.ParseFloat`, `strings.ToUpper` and `fmt.Sprintf` are functions
-- (Rules), and values of other types than numbers a type. A WebSocket connection is a type with
-- `write_json` (Ws/Pusher), the connections of a manager a record of `NewPusher`, `NewPuller`, `Start`, `Stop`
-- (Ws/Manager), and the JSON forms of a schema set and of the connections functions with the documented part of what is read
-- back: a set whole, the connections up to their headers, whose order a Go map does not keep.
--
-- Bounds and fuel. A `uint32` wraps as written in the code (`add32`, `sub32`); `int64` products that
-- give file offsets are not wrapped, since a file that large cannot be created. Loops take fuel where
-- they are not structural: the skip of continuation blocks and the adjustment of the tail one round for
-- each block and one more, binary searches one round for each offset and one more, scans of a block one
-- round for each byte, and the splitting of a rule's text one round for each byte and one more. A loop that
-- corrupted headers would keep alive for ever ends in `out_of_fuel`.
--
-- Not modelled: locks (each exported method is one step), goroutines and the network, the faults of the
-- disk other than a read past the end and a small file that cannot be read or whose write fails or breaks off, file paths (whether
-- the directory of a store is there is an input of `Create` and `Open`), and under
-- internal/ the handlers, the service, the pull connections, MQTT, Unix sockets, webhooks and configuration;
-- of cmd/ nothing is modelled.
pub mod Prelude
pub mod Word
pub mod File
pub mod Block
pub mod Store
pub mod Aggregation
pub mod ApiKey
pub mod Duration
pub mod Filter
pub mod Middleware
pub mod Rules
pub mod Schema
pub mod SchemaStore
pub mod Strconv
pub mod Strings
pub mod WriteFile
pub mod Ws
