-- ===== src/Lib.antt =====
-- go-mLayer: how a node of the mLayer network checks and applies events.
--
-- A client signs a payload that holds a new state (a subnet, an authorization, a topic, a subscription
-- or a message). A validator node wraps it into an event, signs that and publishes it; every node that
-- gets the event runs HandleNewPubSubEvent on it. The handler of the state's kind fills the state's
-- fields from the event, calls ProcessEvent, which checks the signatures and the events that this one
-- depends on, then the check of the payload, and collects what is to be stored in a DataStates.
--
-- Parts and files:
--   Prelude       strings as bytes, maps as association lists, errors (common/apperror/errors.go), the
--                 result of a Go call (a value, an error or a panic), and what holds of a result
--   External      hash functions, base64, UUIDs: parameters
--   Encoding      common/encoder/encoder.go
--   Entities      entities/: Ids (models and paths), Did, Records (the structs), Wire (EncodeBytes and
--                 GetHash; ChainId.Bytes of configs/config.go), Keys (the keys under which the store
--                 keeps states and events, and the clock that they read), Constants (common/constants)
--   Order         IsMoreRecentEvent and IsMoreRecent of internal/service/helper.go
--   DataStates    internal/ds/query/data_state_manager.go, UpdateStruct of common/utils/helper.go
--   Service       internal/service: Env (what the code reads and calls), Signature, Sync (helper.go),
--                 Validate (the five checks of payloads), Process (ProcessEvent of service.go, in its
--                 phases), Handle (the five handlers and the dispatch)
--   Store         internal/ds/query over a key-value store: KeyValue and Codec (the store and msgpack, as
--                 records of operations), Counters (stats.go), States (query.go), Topics, Subnets,
--                 Authorizations, Subscriptions, Messages, Events, and Commit, which stores a DataStates
--   Rewards       entities/reward.go, the loop of generateBatch in pkg/node/reward.go, and Confirm, the
--                 checks of the case P2pActionGetCommitment in pkg/core/p2p/processor.go
--   Tests         concrete runs, and Cells, a store that is an association list
--
-- State is passed explicitly: the handlers and ProcessEvent take the collected DataStates and return
-- the new ones, also where they return an error. A phase of ProcessEvent goes on, ends the function with
-- its results, or panics; a handler ends with the error that it returns and, if its deferred function
-- commits, with what it commits. Go names are written in snake_case; EncodeBytes and GetHash of a type
-- are `<type>_bytes` and `state_hash`. A pointer is an Option, and reading nil is a panic. What it
-- points to is copied with the struct: UpdateStruct writes through the pointers of its destination, and
-- that another struct which shares such a pointer changes with it is not modelled. Integers are
-- natural numbers with their wrap-around written out where the source computes with them.
--
-- What a handler reads of the store, the peers, msgpack and the cryptographic checks are the fields of
-- Env and External. They are functions, so within one call of a handler the same question has the same
-- answer, and no law of them is assumed. The writers of Store take a transaction and return the new one;
-- the transactions are those of the parameter KeyValue, whose laws KeyValueLaws say that a read sees the
-- last write of the same key and no other. A writer that fails returns no transaction: its callers
-- discard the one that they gave it. The n-th reading of the clock in a call is `Clock.now n`. The only
-- fuel is that of the decimal digits of a number, one step more than its value.
--
-- Not modelled: ArchiveEvents, GetCycleCounts, GetNetworkCounts and the log file of Commit in
-- internal/ds/query, the commit that a deferred function tries while a panic ends the process,
-- goroutines that notify clients, the wallet handler, which nothing calls, and the packages for
-- networking, storage engines, servers and chain access.
pub mod Prelude
pub mod External
pub mod Encoding
pub mod Entities
pub mod Order
pub mod DataStates
pub mod Store
pub mod Rewards
pub mod Service
pub mod Tests
