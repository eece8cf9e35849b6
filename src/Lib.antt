-- ===== src/Lib.antt =====
-- The Verkle trie of this repository: an in-memory trie of 32-byte keys and values with Pedersen
-- commitments, the embedding of accounts in it, and the archive of past blocks.
--
-- Commit models commit/commit.go and commit/value.go. The curve and field library go-ipa is the
-- record `Ipa`, an argument of all that uses it; Tests/Toy has a value of it. Commit/Update
-- compares
-- `Update` with `Commit`; Commit/Opening models commit/proof.go, over the record `Prover`.
-- Commit/Encoding says what a scalar keeps of its bytes, over the laws `IsStandard` of go-ipa, and
-- Commit/Binding what equal commitments say of their vectors. Commitments are not injective, so
-- these
-- results end in `Break`, the data that would break the scheme, or in what is claimed.
-- Node models memory/trie/nodes.go: `inner` and `leaf` are constructors of `Node`, with nil; `get`,
-- `set` and `commit` are the methods of both. Node/Shape says where nodes stand, Node/Access proves
-- `set` and `get`, Node/Cache and Node/Erase prove the cached commitments, Node/Used the bitmap.
-- Node/Marks gives the keys that the bitmaps hold, Node/Compact is about tries without needless
-- inner
-- nodes, and Node/Canonical about the commitments of such tries. Node/Sized has the lengths of what
-- the leaves hold; Node/Vectors and Node/Binding go from commitments back to what is read.
-- Trie models memory/trie/trie.go: `Get`, `Set` and `Commit` on the root. Trie/Laws has one
-- operation, Trie/History and Trie/Commits whole histories, Trie/Contents two histories with the
-- same
-- contents and Trie/Binding two with the same commitment, Trie/Sized the types of what is stored,
-- Trie/Reached the tries of histories,
-- Trie/Calls how deep the calls of `set` go.
-- Code models memory/code.go: `splitCode` and `merge`.
-- Embedding models memory/embedding.go: the place of a field, a code chunk or a storage slot, and
-- the
-- trie key of a place.
-- State models the accounts of memory/state.go: the getters, and the loops of `Apply`, over a
-- trie. The
-- calls of other packages are the record `Env`. State/View gives a trie as a function from keys to
-- values, State/Changes says what `Apply` does to it, State/Patch, State/Accounts, State/Codes and
-- State/Slots say what the getters return then; State/Bytes32 and State/Reached say that `Apply`
-- writes
-- bytes, as a history does. State/Proofs has `GetHash` and `CreateWitnessProof`.
-- Witness models `vtWitnessProof` of memory/state.go, over the record `Amounts` for the package
-- amount.
-- Snapshot models the serialized trie, `CreateSnapshot`, `Restore` and `VerifyPart` of
-- memory/state.go;
-- the order in which Go ranges over a map is the order of a list. Snapshot/Parts has the accessors
-- of
-- `vtSnapshot` and `vtProof` and the verifier. Snapshot/Samples says what the loops of
-- `serializeTrie`
-- collect, Snapshot/Writes and Snapshot/Histories what `Restore` makes of it; Snapshot/Binding is
-- about
-- snapshots of any bytes, Snapshot/Lost about states with keys that no snapshot has,
-- Snapshot/Bytes32
-- about the bytes of a snapshot.
-- Archive models `vtArchive` of memory/state.go; Archive/Bounds, Archive/Oldest and Archive/Evicted have one
-- block,
-- Archive/Window blocks in a row, Archive/Held what all snapshots satisfy.
-- Memory models the whole `State` of memory/state.go, a trie with its archive and the written
-- slots:
-- `Apply` with its tracking and archiving, `HasEmptyStorage`, `GetArchiveState` and the memory
-- footprint. Memory/Slots is about the written slots, Memory/Blocks about `Apply`, Memory/Chain and
-- Memory/Window about many blocks, Memory/History, Memory/Recall and Memory/Past about past
-- states; Memory/Export models `Export`, over the record `Writer`.
-- Geth models geth/state.go, the adapter to the trie of go-ethereum, which is the record `Library`.
-- Geth/Accounts, Geth/Sizes and Geth/Methods have the methods of `verkleState`; Geth/Source models
-- geth/node_source.go and geth/memory_source.go; Geth/Persistent models `Apply` of both states and
-- the rest of `persistentVerkleState`, over the record `Persistence`.
--
-- Bytes are numbers, byte strings are lists, and a `[256]` array of a node is a function from
-- indices. A run-time panic (an index out of range, a nil dereference) is `none`. The methods of
-- the
-- trie change nodes in place; no two parents share a node, so a method returns the new node.
-- `set` of a node takes fuel, one unit for each call of the source: at the root 62 are enough, and
-- the trie gives 64. The loops of `splitCode` have the length of their array as the number of
-- rounds.
--
-- Not modelled: the methods that only return a constant, which are `Check`, `Flush`, `Close`,
-- `Release`, `RunPostRestoreTasks` and `GetSnapshotableComponents` of memory/state.go and the
-- unsupported features of geth/state.go, with `NewState`, which is `newState` without a source; the
-- generated geth/node_source_mocks.go; and memory/doc.go, which has no code. The text
-- of an error is left out, its kind is kept.
pub mod Prelude
pub mod Code
pub mod Commit
pub mod Node
pub mod Trie
pub mod Embedding
pub mod Archive
pub mod State
pub mod Witness
pub mod Snapshot
pub mod Memory
pub mod Geth
pub mod Tests
