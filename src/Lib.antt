-- ===== src/Lib.antt =====
-- merkle-sync keeps a directory the same on two peers of a local network. Each peer keeps a leaf
-- for each path with a version vector, compares Merkle trees with its peer, exchanges the leaves
-- that differ, decides for each path which leaf survives, and transfers the contents.
--
-- The files and the code that they are about (paths from the repository's root):
--   Base and its children: the names and the lemmas that the other files share.
--   Bytes, Bytes.Laws: big-endian integers, as encoding/binary writes and reads them.
--   Protocol.Errors: the error values of internal/protocol.
--   Protocol.VersionVector: internal/protocol/versionvector.go. `VersionVector` is the slice of
--     its counters; `search` is sort.Search, `bump`, `merge`, `causality` (Compare), `is_equal`,
--     `new_version_vector`, `encode` and `decode` are the operations of the same names. The
--     children Canonical, Exceeds, Order, Merge, Bump and RoundTrip are the laws.
--   Protocol.Framing: internal/protocol/framing.go. A reader is the bytes left of a stream.
--   Protocol.Messages: internal/protocol/messages.go. Buffers has encbuf and decbuf with their
--     sticky error, Codec the encoder and the decoder, Layout the grammar on its own, Reads,
--     RoundTrip and Errors the laws.
--   Pathnorm.Slash: what internal/pathnorm uses of strings and path.
--   Pathnorm.Canonical: internal/pathnorm/pathnorm.go and normalize.go, with the laws in Safe and
--     Again.
--   Pathnorm.Windows: internal/pathnorm/windows.go, with the laws in RoundTrip and Legal.
--   Pathnorm.OsPath: `ToOSPath` and `WouldExceedMaxPath` of internal/pathnorm/pathnorm.go.
--   Merkle.FileInfo: internal/merkle/fileinfo.go.
--   Merkle.Codec: internal/merkle/codec.go, with the wire form's laws in Wire and the structural
--     encodings' in Structure.
--   Merkle.Tree: internal/merkle/node.go and tree.go. A tree is its root, or none when it is nil; a
--     directory is the list of its entries in the order of their names. Map, Build, Incremental,
--     Walk, Lookup, Commute and Permute have the theorems. SHA-256 is a parameter.
--   Merkle.Differ: internal/merkle/differ.go, with the theorems in Returns, Entries, Reached and Complete.
--     The fuel of the walk is one more than the depth of the deeper tree.
--   Reconcile.Conflict: internal/reconcile/conflict.go, with the UTC timestamp of the Go layout
--     20060102-150405 written out.
--   Reconcile.Plan: internal/reconcile/apply.go. Symmetry, Converge and Kept are about what two
--     peers get from it.
--   Reconcile.Tombstone: internal/reconcile/tombstone.go, with the laws in Tombstone.Laws.
--   Reconcile.Startup: `startupReconcile` of internal/reconcile/engine.go with the helpers that it
--     calls, and `SynthesizeDeletions` of internal/merkle/scanner.go; the laws are in Startup.Laws.
--   Reconcile.Engine: the state of internal/reconcile/engine.go and the batches of broadcast.go.
--     Engine.Local has `onLocalChange`, the two loops of `rescan` and `doReseed`; Queue the queue of
--     a puller and `execute`; Peers `reconcileWithPeer`; Completions `runFetch`, `handleCompletion`,
--     `onIndex` and `onIndexUpdate`, with the outcome of a fetch given. Rescan, Current, Authorship and
--     Bounded have the laws. Echo has what it means that a
--     leaf is unchanged, Sorted what a snapshot lists. A peer is known by its device, and a completion
--     finds it by its ShortID.
--   Reconcile.Engine.Connections: the events of transport and discovery in the engine's loop, with
--     the links of the connected devices, and those that a second connection of a device pushes out of
--     their table; the laws are in its children Laws and Queues.
--   Reconcile.Transfer: the block arithmetic and the request guard of
--     internal/reconcile/transfer.go.
--   Reconcile.Blocks: `serveRequest`, `fetchOverWire` and `atomicWriteVerify` of
--     internal/reconcile/transfer.go. Whole is about an honest source, Verified about any.
--   Reconcile.Debounce: internal/reconcile/scanloop.go, with the laws in Settle.
--   Discovery.Announce: internal/discovery/announce.go, with its laws in Laws.
--   Discovery.Registry: internal/discovery/registry.go, and the body of `readLoop` of
--     internal/discovery/discovery.go. Laws, Replay, Silence and Datagram have the theorems.
--   Protocol.DeviceId: internal/protocol/deviceid.go.
--   Merkle.Snapshot: internal/merkle/snapshot.go, with its theorem.
--   Transport.Allowlist: internal/transport/tls.go. Transport.Handshake: `establish` and `readHello`
--     of internal/transport/transport.go. Transport.Conn: the state of a connection of
--     internal/transport/conn.go. Transport.Machine: the steps of the goroutines of all connections,
--     with the theorems in Order, Close and Drain. Transport.Stream: the reader and the writer over a
--     whole stream. Transport.Identity: internal/transport/identity.go.
--   Command: the `-peer` flags of cmd/msync/main.go.
--
-- How the parts meet: a message carries leaves with encoded version vectors; `resolve` compares
-- two of them by `causality` and merges them by `merge`; the name of a conflict copy goes through
-- `canonicalize_slash`; a frame carries one message. `on_index` decodes the leaves of a peer, and
-- `reconcile_with_peer` builds the two trees, takes their `diff`, resolves each entry and puts the
-- fetches into the queue; `handle_completion` records what has landed and reconciles again.
--
-- Integers are natural numbers with the wrap-around written out; int64 is the type ℤ with the range
-- as a predicate. Strings, paths and byte arrays are lists of bytes. Maps are lists of entries. Each
-- loop is a recursion on the slice that it walks; `diff_nodes` runs on fuel, a depth that is enough for
-- the trees it is given, and `read_loop` on a number of rounds, of which one more than the stream has
-- bytes is enough. Goroutines are sequences of actions, one for each step up to where it waits.
--
-- Parameters: the Unicode normalisation (golang.org/x/text), with the laws that a name stays a name
-- and that it is idempotent; SHA-256, of which nothing is assumed; encoding/gob and the reading of PEM,
-- with the law that what is encoded is read back, for PEM a certificate that parses and the key that it
-- is made for; and what each call to the operating system, to the
-- other end of a socket and to the random source answers.
--
-- Not modelled: the channels of the engine as such and its tickers, the choice among local reuse and
-- the wire in a fetch and the listing against a clobber (their outcome is given), the watcher, which
-- wraps fsnotify, the sockets and the configuration of TLS, the walk of the scanner, and the case
-- folding and the way from a path of the operating system to a key. They are file system, network and
-- third-party code.
pub mod Base
pub mod Bytes
pub mod Protocol
pub mod Pathnorm
pub mod Merkle
pub mod Reconcile
pub mod Discovery
pub mod Transport
pub mod Command
