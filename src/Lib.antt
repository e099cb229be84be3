-- ===== src/Lib.antt =====
-- YunPin input method: the synchronised phrase store, the relay and the replay lab, in Go.
--
-- A device keeps its learned phrases in an encrypted local store. Each phrase carries a replicated
-- state (counters by device, a pinned flag, presence) with hybrid logical clocks. A change goes into
-- the outbox; a worker stages one upload, sends it to the relay, commits it, and merges the page of
-- envelopes that comes back. The relay stores sealed envelopes, one hash chain per device, and hands
-- them out by cursor. The replay lab, apart from these, checks streams of input events.
--
-- Base                   shared names; numbers, bytes, text, maps, results, actions and their rules
-- Protocol/Clock         protocol/crdt.go: HLC and Compare
-- Protocol/Crdt          protocol/crdt.go: chooseBool, choosePresence, MergePhrase, MergeSetting
-- Protocol/Envelope      protocol/crypto.go: Seal, Open, EnvelopeHash, the padding and the header
-- Protocol/Wire          protocol/wire.go: ToWire, EnvelopeFromWire, EnvelopeFromDownload
-- Protocol/Boxes         protocol/boxes.go: sealed boxes, recovery and pairing packages, with the
--                        keys that protocol/crypto.go derives for them
-- LocalStore/Phrase      localstore/crdt_adapter.go on values: totalCounts, materializePhrase,
--                        ensurePhraseState, validatePayloadObject, MergePhrasePayload
-- LocalStore/HlcState    localstore/crdt_adapter.go: nextHLC, observeHLC
-- LocalStore/Store       localstore/store.go: the tables and upsert; Save: SaveExplicit and Delete;
--                        Learn: RecordSelection; Outbox: PendingEvents, AckPending, Snapshot; and
--                        Remote, for MergeRemotePayload of localstore/crdt_adapter.go
-- LocalStore/SyncState   localstore/sync_state.go: LoadSyncState, SavePreparedUpload,
--                        CommitPreparedUpload, AdvanceSyncCursor
-- LocalStore/Upload      localstore/crdt_adapter.go: ProtocolState, ProtocolPayload, SealEnvelope
-- Client/Session         syncclient/worker.go: the session, the messages and the database file
-- Client/Task            the actions of the worker on its file and the world
-- Client/Answer          syncclient/worker.go: decodeDownloads and the checks of the verdicts;
--                        syncclient/client.go: the checks of Sync
-- Client/Upload          syncclient/worker.go: the upload that prepare stages
-- Client/Worker          syncclient/worker.go: SyncOnce, SyncUntilIdle
-- Replay/Event           replaylab/event.go: the event; Validate: Validate, EncodeEventV1,
--                        DecodeEventV1
-- Replay/Sequence        replaylab/sequence.go: SequenceState.Accept
-- Agent/Runner           desktopagent/runner.go: the timing options, jitter, runLoop
-- Agent/Credentials      desktopagent/credentials.go: the bundle, Validate, Zero and
--                        EncodeCredentialBundle; Reader: DecodeCredentialBundle
-- Relay/Envelope         sync/internal/server/server.go: validateEnvelope, CanonicalHeader and the
--                        framing of sealed boxes; Upload and Box compare them with protocol/
-- Relay/Sync             sync/internal/server/server.go: syncEnvelopes
-- Relay/Pairing          sync/internal/server/server.go: createPairing, joinPairing,
--                        approvePairing, claimPairing
-- Relay/Accounts         sync/internal/server/server.go: createAccount, recoverAccount, requireAuth,
--                        revokeDevice, putKeyring
-- Relay/Limiter          sync/internal/server/server.go: ipLimiter.allow
--
-- A module under one of these proves what its name says; the Tests modules run the definitions on
-- concrete values.
--
-- State is passed explicitly: the tables are records of lists, an operation of the local store is an
-- action on them that may fail (Base/Exec), and an operation of the checkpoint, the relay or the
-- session returns the new state or an error, with which the transaction is rolled back. A Go string
-- is its list of bytes. A uint64 or uint32 is a natural number with its wrap-around or saturation
-- written out where the code has it, an int64 a signed one. A Go map is an association list, and two
-- maps are compared by what is read from them. Every loop runs over a list, but the rounds of
-- SyncUntilIdle, which run over their limit, and the counted loops of DecodeCredentialBundle; no
-- definition needs other fuel. The endless loop of runLoop is a list of the exchanges it makes until
-- its context ends.
--
-- Parameters stand for library code and the cryptography composed from it: JSON, HKDF and the
-- record cipher of the local store with the opaque object id (Vault), for the replay lab JSON,
-- UTF-8 and time (Platform), base64 (Base64), CBOR, SHA-256 and Ed25519 (Primitives), and for the
-- clients CBOR, HKDF, XChaCha20-Poly1305, Ed25519 and SHA-256 (Crypto, Codec, KeyAgreement), and
-- for the credentials the public key of a seed. What is relied on is stated as IsVault, IsCrypto,
-- IsCodec, IsKeyPair and IsBase64: what was sealed opens, what was signed verifies, what was
-- encoded decodes; of JSON only for records whose strings are all UTF-8, since it replaces other
-- bytes. The relay behind the transport, the clock and the random source are a World with a state
-- of its own.
--
-- Not modelled: opening of databases and SQL failures, HTTP and logging, key chains, process locks
-- and command lines, which are input and output; the Unicode tables behind OpaqueObjectID; the
-- relay's lists of devices and key rings, which it only reads; the report, journal and native
-- reader of the replay lab, the rest of the desktop agent, and the recovery codes of protocol; and
-- the C++ engine and the front ends, which are other programs.
pub mod Base
pub mod Protocol
pub mod LocalStore
pub mod Replay
pub mod Relay
pub mod Client
pub mod Agent
