-- ===== src/Lib.antt =====
-- lanclip: clipboard sync between devices of one local network.
--
-- A service (internal/daemon) finds other devices by mDNS (internal/discovery), pairs with them after
-- the user has compared a code on both screens, keeps the peers in a file (internal/pairing), and
-- sends texts as frames (internal/protocol) over mutually authenticated TLS (internal/transport)
-- between self-signed identities (internal/identity). A text that it has just written to the local
-- clipboard is not sent back (internal/sync). The command line (cmd/lanclip) talks to the service.
--
-- Which file models what:
--   Pairing/Types, Disk, Store, Changes, Load, Code   internal/pairing/store.go: `Store` is the struct
--     without its mutex, path and clock; `save_locked` is saveLocked, `put_pending`, `approve`,
--     `reject`, `unpair`, `update_name`, `resolve`, `get`, `list` and `load` are the methods and
--     functions of these names; Runs composes them to histories. Valid and Mirror hold what is kept
--     between two calls; the children of Changes, Load and Store hold the proofs.
--   Pairing/Name             internal/pairing/name.go: NormalizeDeviceName
--   Identity/Uuid, Hex, Parse, Certificate            internal/identity/identity.go, and
--     ValidateCertificateIdentity of internal/daemon/daemon.go
--   Sync                     internal/sync/suppression.go
--   Transport/Backoff, Tls   internal/transport/backoff.go and tls.go: `verify_client` and
--     `verify_server` are the VerifyConnection functions of ServerConfig and ClientConfig
--   Protocol                 internal/protocol/protocol.go
--   Daemon/Rate              allowPairAttempt and pairRateKey of internal/daemon/daemon.go
--   Config                   internal/config: the paths, the configuration file and the device name
--   Identity/Create          LoadOrCreate and create of internal/identity/identity.go
--   Clipboard                internal/clipboard: the watch events on Linux, the poll on macOS, the writes;
--     Clipboard/Adapter has Start, Close and the loops of the adapters
--   Control                  internal/control/control.go: Call, and a connection of serve; Control/Listen has
--     Listen, Close and the loop of serve
--   Daemon/Pair              handleIncomingPair, and pair from the answer on; Pair/Agree joins the two
--   Daemon/Handshake         handleSync up to register
--   Daemon/Conns             register, unregister, beginConnect, endConnect and the statistics
--   Daemon/Slot              enqueuePeer and enqueueClipboard, select by select, on channels of one value
--   Daemon/Clipboard         the reader of readLoop, and the turns of localLoop, writeLoop and
--     clipboardWriteLoop; Travel follows a text from one device's clipboard to another's
--   Daemon/Accept            acceptLoop and handleTLS
--     (Accept/Histories: the handshakes as they come and go)
--   Daemon/Connect           connectLoop tick by tick, and ResolveManualPeer; Connect/Stored where the
--     entries come from that a tick goes by
--   Daemon/System            the whole service: its state, and its goroutines' turns in any order. System/Steps
--     has the histories; Stores, Turns and Calm say what a turn does to the store and to the registry,
--     Origin where trust comes from, Stopped which histories have closed the service, Linked, Traced,
--     Vouched and Handles which connection has which certificate, Sharing what this means for the
--     clipboard, Handshake and Reading how the turns of a connection make up handleSync and readLoop
--   Daemon/Start, Run        runDaemon of cmd/lanclip/main.go; Run and close
--   Daemon/Status, Control   peerStatuses, status, doctor; handleControl and pair. Control/Prompt joins
--     the command line, the list of peers and the store; Control/Answer joins the socket and the
--     handler; Control/Unpair joins handleSync and "unpair"; Control/Session and Control/Consent join a
--     whole run of the command line, the socket and the handler.
--   Discovery                internal/discovery/discovery.go: the table of peers, the choice of an address,
--     in Discovery/Registration the announcement of this device, in Discovery/Browse the loop of Run,
--     in Discovery/Networks activeLANNetworks, and in Networks/Endpoint what directEndpoint makes of it
--   Cli                      cmd/lanclip/cli.go: from the list of devices to the request; Cli/Report is
--     what `status`, `peers` and `doctor` print, Cli/Dispatch the choice by the arguments, Cli/Session
--     runControl with its calls of the service
--   Base                     maps, texts, results, int64, and the lemmas that the parts share
--   Tests                    concrete runs, and the theorems applied to them
--
-- How the parts meet: Transport/Tls asks the store for a pinned fingerprint, Daemon/Handshake does it
-- again and takes the peer's new name into the store, Daemon/Pair puts requests into it, and Cli sends
-- the token, fingerprint and code that `approve` compares, over Control to Daemon/Control, which calls
-- the store. Daemon/Clipboard asks Sync before it broadcasts, and Clipboard reads frames as Protocol
-- does. Identity and Pairing/Name check what comes from the network in Discovery and Daemon/Pair.
--
-- Conventions. A text is the list of its bytes (of its runes in Pairing/Name and Cli/Report). A
-- time is a number of nanoseconds. A method that holds a mutex throughout is
-- one step; refreshRegistration, which registers before it locks, is two. A call is given what
-- its surroundings answer: the readings of the clock, random bytes, and which steps of a save
-- succeed. A Go map is an association list, whose order stands for the order of iteration. A
-- duration in Transport/Backoff is an int64 with its wrap-around. Loops run over a list or a
-- count; only Base/Decimal has fuel, one more than the number whose digits it prints, which has no
-- more digits than that. The steps of Daemon/Slot are those of one caller and one receiver, or
-- with `shared` of several callers. In Daemon/System a turn is what a goroutine does between two waits;
-- a tick of connectLoop, whose calls of the store are made one by one, is one turn. A text is on its way
-- as long as no turn drops it, which is what the channels of Daemon/Slot may do at any time.
--
-- Parameters, with what is asked of them where a theorem needs it: the JSON codec (what was encoded
-- reads back; the order of a map does not show), SHA-256 (32 bytes), the Unicode tables, the parsers of
-- PEM, X.509 and IP addresses, the TLS handshake, rand.Int63n (a number below its argument).
--
-- Not modelled: logging; the menus and questions as they are printed; printHelp; Sleep and the
-- tickers and time limits around the handlers. They call the system, or concern its scheduling.
pub mod Base
pub mod Pairing
pub mod Identity
pub mod Sync
pub mod Transport
pub mod Protocol
pub mod Daemon
pub mod Discovery
pub mod Cli
pub mod Config
pub mod Control
pub mod Clipboard
pub mod Tests
