-- ===== src/Daemon/System.antt =====
-- internal/daemon/daemon.go: the whole service, as its goroutines take turns. A turn is what one of them does
-- between two waits; the calls of the store and of the registry are each under a mutex.
pub mod Steps
pub mod Stores
pub mod Turns
pub mod Calm
pub mod Linked
pub mod Traced
pub mod Vouched
pub mod Handles
pub mod Stopped
pub mod Sharing
pub mod Handshake
pub mod Reading
pub mod Origin
use lanclip.Base.{
  ℕ, ◌+◌, Bool, true, false, not, ◌&&◌, Option, none, some, List, [], ◌∷◌, ◌++◌, map, Text,
  if◌then◌else◌, Result, ok, err,
}
use lanclip.Identity.Certificate.{Certificate}
use lanclip.Pairing.Types.{Peer, Store}
use lanclip.Pairing.Store.{Call, trusted_fingerprint}
use lanclip.Sync.{Suppressor}
use lanclip.Protocol.{Message}
use lanclip.Transport.Backoff.{Backoff}
use lanclip.Discovery
use lanclip.Control.{Request}
use lanclip.Daemon.Rate.{Limiter}
use lanclip.Daemon.Run.{close_conns}
use lanclip.Daemon.Conns.{Registry, PeerConn, register, unregister, record_error}
use lanclip.Daemon.Clipboard.{
  InboundClipboard, Window, accepted_of, receive, broadcast, write_clipboard, write_peer,
}
use lanclip.Daemon.Clipboard as Clipboard
use lanclip.Daemon.Handshake.{greet}
use lanclip.Daemon.Control.{Fixed, Service, Turn}

-- A connection in handleSync, once TrustedFingerprint has found its peer and, where this device
-- dialled, its hello is out.
pub record Meeting : Type 0 where
  pub handle : ℕ
  pub peer : Peer
  pub outbound : Bool
  pub sent : Bool
  pub address : Text

-- The service with its connections: `looked` has those that wait for a hello, `accepted` those before
-- `register`, `linked` those with a read loop; `next` is a fresh handle. A text on its way has its
-- connection: `enqueued` and `received` until it is sent or written, `sent` and `written` then.
-- `stopped` says whether `close` has run.
pub record World : Type 0 where
  pub service : Service
  pub limiter : Limiter
  pub suppressor : Suppressor
  pub next : ℕ
  pub looked : List Meeting
  pub accepted : List PeerConn
  pub linked : List PeerConn
  pub enqueued : List (PeerConn × Message)
  pub sent : List (PeerConn × Message)
  pub received : List (PeerConn × InboundClipboard)
  pub written : List (PeerConn × InboundClipboard)
  pub stopped : Bool

-- New, with the store that was loaded.
abbrev pub new : Store → World
new s = record {
  service = record {
    store = s;
    found = [];
    registry = record { conns = []; stats = []; connecting = []; closed = []; done = [] };
  };
  limiter = record { global = record { window = 0; count = 0 }; rates = [] };
  suppressor = record { ttl = 5_000_000_000; entries = [] };
  next = 0;
  looked = [];
  accepted = [];
  linked = [];
  enqueued = [];
  sent = [];
  received = [];
  written = [];
  stopped = false;
}

abbrev pub with_store : Store → World → World
with_store s w = record w { service = record w.service { store = s } }

abbrev pub with_registry : Registry → World → World
with_registry r w = record w { service = record w.service { registry = r } }

-- The turns, with what the surroundings answer; `stops` is `close`, the last turn of Run, after which the
-- others may still come. A connection or a text is given by its place in its
-- list.
pub data Event (f : Fixed) : Type 0 where
  commands : Turn f.net → Request → Event f
  offers : ℕ → Text → Call → Certificate → Option Message → Option Text → Event f
  looks : Text → Bool → Bool → Text → Event f
  greets : ℕ → Call → Bool → Option Message → Event f
  registers : ℕ → Event f
  leaves : ℕ → Option Text → Event f
  copies : ℕ → Option Text → Text → Event f
  delivers : ℕ → ℕ → Result Text (Unit {0}) → Event f
  hears : ℕ → ℕ → Message → Window → Event f
  writes : ℕ → Clipboard.Turn → Event f
  observes : (Text → ℕ → Text) → ℕ → Discovery.ServiceEntry → Event f
  drops_enqueued drops_received : ℕ → Event f
  ticks : ℕ → List f.net.Network → (Peer → List Text) → (Discovery.Peer → Call) → Call → Event f
  dialled : (ℕ → ℕ) → Text → List (Result Text (Unit {0})) → Backoff → Event f
  stops : Event f

abbrev pub conn_of : Meeting → PeerConn
conn_of m = record { handle = m.handle; id = m.peer.id; address = m.address; outbound = m.outbound }

-- handleSync as far as the wait for the hello, on a fresh connection.
unfoldable pub look : Text → Bool → Bool → Text → World → World
look fp outbound sent address w =
    let w' : World = record w { next = w.next + 1 } in
    elim (trusted_fingerprint fp w.service.store) [
      | none ↦ w'
      | some p ↦ if outbound && not sent then w' else record w' {
        looked =
            record {
              handle = w.next;
              peer = p;
              outbound = outbound;
              sent = sent;
              address = address;
            }
            ∷ w.looked;
      }
    ]

abbrev pub accept_met : Option Peer → Meeting → World → World
accept_met none m w = w
accept_met (some p) m w = record w { accepted = conn_of m ∷ w.accepted }

-- The hello came in, or did not; `sent` is the outcome of the answer where the peer dialled.
unfoldable pub meet : (f : Fixed) → Call → Bool → Option Message → Meeting → World → World
meet f c sent incoming m w = elim incoming [
  | none ↦ w
  | some h ↦
      let (s', met) =
        greet f.unicode f.json c f.device.id m.outbound (if m.outbound then m.sent else sent) h
          m.peer w.service.store in
      accept_met met m (with_store s' w)
]

-- `register` and the start of the loops.
unfoldable pub link : PeerConn → World → World
link pc w =
    let (r', fresh) = register pc w.service.registry in
    if fresh then record (with_registry r' w) { linked = pc ∷ w.linked } else with_registry r' w

-- The end of readLoop, with the error that it records, and `unregister`.
unfoldable pub leave : PeerConn → Option Text → World → World
leave pc none w = with_registry (unregister pc w.service.registry) w
leave pc (some e) w = with_registry (unregister pc (record_error pc.id e w.service.registry)) w

abbrev pub came_over : PeerConn → InboundClipboard → PeerConn × InboundClipboard
came_over pc c = (pc, c)

unfoldable pub hear : ℕ → PeerConn → ℕ → Message → Window → World → World
hear max pc now m v w =
    let (v', a) = receive max pc.id now m v in
    record w { received = map (came_over pc) (accepted_of a) ++ w.received }

unfoldable pub copy : (f : Fixed) → ℕ → ℕ → Option Text → Text → World → World
copy f max now id text w =
    let (s', out) = broadcast f.sha.sum max now id text w.service.registry w.suppressor in
    record w { suppressor = s'; enqueued = out ++ w.enqueued }

abbrev pub note_sent : Result Text (Unit {0}) → PeerConn × Message → World → World
note_sent (ok x) q w = record w { sent = q ∷ w.sent }
note_sent (err e) q w = w

unfoldable pub deliver : ℕ → Result Text (Unit {0}) → PeerConn × Message → World → World
deliver now r (pc, m) w =
    let (r', more) = write_peer now pc r m w.service.registry in
    note_sent r (pc, m) (with_registry r' w)

abbrev pub note_written : Result Text (Unit {0}) → PeerConn × InboundClipboard → World → World
note_written (ok x) q w = record w { written = q ∷ w.written }
note_written (err e) q w = w

unfoldable pub write_text :
    (f : Fixed) → Clipboard.Turn → PeerConn × InboundClipboard → World → World
write_text f t (pc, c) w =
    let (r', s') = write_clipboard f.sha.sum t c w.service.registry w.suppressor in
    note_written t.written (pc, c) (record (with_registry r' w) { suppressor = s' })

-- What `close` does to the connections, which stay in the statistics. Their loops end in turns of their own.
unfoldable pub stop : World → World
unfolding close_conns
stop w = record (with_registry (close_conns w.service.registry) w) { stopped = true }
