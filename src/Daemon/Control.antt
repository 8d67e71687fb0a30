-- ===== src/Daemon/Control.antt =====
-- internal/daemon/daemon.go: `handleControl`, which answers the command line, and the start of `pair`.
pub mod Prompt
pub mod Quiet
pub mod Trust
pub mod Answer
pub mod Unpair
pub mod Session
pub mod Consent
use lanclip.Base.{
  ℕ, Bool, true, false, not, Option, none, some, List, [], ◌∷◌, Text, codes, text_eq, if◌then◌else◌,
  Result, ok, err, length,
}
use lanclip.Base.Dict.{Dict, lookup}
use lanclip.Base.Unicode.{Unicode}
use lanclip.Identity.Hex.{Sha256}
use lanclip.Identity.Certificate.{Certificate}
use lanclip.Pairing.Types.{Peer, Store, Error, trusted}
use lanclip.Pairing.Disk.{PeersJson}
use lanclip.Pairing.Store.{Call, list, resolve}
use lanclip.Pairing.Changes.{approve, reject, unpair}
use lanclip.Protocol.{Message}
use lanclip.Discovery
use lanclip.Discovery.Direct.{Net, direct_endpoint}
use lanclip.Control.{Request, Response}
use lanclip.Clipboard.{Health}
use lanclip.Daemon.Conns.{Registry, PeerConn, safe_error}
use lanclip.Daemon.Pair.{Device, accept_answer}
use lanclip.Daemon.Status.{PeerStatus, Status, Browsing, DoctorCheck, Probes, peer_statuses, doctor}

-- The errors that a command can end with.
pub data Failure : Type 0 where
  of_store : Error → Failure
  not_discovered unknown_command : Text → Failure
  no_address no_direct_address no_config no_connection no_nonce not_sent no_answer not_paired :
      Failure

-- What is in `Data`.
pub data Payload : Type 0 where
  of_status : Status → Payload
  of_peers : List PeerStatus → Payload
  of_peer : Peer → Payload
  of_checks : List DoctorCheck → Payload

-- What does not change while the service runs. `say` is the text of an error.
pub record Fixed : Type 1 where
  pub unicode : Unicode
  pub json : PeersJson
  pub sha : Sha256
  pub device : Device
  pub version : Text
  pub net : Net
  pub say : Failure → Text

-- The daemon's parts that commands read or change.
pub record Service : Type 0 where
  pub store : Store
  pub found : Dict Discovery.Peer
  pub registry : Registry

-- What happens to the connection that `pair` opens: the client's configuration, the dial with the
-- certificate that the peer shows, the nonce, the offer and the answer.
pub record Attempt : Type 0 where
  pub configured : Bool
  pub connected : Option Certificate
  pub nonce : Option Text
  pub sent : Bool
  pub answer : Option Message

-- The surroundings of one command: the two calls of the store and of the discovery that a command makes at
-- most, and what the other components answer.
pub record Turn (n : Net) : Type 0 where
  pub call : Call
  pub next_call : Call
  pub now : ℕ
  pub next_now : ℕ
  pub uptime : Text
  pub clipboard : Health
  pub last_browse : ℕ
  pub browse_error : Text
  pub probes : Probes
  pub networks : List n.Network
  pub attempt : Attempt

-- Endpoint
unfoldable pub endpoint_of : (n : Net) → List n.Network → Discovery.Peer → Result Failure Text
unfolding direct_endpoint
endpoint_of n networks p = elim p.addresses [
  | [] ↦ err no_address
  | a ∷ more ↦ elim (direct_endpoint n (a ∷ more) networks) [
    | none ↦ err no_direct_address
    | some e ↦ ok e
  ]
]

-- The outcome of `pair`, which leaves a pending entry if it succeeds.
abbrev pub paired : Store × Option Peer → Store × Result Failure Peer
paired (s, none) = (s, err not_paired)
paired (s, some p) = (s, ok p)

-- d.getConn(id) and `c.conn.Close()`: the read loop of the connection then unregisters it.
abbrev pub close_conn : Option PeerConn → Registry → Registry
close_conn none r = r
close_conn (some c) r = record r { closed = c.handle ∷ r.closed }

module _ (f : Fixed) where
  -- `pair` from the connection on.
  unfoldable pub exchange : Call → Attempt → Discovery.Peer → Store → Store × Result Failure Peer
  exchange c a p s = if not a.configured then (s, err no_config) else elim a.connected [
    | none ↦ (s, err no_connection)
    | some cert ↦ elim a.nonce [
      | none ↦ (s, err no_nonce)
      | some nonce ↦ if not a.sent then (s, err not_sent) else elim a.answer [
        | none ↦ (s, err no_answer)
        | some m ↦
            paired (accept_answer f.unicode f.sha c f.device cert p.id p.fingerprint nonce m s)
      ]
    ]
  ]

  unfoldable pub pair : Turn f.net → Text → Service → Service × Result Failure Peer
  unfolding exchange endpoint_of
  pair t query d =
      let (found', p) = Discovery.find f.unicode t.now query d.found in
      let d' : Service = record d { found = found' } in
      elim p [
        | none ↦ (d', err (not_discovered query))
        | some p ↦ elim (endpoint_of f.net t.networks p) [
          | err e ↦ (d', err e)
          | ok endpoint ↦
              let (s', r) = exchange t.call t.attempt p d.store in (record d' { store = s' }, r)
        ]
      ]

  unfoldable pub fail : Failure → Response Payload
  unfolding safe_error
  fail e = record { okay = false; error = safe_error (f.say e); payload = none }

  abbrev pub done : Response Payload
  done = record { okay = true; error = []; payload = none }

  abbrev pub with_payload : Payload → Response Payload
  with_payload x = record { okay = true; error = []; payload = some x }

  -- `result` of a method of the store
  abbrev pub result : Service → Store × Result Error (Unit {0}) → Service × Response Payload
  result d (s, ok x) = (record d { store = s }, done)
  result d (s, err e) = (record d { store = s }, fail (of_store e))

  abbrev pub pair_result : Service × Result Failure Peer → Service × Response Payload
  pair_result (d, ok p) = (d, with_payload (of_peer p))
  pair_result (d, err e) = (d, fail e)

  abbrev pub browsing : Turn f.net → List Discovery.Peer → Browsing
  browsing t seen = record {
    last_browse = t.last_browse;
    last_error = t.browse_error;
    peers_seen = length seen;
  }

  unfoldable pub answer_peers : Turn f.net → Service → Service × List PeerStatus
  unfolding peer_statuses
  answer_peers t d =
      let (found', seen) = Discovery.peers t.next_now d.found in
      let (s', stored) = list t.call d.store in
      (record d { found = found'; store = s' }, peer_statuses seen stored d.registry.stats)

  unfoldable pub answer_status : Turn f.net → Service → Service × Status
  unfolding answer_peers
  answer_status t d =
      let (found', seen) = Discovery.peers t.now d.found in
      let (d', statuses) = answer_peers t (record d { found = found' }) in
      (
        d',
        record {
          version = f.version;
          uptime = t.uptime;
          name = f.device.name;
          device_id = f.device.id;
          fingerprint = f.device.fingerprint;
          clipboard = t.clipboard;
          discovery = browsing t seen;
          peers = statuses;
        },
      )

  unfoldable pub answer_doctor : Turn f.net → Service → Service × List DoctorCheck
  unfolding doctor
  answer_doctor t d =
      let (s', stored) = list t.call d.store in
      let (found', seen) = Discovery.peers t.now d.found in
      (
        record d { found = found'; store = s' },
        doctor t.probes t.clipboard (browsing t seen) stored,
      )

  -- The case "unpair": the connection is closed first.
  unfoldable pub unpair_peer : Turn f.net → Text → Service → Service × Response Payload
  unfolding fail
  unpair_peer t query d =
      let (s', r) = resolve f.unicode t.call query (trusted ∷ []) d.store in
      elim r [
        | err e ↦ (record d { store = s' }, fail (of_store e))
        | ok (id, p) ↦
            result (record d { registry = close_conn (lookup id d.registry.conns) d.registry })
              (unpair f.unicode f.json t.next_call id s')
      ]

  unfoldable pub handle_control : Turn f.net → Service → Request → Service × Response Payload
  unfolding pair answer_status answer_doctor unpair_peer
  handle_control t d r =
      if text_eq r.command (codes "status")
      then (let (d', s) = answer_status t d in (d', with_payload (of_status s)))
      else if text_eq r.command (codes "peers")
      then (let (d', ps) = answer_peers t d in (d', with_payload (of_peers ps)))
      else if text_eq r.command (codes "pair")
      then pair_result (pair t r.argument d)
      else if text_eq r.command (codes "approve")
      then result d
          (approve f.unicode f.json t.call r.argument r.pair_token r.fingerprint r.code d.store)
      else if text_eq r.command (codes "reject")
      then result d (reject f.unicode f.json t.call r.argument d.store)
      else if text_eq r.command (codes "unpair")
      then unpair_peer t r.argument d
      else if text_eq r.command (codes "doctor")
      then (let (d', cs) = answer_doctor t d in (d', with_payload (of_checks cs)))
      else (d, fail (unknown_command r.command))
