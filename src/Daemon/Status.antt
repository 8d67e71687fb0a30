-- ===== src/Daemon/Status.antt =====
-- internal/daemon/daemon.go: what the service tells of itself: `peerStatuses`, `status` and `doctor`.
pub mod Honest
use lanclip.Base.{
  ℕ, Bool, false, not, ◌&&◌, ◌||◌, Option, none, some, List, [], ◌∷◌, ◌++◌, map, ◌==◌, Text, codes,
  text_eq, text_lt, has_prefix, if◌then◌else◌, length, retain, ltb, ◌%◌, is_ok,
}
use lanclip.Base.Dict.{Dict, lookup, insert}
use lanclip.Base.Decimal.{decimal}
use lanclip.Base.Sorting.{sort_by}
use lanclip.Pairing.Types.{State, state_eq, trusted, other, Peer}
use lanclip.Discovery
use lanclip.Daemon.Conns.{Stats, or_no_stats}
use lanclip.Clipboard.{Health}
use lanclip.Config.{check_private}

pub record PeerStatus : Type 0 where
  pub peer : Peer
  pub addresses : List Text
  pub stats : Stats

abbrev pub unpaired : State
unpaired = other (codes "unpaired")

-- The map `found`.
unfoldable pub found_by_id : List Discovery.Peer → Dict Discovery.Peer → Dict Discovery.Peer
found_by_id [] m = m
found_by_id (p ∷ ps) m = found_by_id ps (insert p.id p m)

abbrev pub addresses_of : Option Discovery.Peer → List Text
addresses_of none = []
addresses_of (some p) = p.addresses

-- `seen.Fingerprint != "" && !strings.HasPrefix(p.Fingerprint, seen.Fingerprint)`
abbrev pub has_changed : Peer → Option Discovery.Peer → Bool
has_changed p none = false
has_changed p (some seen) =
    not (text_eq seen.fingerprint []) && not (has_prefix p.fingerprint seen.fingerprint)

-- A stored peer, with what is known of it.
unfoldable pub stored_status : Dict Discovery.Peer → Dict Stats → Peer → PeerStatus
stored_status found stats p =
    let seen = lookup p.id found in
    let s = or_no_stats (lookup p.id stats) in
    record {
      peer = p;
      addresses = addresses_of seen;
      stats =
          if has_changed p seen
          then record s { last_error = codes "discovered peer identity changed" }
          else s;
    }

-- A peer that is only announced.
unfoldable pub found_status : Dict Stats → Text × Discovery.Peer → PeerStatus
found_status stats (id, seen) = record {
  peer = record {
    id = id;
    name = seen.name;
    fingerprint = seen.fingerprint;
    state = unpaired;
    comparison_code = [];
    approval_token = [];
    updated_at = 0;
  };
  addresses = seen.addresses;
  stats = or_no_stats (lookup id stats);
}

unfoldable pub is_stored : List Peer → Text → Bool
is_stored [] id = false
is_stored (p ∷ ps) id = text_eq p.id id || is_stored ps id

abbrev pub has_smaller_name : PeerStatus → PeerStatus → Bool
has_smaller_name p q = text_lt p.peer.name q.peer.name

-- The list before it is sorted by name.
abbrev pub listed : List Peer → Dict Discovery.Peer → Dict Stats → List PeerStatus
listed peers found stats =
    map (stored_status found stats) peers
    ++ map (found_status stats) (retain (λ (id, seen). not (is_stored peers id)) found)

-- peerStatuses, given what Peers and List return.
unfoldable pub peer_statuses : List Discovery.Peer → List Peer → Dict Stats → List PeerStatus
unfolding found_by_id stored_status found_status is_stored sort_by
peer_statuses seen peers stats = sort_by has_smaller_name (listed peers (found_by_id seen []) stats)

-- The maps `discovery` of the status.
pub record Browsing : Type 0 where
  pub last_browse : ℕ
  pub last_error : Text
  pub peers_seen : ℕ

pub record Status : Type 0 where
  pub version : Text
  pub uptime : Text
  pub name : Text
  pub device_id : Text
  pub fingerprint : Text
  pub clipboard : Health
  pub discovery : Browsing
  pub peers : List PeerStatus

pub record DoctorCheck : Type 0 where
  pub name : Text
  pub okay : Bool
  pub detail : Text

-- What `doctor` finds out from the system: the modes of four files, if they are there, the
-- listener, and on Linux the programs and the session. A time of 0 stands for none.
pub record Probes : Type 0 where
  pub config_mode : Option ℕ
  pub identity_mode : Option ℕ
  pub peers_mode : Option ℕ
  pub socket_mode : Option ℕ
  pub listens : Bool
  pub listen_port : ℕ
  pub is_linux : Bool
  pub has_tools : Bool
  pub has_session : Bool
  pub format_time : ℕ → Text

abbrev pub ternary : Bool → Text → Text → Text
ternary b x y = if b then x else y

abbrev pub clip_detail : Health → Text
clip_detail h =
    if h.running
    then codes "watching for text changes"
    else ternary (text_eq h.last_error []) (codes "watcher is not running") h.last_error

abbrev pub check : Text → Bool → Text → Text → DoctorCheck
check name b good bad = record { name = name; okay = b; detail = ternary b good bad }

abbrev pub device_s : ℕ → Text
device_s n = ternary (n == 1) (codes "device") (codes "devices")

abbrev pub linux_checks : Probes → List DoctorCheck
linux_checks q =
    if q.is_linux
    then check (codes "wl-clipboard") q.has_tools (codes "wl-paste and wl-copy found")
        (codes "install wl-paste and wl-copy")
      ∷ check (codes "Wayland session") q.has_session (codes "session variables available")
          (codes "WAYLAND_DISPLAY and XDG_RUNTIME_DIR are required")
      ∷ []
    else []

abbrev pub is_trusted : Peer → Bool
is_trusted p = state_eq p.state trusted

-- A file that cannot be read counts as open to all: 0777.
unfoldable pub file_mode : Option ℕ → ℕ
file_mode none = 511
file_mode (some mode) = mode

abbrev pub is_private : Option ℕ → Bool
is_private mode = is_ok (check_private mode)

-- The checks: `peers` is what List returns.
unfoldable pub doctor : Probes → Health → Browsing → List Peer → List DoctorCheck
unfolding decimal state_eq file_mode check_private
doctor q clip b peers =
    let trusts = length (retain is_trusted peers) in
    let port = decimal q.listen_port in
    check (codes "config permissions") (is_private q.config_mode) (codes "private (0600)")
      (codes "config file must be mode 0600")
    ∷ check (codes "identity permissions") (is_private q.identity_mode) (codes "private (0600)")
        (codes "identity file must be mode 0600")
    ∷ check (codes "peer store permissions") (is_private q.peers_mode) (codes "private (0600)")
        (codes "peer store must be mode 0600")
    ∷ record { name = codes "clipboard watcher"; okay = clip.running; detail = clip_detail clip }
    ∷ check (codes "control socket") (file_mode q.socket_mode % 64 == 0) (codes "user-only")
        (codes "socket permissions are too broad")
    ∷ check (codes "listener port") q.listens (codes "listening on TCP " ++ port)
        (codes "not listening on TCP " ++ port)
    ∷ (linux_checks q
        ++ (record {
          name = codes "mDNS browse";
          okay = text_eq b.last_error [] && not (b.last_browse == 0);
          detail =
              ternary (text_eq b.last_error [])
                (codes "last browse " ++ q.format_time b.last_browse) b.last_error;
        }
            ∷ record {
              name = codes "peer discovery";
              okay = ltb 0 b.peers_seen;
              detail =
                  decimal b.peers_seen
                  ++ codes " nearby "
                  ++ device_s b.peers_seen
                  ++ codes " found";
            }
            ∷ record {
              name = codes "peer authentication";
              okay = ltb 0 trusts;
              detail = decimal trusts ++ codes " paired " ++ device_s trusts;
            }
            ∷ []))
