-- ===== src/Discovery.antt =====
-- internal/discovery/discovery.go: the table of announced peers and the choice of an address. The
-- zeroconf library, the network interfaces and the `net` package are parameters.
pub mod Table
pub mod Direct
pub mod Networks
pub mod Browse
pub mod Registration
use lanclip.Base.{
  ℕ, ◌+◌, Bool, true, false, not, ◌&&◌, ◌||◌, Option, none, some, List, [], ◌∷◌, ◌++◌, map, ◌==◌,
  Text, codes, text_eq, text_lt, has_prefix, ltb, leb, if◌then◌else◌, length, find?, any, is_some,
}
use lanclip.Base.Dict.{Dict, lookup, insert, erase, keep_values}
use lanclip.Base.Sorting.{sort_by}
use lanclip.Base.Unicode.{Unicode}
use lanclip.Identity.Uuid.{valid_uuid}
use lanclip.Identity.Hex.{valid_fingerprint}
use lanclip.Pairing.Name.{normalize_device_name}

-- In nanoseconds.
abbrev pub peer_ttl : ℕ
peer_ttl = 45000000000

abbrev pub max_peers : ℕ
max_peers = 256

pub record Peer : Type 0 where
  pub id : Text
  pub name : Text
  pub fingerprint : Text
  pub os : Text
  pub port : ℕ
  pub addresses : List Text
  pub last_seen : ℕ

-- What a zeroconf.ServiceEntry announces; IP addresses are given as `ip.String()`.
pub record ServiceEntry : Type 0 where
  pub instance_name : Text
  pub text : List Text
  pub addr_ipv4 : List Text
  pub addr_ipv6 : List Text
  pub port : ℕ

-- strings.SplitN(v, "=", 2) where it gives two parts.
unfoldable pub split_field : Text → Option (Text × Text)
split_field [] = none
split_field (c ∷ s) =
    let rest = split_field s in
    if c == b'=' then some ([], s) else elim rest [ none ↦ none | some (k, v) ↦ some (c ∷ k, v) ]

-- The map `fields`: of two values under one key the later stays.
unfoldable pub read_fields : List Text → Dict Text → Dict Text
unfolding split_field
read_fields [] m = m
read_fields (v ∷ vs) m = elim (split_field v) [
  | none ↦ read_fields vs m
  | some (k, x) ↦ read_fields vs (insert k x m)
]

-- A missing key reads as the empty string.
abbrev pub field : Text → Dict Text → Text
field k m = elim (lookup k m) [ none ↦ [] | some v ↦ v ]

-- `p.LastSeen.After(now.Add(-peerTTL))`
abbrev pub is_recent : ℕ → Peer → Bool
is_recent now p = ltb now (p.last_seen + peer_ttl)

unfoldable pub prune_locked : ℕ → Dict Peer → Dict Peer
prune_locked now m = keep_values (is_recent now) m

-- The loop of putPeerLocked over the peers: oldestID, given oldestID and oldest so far.
unfoldable pub oldest : Dict Peer → Text → ℕ → Text
oldest [] id seen = id
oldest ((j, p) ∷ m) id seen =
    let rest = oldest m id seen in
    let next = oldest m j p.last_seen in
    if text_eq id [] || ltb p.last_seen seen then next else rest

unfoldable pub put_peer_locked : Peer → Dict Peer → Dict Peer
unfolding prune_locked oldest
put_peer_locked p m =
    let live = prune_locked p.last_seen m in
    if not (is_some (lookup p.id live)) && leb max_peers (length live)
    then insert p.id p (erase (oldest live [] 0) live)
    else insert p.id p live

-- The five conditions of observe on the fields and the normalised name.
unfoldable pub is_announcement : Text → Dict Text → Text → Bool
is_announcement self fields name =
    valid_uuid (field (codes "id") fields)
    && not (text_eq (field (codes "id") fields) self)
    && text_eq (field (codes "v") fields) (codes "1")
    && valid_fingerprint (field (codes "pk") fields) 8
    && not (text_eq name [])

-- The peer that observe puts; `join` is net.JoinHostPort of an address and the decimal port.
abbrev pub announced : Unicode → (Text → ℕ → Text) → ℕ → ServiceEntry → Dict Text → Peer
announced u join now e fields = record {
  id = field (codes "id") fields;
  name = normalize_device_name u e.instance_name;
  fingerprint = field (codes "pk") fields;
  os = field (codes "os") fields;
  port = e.port;
  addresses = sort_by text_lt (map (λ ip. join ip e.port) (e.addr_ipv4 ++ e.addr_ipv6));
  last_seen = now;
}

unfoldable pub observe :
    Unicode → (Text → ℕ → Text) → Text → ℕ → ServiceEntry → Dict Peer → Dict Peer
unfolding read_fields is_announcement put_peer_locked
observe u join self now e m =
    let fields = read_fields e.text [] in
    if is_announcement self fields (normalize_device_name u e.instance_name)
    then put_peer_locked (announced u join now e fields) m
    else m

abbrev pub has_smaller_name : Peer → Peer → Bool
has_smaller_name p q = text_lt p.name q.name

abbrev pub values : Dict Peer → List Peer
values = map (λ (id, p). p)

-- Peers: the table after the removal, and its peers by name.
unfoldable pub peers : ℕ → Dict Peer → Dict Peer × List Peer
unfolding prune_locked sort_by
peers now m = let live = prune_locked now m in (live, sort_by has_smaller_name (values live))

unfoldable pub is_found : Unicode → Text → Text × Peer → Bool
is_found u query (k, p) =
    text_eq p.id query || text_eq (u.to_lower p.name) (u.to_lower query) || has_prefix p.id query

unfoldable pub find : Unicode → ℕ → Text → Dict Peer → Dict Peer × Option Peer
unfolding prune_locked is_found
find u now query m =
    let live = prune_locked now m in
    elim (find? (is_found u query) live) [ none ↦ (live, none) | some (k, p) ↦ (live, some p) ]
