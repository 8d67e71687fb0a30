-- ===== src/Daemon/Connect.antt =====
-- internal/daemon/daemon.go: a tick of `connectLoop`, the end of a dial, `manualEndpoints` and
-- `ResolveManualPeer`. The resolver and the parser of a port are parameters.
pub mod Stored
pub mod Due
use lanclip.Base.{
  ℕ, Bool, false, not, ◌&&◌, Option, none, some, List, [], ◌∷◌, ◌++◌, map, Text, text_eq, text_lt,
  if◌then◌else◌, retain, any, Result, ok, err,
}
use lanclip.Base.Integers.{ℤ, pos, negsuc, in_range}
use lanclip.Base.Sorting.{sort_by}
use lanclip.Base.Unicode.{Unicode, trim_space}
use lanclip.Pairing.Types.{Peer, Store, state_eq, trusted}
use lanclip.Pairing.Store.{Call, get, list}
use lanclip.Discovery
use lanclip.Discovery.Direct.{Net, is_direct_ip}
use lanclip.Transport.Backoff.{Backoff, next, reset}
use lanclip.Daemon.Conns.{Registry, connected, begin_connect, end_connect, record_error}
use lanclip.Daemon.Control.{endpoint_of}

-- A dial that a tick starts: the ID, the store's entry, and the endpoints that are tried in turn.
pub record Dial : Type 0 where
  pub id : Text
  pub peer : Peer
  pub endpoints : List Text

-- The conditions before beginConnect.
unfoldable pub is_due : Text → Text → Option Peer → Registry → Bool
is_due local id none r = false
is_due local id (some p) r = state_eq p.state trusted && text_lt local id && not (connected id r)

-- beginConnect and the endpoints: without one the mark is taken back.
unfoldable pub begin_dial : Text → Peer → List Text → Registry → Registry × Option Dial
begin_dial id p endpoints r =
    let (r', mine) = begin_connect id r in
    if not mine then (r', none) else elim endpoints [
      | [] ↦ (end_connect id r', none)
      | e ∷ es ↦ (r', some (record { id = id; peer = p; endpoints = e ∷ es }))
    ]

abbrev pub dials_of : Option Dial → List Dial
dials_of none = []
dials_of (some d) = d ∷ []

-- Candidates in their order: the peer's ID, the store's entry, and the endpoints that it has then.
unfoldable pub start_dials :
    Text → List (Text × Option Peer × List Text) → Registry → Registry × List Dial
unfolding is_due begin_dial
start_dials local [] r = (r, [])
start_dials local ((id, none, es) ∷ cs) r = start_dials local cs r
start_dials local ((id, some p, es) ∷ cs) r =
    let (r', d) = if is_due local id (some p) r then begin_dial id p es r else (r, none) in
    let (r'', ds) = start_dials local cs r' in (r'', dials_of d ++ ds)

abbrev pub endpoint_list : (n : Net) → List n.Network → Discovery.Peer → List Text
endpoint_list n networks p = elim (endpoint_of n networks p) [ err e ↦ [] | ok e ↦ e ∷ [] ]

-- The first loop, over Peers: each Get is a call of the store of its own.
unfoldable pub found_candidates :
    (n : Net)
    → List n.Network
    → List (Call × Discovery.Peer)
    → Store
    → Store × List (Text × Option Peer × List Text)
found_candidates n networks [] s = (s, [])
found_candidates n networks ((c, p) ∷ ps) s =
    let (s', entry) = get c p.id s in
    let (s'', cs) = found_candidates n networks ps s' in
    (s'', (p.id, entry, endpoint_list n networks p) ∷ cs)

-- `seen`
abbrev pub is_seen : List (Call × Discovery.Peer) → Peer → Bool
is_seen found p = any (λ (c, q). text_eq q.id p.id) found

-- The second loop, over List; `resolve` is what manualEndpoints gives in the peer's turn.
unfoldable pub manual_candidates :
    List (Call × Discovery.Peer)
    → (Peer → List Text)
    → List Peer
    → List (Text × Option Peer × List Text)
unfolding any
manual_candidates found resolve [] = []
manual_candidates found resolve (p ∷ ps) =
    let rest = manual_candidates found resolve ps in
    if is_seen found p then rest else (p.id, some p, resolve p) ∷ rest

-- A tick: the dials that it starts, one after the other. `found` is what Peers returns, with the call of
-- Get for each, and `c` is the call of List.
unfoldable pub tick :
    (n : Net)
    → Text
    → List n.Network
    → (Peer → List Text)
    → List (Call × Discovery.Peer)
    → Call
    → Store × Registry
    → (Store × Registry) × List Dial
unfolding found_candidates manual_candidates start_dials
tick n local networks resolve found c (s, r) =
    let (s', cs) = found_candidates n networks found s in
    let (s'', stored) = list c s' in
    let (r', ds) = start_dials local (cs ++ manual_candidates found resolve stored) r in
    ((s'', r'), ds)

-- The error of the last endpoint, if dialSync fails on every one.
unfoldable pub last_error : List (Result Text (Unit {0})) → Option Text
last_error [] = none
last_error (ok x ∷ rs) = none
last_error (err e ∷ []) = some e
last_error (err e ∷ r ∷ rs) = last_error (r ∷ rs)

abbrev next_delay : (ℕ → ℕ) → Backoff → Backoff
next_delay rand b = elim (next rand b) [ none ↦ b | some (delay, b') ↦ b' ]

-- A dial's goroutine, given what dialSync returns on its endpoints.
unfoldable pub finish_dial :
    (ℕ → ℕ) → Text → List (Result Text (Unit {0})) → Registry × Backoff → Registry × Backoff
unfolding last_error
finish_dial rand id results (r, b) = elim (last_error results) [
  | none ↦ (end_connect id r, reset b)
  | some e ↦ (end_connect id (record_error id e r), next_delay rand b)
]

-- net.LookupIP, net.JoinHostPort with the port in decimal, net.SplitHostPort and fmt.Sscan.
pub record Resolver (n : Net) : Type 0 where
  pub lookup_ip : Text → Option (List n.Ip)
  pub join_host_port : n.Ip → ℕ → Text
  pub split_host_port : Text → Option (Text × Text)
  pub sscan : Text → Option ℤ

module _ (n : Net) (v : Resolver n) (u : Unicode) (networks : List n.Network) where
  -- ResolveManualPeer; no endpoint stands for its error.
  unfoldable pub resolve_manual_peer : Text → ℕ → List Text
  unfolding sort_by
  resolve_manual_peer host port = elim (v.lookup_ip (trim_space u host)) [
    | none ↦ []
    | some ips ↦
        sort_by text_lt
          (map (λ ip. v.join_host_port ip port) (retain (λ ip. is_direct_ip n ip networks) ips))
  ]

  abbrev pub resolve_at : Text → ℤ → List Text
  resolve_at host (pos port) =
      if in_range 1 65535 (pos port) then resolve_manual_peer host port else []
  resolve_at host (negsuc k) = []

  -- One entry of `manual_peers`.
  unfoldable pub manual_endpoint : ℕ → Text → List Text
  unfolding resolve_manual_peer
  manual_endpoint port host = elim (v.split_host_port host) [
    | none ↦ resolve_manual_peer host port
    | some (h, p) ↦ elim (v.sscan p) [ none ↦ [] | some q ↦ resolve_at h q ]
  ]

  unfoldable pub manual_endpoints : ℕ → List Text → List Text
  unfolding manual_endpoint
  manual_endpoints port [] = []
  manual_endpoints port (host ∷ hosts) = manual_endpoint port host ++ manual_endpoints port hosts
