-- ===== src/Daemon/Conns.antt =====
-- internal/daemon/daemon.go: the connections by peer, their statistics and the dials in progress. The
-- mutex makes each call one step. A connection is known by a handle, as Go compares pointers.
pub mod Liveness
use lanclip.Base.{
  ℕ, ◌+◌, ◌≡◌, Bool, true, false, not, Option, none, some, List, [], ◌∷◌, Text, ◌==◌, if◌then◌else◌,
  is_some, length, take, ltb,
}
use lanclip.Base.Dict.{Dict, lookup, insert, erase}

pub record Stats : Type 0 where
  pub connected : Bool
  pub address : Text
  pub last_sent : ℕ
  pub sent_bytes : ℕ
  pub last_received : ℕ
  pub received_bytes : ℕ
  pub reconnects : ℕ
  pub last_error : Text

abbrev pub no_stats : Stats
no_stats = record {
  connected = false;
  address = [];
  last_sent = 0;
  sent_bytes = 0;
  last_received = 0;
  received_bytes = 0;
  reconnects = 0;
  last_error = [];
}

pub record PeerConn : Type 0 where
  pub handle : ℕ
  pub id : Text
  pub address : Text
  pub outbound : Bool

-- The sockets closed and the `done` channels closed are kept as the handles that they belong to.
pub record Registry : Type 0 where
  pub conns : Dict PeerConn
  pub stats : Dict Stats
  pub connecting : Dict Bool
  pub closed : List ℕ
  pub done : List ℕ

-- d.stats[id], the zero value where there is none
abbrev pub or_no_stats : Option Stats → Stats
or_no_stats none = no_stats
or_no_stats (some s) = s

abbrev pub stats_of : Text → Registry → Stats
stats_of id r = or_no_stats (lookup id r.stats)

-- `s := d.stats[id]; …; d.stats[id] = s`
abbrev pub with_stats : Text → (Stats → Stats) → Registry → Registry
with_stats id f r = record r { stats = insert id (f (stats_of id r)) r.stats }

-- `d.conns[pc.id] == pc`
abbrev pub is_conn : Option PeerConn → PeerConn → Bool
is_conn none pc = false
is_conn (some c) pc = c.handle == pc.handle

abbrev close_old : Option PeerConn → Registry → Registry
close_old none r = r
close_old (some c) r = record r { closed = c.handle ∷ r.closed }

unfoldable pub register : PeerConn → Registry → Registry × Bool
register pc r =
    let old = lookup pc.id r.conns in
    if is_conn old pc then (r, false) else (
      close_old old (
          with_stats pc.id
            (λ s. record s {
              connected = true;
              address = pc.address;
              reconnects = s.reconnects + 1;
              last_error = [];
            })
            (record r { conns = insert pc.id pc r.conns })),
      true,
    )

unfoldable pub unregister : PeerConn → Registry → Registry
unregister pc r =
    let r' : Registry = record r { done = pc.handle ∷ r.done } in
    if is_conn (lookup pc.id r.conns) pc
    then with_stats pc.id (λ s. record s { connected = false })
        (record r' { conns = erase pc.id r.conns })
    else r'

unfoldable pub connected : Text → Registry → Bool
connected id r = is_some (lookup id r.conns)

-- d.connecting[id], false where it is missing
abbrev pub or_false : Option Bool → Bool
or_false none = false
or_false (some b) = b

unfoldable pub begin_connect : Text → Registry → Registry × Bool
begin_connect id r =
    if or_false (lookup id r.connecting)
    then (r, false)
    else (record r { connecting = insert id true r.connecting }, true)

unfoldable pub end_connect : Text → Registry → Registry
end_connect id r = record r { connecting = erase id r.connecting }

-- safeError: at most 300 bytes of the message
unfoldable pub safe_error : Text → Text
safe_error s = if ltb 300 (length s) then take 300 s else s

unfoldable pub record_error : Text → Text → Registry → Registry
unfolding safe_error
record_error id e r = with_stats id (λ s. record s { last_error = safe_error e }) r

-- The end of a turn of writeLoop, after a message was sent.
unfoldable pub record_sent : Text → ℕ → Text → Registry → Registry
record_sent id now text r =
    with_stats id (λ s. record s { last_sent = now; sent_bytes = length text }) r

-- The end of a turn of clipboardWriteLoop, after a text was written.
unfoldable pub record_received : Text → ℕ → Text → Registry → Registry
record_received id now text r =
    with_stats id (λ s. record s { last_received = now; received_bytes = length text }) r
