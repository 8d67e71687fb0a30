-- ===== src/Pairing/Valid.antt =====
-- internal/pairing/store.go: what a store looks like between two calls.
use lanclip.Base.{ℕ, ◌≤◌, ◌≡◌, ◌≢◌, [], Text, arith, length}
use lanclip.Base.Dict.{NodupKeys, Every, keep_values-NodupKeys, length-keep_values-le}
use lanclip.Base.Entries.{keep_values-Every}
use lanclip.Pairing.Types.{pending, Peer, Store}
use lanclip.Pairing.Store.{is_fresh, prune_pending_locked}

-- A pending entry stands under its own ID, in state `pending`.
abbrev pub IsRequest : Text → Peer → Type 0
IsRequest id p = (p.id ≡ id) × (p.state ≡ pending)

-- An entry of `peers` is decided, and keeps no secret of the pairing session.
abbrev pub IsDecided : Text → Peer → Type 0
IsDecided id p = (p.state ≢ pending) × (p.approval_token ≡ []) × (p.comparison_code ≡ [])

pub record IsValid (s : Store) : Type 0 where
  pub peers_nodup : NodupKeys s.peers
  pub pending_nodup : NodupKeys s.pending_peers
  pub decided : Every IsDecided s.peers
  pub requests : Every IsRequest s.pending_peers
  pub bounded : length s.pending_peers ≤ s.max_pending

pub prune-IsValid : (now : ℕ) (s : Store) → IsValid s → IsValid (prune_pending_locked now s)
unfolding prune_pending_locked
prune-IsValid now s v = record {
  peers_nodup = v.peers_nodup;
  pending_nodup = keep_values-NodupKeys _ s.pending_peers v.pending_nodup;
  decided = v.decided;
  requests = keep_values-Every IsRequest _ s.pending_peers v.requests;
  bounded =
      omega (arith, v.bounded, length-keep_values-le (is_fresh now s.pending_ttl) s.pending_peers);
}

-- A change of the two maps and the disk that keeps the invariant.
pub with_maps :
    (s t : Store)
    → t.max_pending ≡ s.max_pending
    → NodupKeys t.peers
    → NodupKeys t.pending_peers
    → Every IsDecided t.peers
    → Every IsRequest t.pending_peers
    → length t.pending_peers ≤ s.max_pending
    → IsValid t
with_maps s t m a b c d e = record {
  peers_nodup = a;
  pending_nodup = b;
  decided = c;
  requests = d;
  bounded = omega arith;
}
