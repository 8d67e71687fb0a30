-- ===== src/Pairing/Store.antt =====
-- internal/pairing/store.go: the methods of `Store`. The mutex makes each call one step. A call takes
-- the readings of the clock and the outcomes of the random source and the file system as arguments.
pub mod Resolve
use lanclip.Base.{
  ℕ, ◌+◌, Bool, true, not, ◌&&◌, ◌||◌, Option, none, some, List, [], ◌∷◌, ◌++◌, map, Text, text_eq,
  text_lt, has_prefix, ltb, if◌then◌else◌, retain, find?, any, is_some, Result, ok, err,
}
use mathlib.Core.Option.{or_else}
use lanclip.Base.Dict.{Dict, lookup, keep_values, when}
use lanclip.Base.Sorting.{sort_by}
use lanclip.Base.Unicode.{Unicode, trim_space}
use lanclip.Pairing.Types.{
  State, pending, trusted, state_eq, Peer, Store, Error, no_pending_match, no_match, ambiguous,
}
use lanclip.Pairing.Disk.{SaveIo}

-- The surroundings of one call: two readings of `s.now`, a nonce if the random source gives one, and
-- the outcomes of a save.
pub record Call : Type 0 where
  pub prune_time : ℕ
  pub stamp_time : ℕ
  pub nonce : Option Text
  pub io : SaveIo

-- `now.Before(p.UpdatedAt.Add(ttl))`
abbrev pub is_fresh : ℕ → ℕ → Peer → Bool
is_fresh now ttl p = ltb now (p.updated_at + ttl)

unfoldable pub prune_pending_locked : ℕ → Store → Store
prune_pending_locked now s = record s {
  pending_peers = keep_values (is_fresh now s.pending_ttl) s.pending_peers;
}

-- The closure `allowed`: no states given allow all.
unfoldable pub allowed : List State → Peer → Bool
unfolding any state_eq
allowed [] p = true
allowed (st ∷ states) p = any (state_eq p.state) (st ∷ states)

unfoldable pub matches_query : Unicode → List State → Text → Text × Peer → Bool
matches_query u states query (id, p) =
    allowed states p && (u.equal_fold p.name query || has_prefix id query)

abbrev no_match_error : List State → Error
no_match_error (pending ∷ []) = no_pending_match
no_match_error _ = no_match

unfoldable pub choose : List State → List (Text × Peer) → Result Error (Text × Peer)
choose states [] = err (no_match_error states)
choose states (m ∷ []) = ok m
choose states (m ∷ n ∷ more) = err ambiguous

unfoldable pub matches : Unicode → Store → Text → List State → List (Text × Peer)
unfolding matches_query
matches u s query states =
    retain (matches_query u states query) s.peers
    ++ retain (matches_query u states query) s.pending_peers

unfoldable pub resolve_locked : Unicode → Store → Text → List State → Result Error (Text × Peer)
unfolding choose
resolve_locked u s query states =
    let q = trim_space u query in
    elim (when (allowed states) (lookup q s.pending_peers)) [
      | some p ↦ ok (q, p)
      | none ↦ elim (when (allowed states) (lookup q s.peers)) [
        | some p ↦ ok (q, p)
        | none ↦ choose states (matches u s q states)
      ]
    ]

-- Resolve
unfoldable pub resolve :
    Unicode → Call → Text → List State → Store → Store × Result Error (Text × Peer)
resolve u c query states s =
    let s' = prune_pending_locked c.prune_time s in (s', resolve_locked u s' query states)

-- Get: a pending entry hides one of `peers`.
unfoldable pub get : Call → Text → Store → Store × Option Peer
get c id s =
    let s' = prune_pending_locked c.prune_time s in
    (s', or_else (lookup id s'.pending_peers) (lookup id s'.peers))

abbrev pub values : Dict Peer → List Peer
values = map (λ (id, p). p)

abbrev pub has_trusted_fingerprint : Text → Peer → Bool
has_trusted_fingerprint fp p = state_eq p.state trusted && text_eq p.fingerprint fp

-- TrustedFingerprint
unfoldable pub trusted_fingerprint : Text → Store → Option Peer
unfolding find?
trusted_fingerprint fp s = find? (has_trusted_fingerprint fp) (values s.peers)

-- The entries of `peers` that no pending entry hides.
unfoldable pub unhidden : Dict Peer → Dict Peer → Dict Peer
unhidden pend m = retain (λ (id, p). not (is_some (lookup id pend))) m

abbrev pub has_smaller_name : Peer → Peer → Bool
has_smaller_name p q = text_lt p.name q.name

-- List
unfoldable pub list : Call → Store → Store × List Peer
unfolding sort_by unhidden
list c s =
    let s' = prune_pending_locked c.prune_time s in
    (
      s',
      sort_by has_smaller_name
          (values (unhidden s'.pending_peers s'.peers) ++ values s'.pending_peers),
    )
