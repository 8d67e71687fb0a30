-- ===== src/Daemon/Status/Honest.antt =====
-- What peerStatuses tells of a pending peer, and what the store holds.
use mathlib.Core.Path.{subst}
use lanclip.Base.{
  ◌≡◌, refl, sym, Bool, true, false, not, ◌&&◌, ◌||◌, Option, none, some, List, [], ◌∷◌, map, Text,
  text_eq, text_eq_iff, text_eq_refl, all, arith, all-append, retain,
}
use lanclip.Base.Dict.{Dict, lookup, NodupKeys, Every}
use lanclip.Base.Entries.{Every-lookup}
use lanclip.Base.Sorting.{all-sort_by}
use lanclip.Pairing.Types.{Peer, Store, state_eq, state_eq_iff, pending}
use lanclip.Pairing.Store.{Call, prune_pending_locked, unhidden, values, list}
use lanclip.Pairing.Valid.{IsValid, IsRequest, IsDecided, prune-IsValid}
use lanclip.Discovery
use lanclip.Daemon.Conns.{Stats}
use lanclip.Daemon.Status.{PeerStatus, stored_status, found_status, listed}

-- The device is shown with the fingerprint, the token and the code of the request under its ID.
abbrev pub same_request : PeerStatus → Option Peer → Bool
same_request p none = false
same_request p (some q) =
    text_eq p.peer.fingerprint q.fingerprint
    && text_eq p.peer.approval_token q.approval_token
    && text_eq p.peer.comparison_code q.comparison_code

-- What the list says of a pending peer is true of the store.
abbrev pub is_honest : Store → PeerStatus → Bool
is_honest s p =
    not (state_eq p.peer.state pending) || same_request p (lookup p.peer.id s.pending_peers)

module _ {ℓ} {V : Type ℓ} (g : V → Bool) where
  all-values :
      (m : Dict V)
      → NodupKeys m
      → ((k : Text) (v : V) → lookup k m ≡ some v → g v ≡ true)
      → all g (map (λ (k, v). v) m) ≡ true
  unfolding all lookup
  all-values [] n h = refl
  all-values ((k, v) ∷ m) n h =
      let first = h k v (ground (arith, text_eq_refl k)) in
      let rest = all-values m n.1 (λ j w e. h j w (ground (arith, e, n.0, text_eq_iff k j))) in
      ground (arith, first, rest)

pub all-map {ℓ κ} :
    {A : Type ℓ} {B : Type κ} (g : B → Bool) (h : A → B) (xs : List A)
    → all (λ x. g (h x)) xs ≡ true
    → all g (map h xs) ≡ true
unfolding all
all-map g h [] k = refl
all-map g h (x ∷ xs) k = ground (arith, all-map g h xs)

all-true {ℓ} : {A : Type ℓ} (g : A → Bool) (xs : List A) → ((x : A) → g x ≡ true) → all g xs ≡ true
unfolding all
all-true g [] h = refl
all-true g (x ∷ xs) h = ground (arith, h x, all-true g xs h)

abbrev is_told : Dict Discovery.Peer → Dict Stats → Store → Peer → Bool
is_told found stats s p = is_honest s (stored_status found stats p)

module _ (found : Dict Discovery.Peer) (stats : Dict Stats) (s : Store) (v : IsValid s) where
  all-requests : all (is_told found stats s) (values s.pending_peers) ≡ true
  unfolding stored_status
  all-requests = all-values (is_told found stats s) s.pending_peers v.pending_nodup (λ id p e.
      let own : p.id ≡ id = (Every-lookup IsRequest id s.pending_peers p v.requests e).0 in
      let here : lookup p.id s.pending_peers ≡ some p =
        subst (λ j. lookup j s.pending_peers ≡ some p) (sym own) e in
      rw here (
        ground (
          arith,
          text_eq_refl p.fingerprint,
          text_eq_refl p.approval_token,
          text_eq_refl p.comparison_code,
        )))

  all-decided :
      (m : Dict Peer)
      → Every IsDecided m
      → all (is_told found stats s) (values (unhidden s.pending_peers m)) ≡ true
  unfolding all unhidden retain stored_status
  all-decided [] e = refl
  all-decided ((id, p) ∷ m) e =
      ground (arith, state_eq_iff p.state pending, e.0.0, all-decided m e.1)

module _ (found : Dict Discovery.Peer) (stats : Dict Stats) (c : Call) (s : Store)
    (v : IsValid s) where
  all-list : all (is_told found stats (list c s).0) (list c s).1 ≡ true
  unfolding list
  all-list =
      let s' = prune_pending_locked c.prune_time s in
      let v' = prune-IsValid c.prune_time s v in
      let told = is_told found stats s' in
      all-sort_by _ told _ (
        all-append told (values (unhidden s'.pending_peers s'.peers)) (values s'.pending_peers)
          (all-decided found stats s' v' s'.peers v'.decided) (all-requests found stats s' v'))

  pub all-listed : all (is_honest (list c s).0) (listed (list c s).1 found stats) ≡ true
  unfolding found_status state_eq
  all-listed =
      let honest = is_honest (list c s).0 in
      all-append honest (map (stored_status found stats) (list c s).1) _
        (all-map honest (stored_status found stats) (list c s).1 all-list)
        (all-map honest (found_status stats) _ (all-true _ _ (λ p. refl)))
