-- ===== src/Daemon/Connect/Stored.antt =====
-- Where the entries come from that a tick of connectLoop looks at.
use mathlib.Core.Path.{subst}
use mathlib.Core.List.{Memᴰ}
use mathlib.Core.Option.{or_else}
use lanclip.Base.{
  ◌≡◌, refl, sym, ap, ◌∙◌, ◌⊎◌, inl, inr, Option, none, some, List, [], ◌∷◌, ◌++◌, Text, not,
  is_some, Bool-cases, Option-cases,
}
use lanclip.Base.Dict.{Dict, lookup, Every}
use lanclip.Base.Entries.{Every-lookup, Selected, retain-Selected}
use lanclip.Base.Members.{Each, nil-Each, cons-Each, append-Each}
use lanclip.Base.Sorting.{sort_by-Each}
use lanclip.Pairing.Types.{Peer, Store, trusted}
use lanclip.Pairing.Store.{
  Call, get, list, values, unhidden, has_smaller_name, prune_pending_locked,
}
use lanclip.Pairing.Valid.{IsValid, IsRequest, prune-IsValid}
use lanclip.Discovery
use lanclip.Discovery.Direct.{Net}
use lanclip.Daemon.Connect.{found_candidates, manual_candidates, is_seen}

-- The entry is one of `peers`, under this ID, or with this ID as its own.
pub record IsEntry (m : Dict Peer) (id : Text) (p : Peer) : Type 0 where
  pub key : Text
  pub found : lookup key m ≡ some p
  pub named : (key ≡ id) ⊎ (p.id ≡ id)

-- If the entry is trusted, it stands in the map.
abbrev pub IsBacked : Dict Peer → Text × Option Peer × List Text → Type 0
IsBacked m (id, none, es) = Unit {0}
IsBacked m (id, some p, es) = p.state ≡ trusted → IsEntry m id p

abbrev IsKept : Dict Peer → Peer → Type 0
IsKept m p = p.state ≡ trusted → IsEntry m p.id p

some_eq : (p q : Peer) → some p ≡ some q → p ≡ q
some_eq p q e = cc e

get-entry :
    (c : Call) (id : Text) (s : Store) (p : Peer)
    → IsValid s
    → (get c id s).1 ≡ some p
    → p.state ≡ trusted
    → lookup id s.peers ≡ some p
unfolding get prune_pending_locked or_else
get-entry c id s p v e t =
    let w = prune-IsValid c.prune_time s v in
    elim (Option-cases (lookup id (prune_pending_locked c.prune_time s).pending_peers)) [
      | inl x ↦ subst (λ o. or_else o (lookup id s.peers) ≡ some p) x e
      | inr (q, x) ↦
          let same : q ≡ p =
            some_eq q p (subst (λ o. or_else o (lookup id s.peers) ≡ some p) x e) in
          let asks = (Every-lookup IsRequest id _ q w.requests x).1 in
          absurd (cc (asks, t, ap (λ r. r.state) same))
    ]

get-IsValid : (c : Call) (id : Text) (s : Store) → IsValid s → IsValid (get c id s).0
unfolding get
get-IsValid c id s v = prune-IsValid c.prune_time s v

get-peers : (c : Call) (id : Text) (s : Store) → (get c id s).0.peers ≡ s.peers
unfolding get prune_pending_locked
get-peers c id s = refl

module _ (n : Net) (networks : List n.Network) where
  -- What Get returns, for the peers that were discovered.
  pub found-IsBacked :
      (found : List (Call × Discovery.Peer)) (s : Store)
      → IsValid s
      → ((found_candidates n networks found s).0.peers ≡ s.peers)
        × IsValid (found_candidates n networks found s).0
        × Each (IsBacked s.peers) (found_candidates n networks found s).1
  unfolding found_candidates
  found-IsBacked [] s v = (refl, v, nil-Each (IsBacked s.peers))
  found-IsBacked ((c, p) ∷ ps) s v =
      let s' = (get c p.id s).0 in
      let same = get-peers c p.id s in
      let (kept, valid, rest) = found-IsBacked ps s' (get-IsValid c p.id s v) in
      (
        kept ∙ same,
        valid,
        cons-Each (IsBacked s.peers) _ _ (backed c p s v _)
            (subst (λ m. Each (IsBacked m) (found_candidates n networks ps s').1) same rest),
      )
    where
      backed :
          (c : Call) (p : Discovery.Peer) (s : Store)
          → IsValid s
          → (es : List Text) → IsBacked s.peers (p.id, (get c p.id s).1, es)
      backed c p s v es = elim (Option-cases (get c p.id s).1) [
        | inl x ↦ subst (λ o. IsBacked s.peers (p.id, o, es)) (sym x) tt
        | inr (q, x) ↦
            subst (λ o. IsBacked s.peers (p.id, o, es)) (sym x)
              (λ t. record { key = p.id; found = get-entry c p.id s q v x t; named = inl refl })
      ]

values-Each :
    (P : Text → Peer → Type 0) (Q : Peer → Type 0) (m : Dict Peer)
    → ((k : Text) (p : Peer) → P k p → Q p)
    → Every P m
    → Each Q (values m)
values-Each P Q [] f e = nil-Each Q
values-Each P Q ((k, p) ∷ m) f (x, e) = cons-Each Q p (values m) (f k p x) (values-Each P Q m f e)

-- What List returns.
list-IsKept : (c : Call) (s : Store) → IsValid s → Each (IsKept s.peers) (list c s).1
unfolding list unhidden prune_pending_locked
list-IsKept c s v =
    let w = prune-IsValid c.prune_time s v in
    sort_by-Each has_smaller_name (IsKept s.peers) _ (
      append-Each (IsKept s.peers) _ _
        (values-Each
          (Selected
            (λ (id, p).
              not (is_some (lookup id (prune_pending_locked c.prune_time s).pending_peers)))
            s.peers)
          (IsKept s.peers) _ (λ k p e t. record { key = k; found = e.0; named = inr refl })
          (retain-Selected _ s.peers v.peers_nodup))
        (values-Each IsRequest (IsKept s.peers) _ (λ k p (own, asks) t. absurd (cc (asks, t)))
          w.requests))

manual-IsBacked :
    (m : Dict Peer) (found : List (Call × Discovery.Peer)) (resolve : Peer → List Text)
    (ps : List Peer)
    → Each (IsKept m) ps
    → Each (IsBacked m) (manual_candidates found resolve ps)
unfolding manual_candidates
manual-IsBacked m found resolve [] e = nil-Each (IsBacked m)
manual-IsBacked m found resolve (p ∷ ps) e =
    let rest = manual-IsBacked m found resolve ps (λ q k. e q (Memᴰ.tail k)) in
    elim (Bool-cases (is_seen found p)) [
      | inl x ↦ rw (x, manual_candidates) rest
      | inr x ↦ rw (x, manual_candidates) (cons-Each (IsBacked m) _ _ (e p (Memᴰ.head refl)) rest)
    ]

-- Every trusted entry that a tick looks at is one of `peers`, and named by the candidate.
pub candidates-IsBacked :
    (n : Net) (networks : List n.Network) (found : List (Call × Discovery.Peer))
    (resolve : Peer → List Text) (c : Call) (s : Store)
    → IsValid s
    → Each (IsBacked s.peers) (
        (found_candidates n networks found s).1
        ++ manual_candidates found resolve (list c (found_candidates n networks found s).0).1)
candidates-IsBacked n networks found resolve c s v =
    let (same, valid, first) = found-IsBacked n networks found s v in
    append-Each (IsBacked s.peers) _ _ first (
      manual-IsBacked s.peers found resolve _ (
        subst (λ m. Each (IsKept m) (list c (found_candidates n networks found s).0).1) same
          (list-IsKept c (found_candidates n networks found s).0 valid)))
