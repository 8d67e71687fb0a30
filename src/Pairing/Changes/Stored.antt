-- ===== src/Pairing/Changes/Stored.antt =====
-- internal/pairing/store.go: what `PutPending` stores.
use lanclip.Base.{
  ◌≡◌, sym, ap, ◌∙◌, some, text_eq_refl, ok, Option-cases, Bool-cases, inl, inr, arith,
}
use lanclip.Base.Dict.{lookup, lookup-insert}
use lanclip.Pairing.Types.{pending, Peer, Store}
use lanclip.Pairing.Store.{Call, prune_pending_locked}
use lanclip.Pairing.Changes.{put_pending, put_in, add_pending, is_trusted_in, conflicting}

-- The entry q that a successful PutPending p leaves under p's ID.
pub record Stored (c : Call) (p q : Peer) (s : Store) : Type 0 where
  pub found : lookup p.id (put_pending c p s).0.pending_peers ≡ some q
  pub code : q.comparison_code ≡ p.comparison_code

add_pending-stored :
    (c : Call) (p q : Peer) (s : Store)
    → (add_pending c p s).1 ≡ ok q
    → (lookup p.id (add_pending c p s).0.pending_peers ≡ some q)
      × (q.comparison_code ≡ p.comparison_code)
unfolding add_pending
add_pending-stored c p q s h = elim (Option-cases c.nonce) [
  | inl e ↦ absurd (ground (arith, e))
  | inr (t, e) ↦
      let p' : Peer = record p { state = pending; updated_at = c.stamp_time; approval_token = t } in
      let same : p' ≡ q = ground (arith, e) in
      (
        rw e (
            rw (lookup-insert p.id p.id p' s.pending_peers)
              (rw (text_eq_refl p.id) (ap some same))),
        sym (ap (λ r. r.comparison_code) same),
      )
]

put_in-add_pending :
    (c : Call) (p q : Peer) (s : Store) → (put_in c p s).1 ≡ ok q → put_in c p s ≡ add_pending c p s
unfolding put_in
put_in-add_pending c p q s h = elim (Option-cases (is_trusted_in (lookup p.id s.peers))) [
  | inl e ↦ elim (Bool-cases (conflicting p.fingerprint (lookup p.id s.pending_peers))) [
    | inl f ↦ absurd (ground (arith, e, f))
    | inr f ↦ ground (arith, e, f)
  ]
  | inr (t, e) ↦ absurd (ground (arith, e))
]

pub put_pending-Stored :
    (c : Call) (p q : Peer) (s : Store) → (put_pending c p s).1 ≡ ok q → Stored c p q s
unfolding put_pending
put_pending-Stored c p q s h =
    let s' = prune_pending_locked c.prune_time s in
    let same = put_in-add_pending c p q s' h in
    let (f, e) = add_pending-stored c p q s' (ap (λ r. r.1) (sym same) ∙ h) in
    record { found = ap (λ r. lookup p.id r.0.pending_peers) same ∙ f; code = e }
