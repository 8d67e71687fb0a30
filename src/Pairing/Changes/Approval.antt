-- ===== src/Pairing/Changes/Approval.antt =====
-- New trust comes from an approval of the pending request.
use mathlib.Core.Path.{subst}
use lanclip.Base.{
  ℕ, ◌≡◌, ◌∙◌, ap, sym, ◌⊎◌, inl, inr, some, Text, arith, Result-cases, true, [], ◌∷◌, Bool-cases,
  text_eq, text_eq_iff,
}
use lanclip.Base.Dict.{Dict, lookup, insert, lookup-keep_values}
use lanclip.Base.Unicode.{Unicode}
use lanclip.Pairing.Types.{Peer, Store, pending}
use lanclip.Pairing.Disk.{PeersJson}
use lanclip.Pairing.Store.{Call, is_fresh, prune_pending_locked, resolve_locked, resolve, get, list}
use lanclip.Pairing.Changes.{
  put_pending, approve, approve_in, approve_entry, reject, as_trusted, matches_request,
}
use lanclip.Pairing.Changes.Outcome.{approve_entry-Outcome}
use lanclip.Pairing.Changes.Invariant.{resolve_pending}
use lanclip.Pairing.Valid.{IsValid, prune-IsValid}
use lanclip.Pairing.Runs.{
  Method, put_pending_of, approve_of, reject_of, unpair_of, get_of, update_name_of, resolve_of,
  list_of, perform,
}
use lanclip.Pairing.Changes.Trust.{
  TrustedAs, Approval, Kept, SameMap-Kept, insert_self, insert_other, put_in-peers, reject_in-Kept,
  unpair-Kept, update_name-Kept,
}

-- The request under the ID, as approve_in sees it.
record Granted (m : Dict Peer) (token fp code id pin : Text) : Type 0 where
  request : Peer
  found : lookup id m ≡ some request
  matching : matches_request token fp code request ≡ true
  pin_of : request.fingerprint ≡ pin

module _ (u : Unicode) (json : PeersJson) (c : Call) (token fp code : Text) where
  abbrev Source : Store → Dict Peer → Type 0
  Source s n =
      (j pin : Text)
      → TrustedAs n j pin
      → TrustedAs s.peers j pin ⊎ Granted s.pending_peers token fp code j pin

  kept : (s : Store) (n : Dict Peer) → Kept n s.peers → Source s n
  kept s n k j pin t = inl (k j pin t)

  inserted-Source :
      (s : Store) (id : Text) (p : Peer)
      → lookup id s.pending_peers ≡ some p
      → matches_request token fp code p ≡ true
      → Source s (insert id (as_trusted c.stamp_time p) s.peers)
  inserted-Source s id p found match j pin t = elim (Bool-cases (text_eq id j)) [
    | inr miss ↦ inl (insert_other s.peers id (as_trusted c.stamp_time p) j pin miss t)
    | inl hit ↦
        let (same, it) = insert_self s.peers id (as_trusted c.stamp_time p) j pin hit t in
        inr (record {
          request = p;
          found = subst (λ k. lookup k s.pending_peers ≡ some p) same found;
          matching = match;
          pin_of = ap (λ r. r.fingerprint) it ∙ t.pinned;
        })
  ]

  approve_entry-Source :
      (s : Store) (id : Text) (p : Peer)
      → lookup id s.pending_peers ≡ some p
      → matches_request token fp code p ≡ true
      → Source s (approve_entry u json c id p s).0.peers
  approve_entry-Source s id p found match = elim (approve_entry-Outcome u json c id p s found) [
    | inl done ↦ subst (Source s) (sym done.new_peers) (inserted-Source s id p found match)
    | inr back ↦ kept s _ (SameMap-Kept _ s.peers back.unchanged.same_peers)
  ]

  approve_in-Source :
      (query : Text) (s : Store)
      → IsValid s
      → Source s (approve_in u json c query token fp code s).0.peers
  unfolding approve_in
  approve_in-Source query s v = elim (Result-cases (resolve_locked u s query (pending ∷ []))) [
    | inr (x, e) ↦ rw (e, approve_in) (λ j pin t. inl t)
    | inl ((id, p), e) ↦
        rw (e, approve_in)
          (elim (Bool-cases (matches_request token fp code p)) [
            | inr t ↦ rw t (λ j pin t. inl t)
            | inl t ↦
                rw t (approve_entry-Source s id p (resolve_pending u json c s query id p v e) t)
          ])
  ]

pruned_found :
    (now : ℕ) (s : Store) (id : Text) (p : Peer)
    → IsValid s
    → lookup id (prune_pending_locked now s).pending_peers ≡ some p
    → (lookup id s.pending_peers ≡ some p) × (is_fresh now s.pending_ttl p ≡ true)
unfolding prune_pending_locked
pruned_found now s id p v e =
    ground
      (arith, e, lookup-keep_values id (is_fresh now s.pending_ttl) s.pending_peers v.pending_nodup)

Granted-Approval :
    (s : Store) (c : Call) (query token fp code id pin : Text)
    → IsValid s
    → Granted (prune_pending_locked c.prune_time s).pending_peers token fp code id pin
    → Approval s c (approve_of query token fp code) id pin
Granted-Approval s c query token fp code id pin v g =
    let here = pruned_found c.prune_time s id g.request v g.found in
    let same : fp ≡ pin =
      ground (arith, g.matching, text_eq_iff fp g.request.fingerprint, g.pin_of) in
    record {
      query = query;
      token = token;
      code = code;
      request = g.request;
      calls = ap (λ f. approve_of query token f code) same;
      found = here.0;
      fresh = here.1;
      real_token = λ e. ground (arith, g.matching, text_eq_iff token []);
      same_token = ground (arith, g.matching, text_eq_iff token g.request.approval_token);
      same_fingerprint = g.pin_of;
      same_code = ground (arith, g.matching, text_eq_iff code g.request.comparison_code);
    }

-- After any call on a valid store, a peer is trusted with a fingerprint only if it was before the
-- call, or the call is an approval that names the token, the fingerprint and the comparison code of
-- a request that is pending under the peer's ID and has not expired.
pub trust_needs-Approval :
    (u : Unicode) (json : PeersJson) (s : Store) (c : Call) (m : Method) (id fp : Text)
    → IsValid s
    → TrustedAs (perform u json s (c, m)).0.peers id fp
    → TrustedAs s.peers id fp ⊎ Approval s c m id fp
unfolding perform put_pending approve reject resolve get list prune_pending_locked
trust_needs-Approval u json s c (put_pending_of p) id fp v t =
    inl (subst (λ n. TrustedAs n id fp) (put_in-peers c p (prune_pending_locked c.prune_time s)) t)
trust_needs-Approval u json s c (approve_of query token f code) id fp v t =
    elim (approve_in-Source u json c token f code query _ (prune-IsValid c.prune_time s v) id fp
      t) [ inl old ↦ inl old | inr g ↦ inr (Granted-Approval s c query token f code id fp v g) ]
trust_needs-Approval u json s c (reject_of query) id fp v t =
    inl (reject_in-Kept u json c query _ id fp t)
trust_needs-Approval u json s c (unpair_of query) id fp v t =
    inl (unpair-Kept u json c query s id fp t)
trust_needs-Approval u json s c (get_of query) id fp v t = inl t
trust_needs-Approval u json s c (update_name_of i name) id fp v t =
    inl (update_name-Kept u json c i name s id fp t)
trust_needs-Approval u json s c (resolve_of query states) id fp v t = inl t
trust_needs-Approval u json s c (list_of) id fp v t = inl t
