-- ===== src/Pairing/Changes/Trust.antt =====
-- Where trust comes from.
use mathlib.Core.Path.{subst, subst₂}
use lanclip.Base.{
  if◌then◌else◌, ◌≡◌, refl, ◌∙◌, ap, ◌≢◌, inl, inr, some, Text, arith, Result, Result-cases,
  Option-cases, true, false, Bool, [], Bool-cases, text_eq, text_eq_iff,
}
use lanclip.Base.Dict.{Dict, lookup, insert, erase, SameMap, lookup-insert, lookup-erase}
use lanclip.Base.Unicode.{Unicode}
use lanclip.Pairing.Types.{Peer, Store, Error, trusted}
use lanclip.Pairing.Disk.{PeersJson}
use lanclip.Pairing.Store.{Call, is_fresh, resolve_locked}
use lanclip.Pairing.Changes.{
  put_in, add_pending, reject_in, reject_entry, unpair, unpair_entry, update_name, rename_entry,
  as_rejected,
}
use lanclip.Pairing.Changes.Outcome.{
  Outcome, reject_entry-Outcome, unpair_entry-Outcome, rename_entry-Outcome,
}
use lanclip.Pairing.Name.{normalize_device_name}
use lanclip.Pairing.Runs.{Method, approve_of}

-- Under the ID stands a trusted peer with this fingerprint pinned.
pub record TrustedAs (m : Dict Peer) (id fp : Text) : Type 0 where
  pub peer : Peer
  pub found : lookup id m ≡ some peer
  pub is_trusted : peer.state ≡ trusted
  pub pinned : peer.fingerprint ≡ fp

moved :
    (m n : Dict Peer) (id fp : Text) (t : TrustedAs m id fp)
    → lookup id n ≡ some t.peer
    → TrustedAs n id fp
moved m n id fp t e = record {
  peer = t.peer;
  found = e;
  is_trusted = t.is_trusted;
  pinned = t.pinned;
}

-- The call approves, in the user's words, a request that is pending under the ID and not expired:
-- its token, its fingerprint, which is the one that is now pinned, and its comparison code.
pub record Approval (s : Store) (c : Call) (m : Method) (id fp : Text) : Type 0 where
  pub query : Text
  pub token : Text
  pub code : Text
  pub request : Peer
  pub calls : m ≡ approve_of query token fp code
  pub found : lookup id s.pending_peers ≡ some request
  pub fresh : is_fresh c.prune_time s.pending_ttl request ≡ true
  pub real_token : token ≢ []
  pub same_token : request.approval_token ≡ token
  pub same_fingerprint : request.fingerprint ≡ fp
  pub same_code : request.comparison_code ≡ code

-- Every peer that the map trusts was trusted before, with the same pin.
abbrev pub Kept : Dict Peer → Dict Peer → Type 0
Kept n m = (id fp : Text) → TrustedAs n id fp → TrustedAs m id fp

pub SameMap-Kept : (n m : Dict Peer) → SameMap n m → Kept n m
SameMap-Kept n m same id fp t = moved n m id fp t (ground (arith, same id, t.found))

pub insert_self :
    (m : Dict Peer) (id : Text) (q : Peer) (j fp : Text)
    → text_eq id j ≡ true
    → (t : TrustedAs (insert id q m) j fp) → (id ≡ j) × (q ≡ t.peer)
insert_self m id q j fp hit t =
    ((text_eq_iff id j).0 hit, ground (arith, lookup-insert j id q m, t.found))

pub insert_other :
    (m : Dict Peer) (id : Text) (q : Peer) (j fp : Text)
    → text_eq id j ≡ false
    → TrustedAs (insert id q m) j fp
    → TrustedAs m j fp
insert_other m id q j fp miss t =
    moved (insert id q m) m j fp t (ground (arith, lookup-insert j id q m, t.found))

-- An entry that is written keeps trust as it was if it is no trusted one, or was there before.
insert-Kept :
    (m : Dict Peer) (id : Text) (q : Peer)
    → (q.state ≡ trusted → TrustedAs m id q.fingerprint)
    → Kept (insert id q m) m
insert-Kept m id q old j fp t = elim (Bool-cases (text_eq id j)) [
  | inl hit ↦
      let (same, it) = insert_self m id q j fp hit t in
      subst₂ (TrustedAs m) same (ap (λ r. r.fingerprint) it ∙ t.pinned)
        (old (ap (λ r. r.state) it ∙ t.is_trusted))
  | inr miss ↦ insert_other m id q j fp miss t
]

erase-Kept : (m : Dict Peer) (id : Text) → Kept (erase id m) m
erase-Kept m id j fp t = moved (erase id m) m j fp t (ground (arith, lookup-erase j id m, t.found))

-- What a method may change of the trusted peers, in the terms of `Kept`.
Outcome-Kept :
    (json : PeersJson) (n q : Dict Peer) (s : Store) (r : Store × Result Error (Unit {0}))
    → Outcome json n q s r
    → Kept n s.peers
    → Kept r.0.peers s.peers
Outcome-Kept json n q s r (inl done) k =
    λ id fp t. k id fp (subst (λ m. TrustedAs m id fp) done.new_peers t)
Outcome-Kept json n q s r (inr back) k = SameMap-Kept r.0.peers s.peers back.unchanged.same_peers

module _ (c : Call) where
  pub put_in-peers : (p : Peer) (s : Store) → (put_in c p s).0.peers ≡ s.peers
  unfolding put_in add_pending
  put_in-peers p s = ground arith

module _ (u : Unicode) (json : PeersJson) (c : Call) where
  pub reject_in-Kept : (id : Text) (s : Store) → Kept (reject_in u json c id s).0.peers s.peers
  unfolding reject_in
  reject_in-Kept id s = elim (Result-cases (resolve_locked u s id [])) [
    | inr (x, e) ↦ rw (e, reject_in) (λ j fp t. t)
    | inl ((id', p), e) ↦
        rw (e, reject_in)
          (Outcome-Kept json _ _ s (reject_entry u json c id' p s)
            (reject_entry-Outcome u json c id' p s)
            (insert-Kept s.peers id' (as_rejected c.stamp_time p) (λ h. absurd (cc h))))
  ]

  pub unpair-Kept : (id : Text) (s : Store) → Kept (unpair u json c id s).0.peers s.peers
  unfolding unpair
  unpair-Kept id s = elim (Result-cases (resolve_locked u s id [])) [
    | inr (x, e) ↦ rw (e, unpair) (λ j fp t. t)
    | inl ((id', p), e) ↦
        rw (e, unpair)
          (Outcome-Kept json _ _ s (unpair_entry u json c id' s)
            (unpair_entry-Outcome u json c id' s) (erase-Kept s.peers id'))
  ]

  if-Kept :
      (s : Store) (b : Bool) (q r : Store × Result Error (Unit {0}))
      → Kept q.0.peers s.peers
      → Kept r.0.peers s.peers
      → Kept (if b then q else r).0.peers s.peers
  if-Kept s true q r f g = f
  if-Kept s false q r f g = g

  pub update_name-Kept :
      (id raw : Text) (s : Store) → Kept (update_name u json c id raw s).0.peers s.peers
  unfolding update_name
  update_name-Kept id raw s =
      let name = normalize_device_name u raw in
      if-Kept s (text_eq name []) _ _ (λ j fp t. t)
        (elim (Option-cases (lookup id s.peers)) [
          | inl e ↦ rw (e, update_name) (λ j fp t. t)
          | inr (p, e) ↦
              rw (e, update_name)
                (if-Kept s (text_eq p.name name) _ _ (λ j fp t. t)
                  (Outcome-Kept json _ _ s (rename_entry u json c id p name s)
                    (rename_entry-Outcome u json c id p name s e)
                    (insert-Kept s.peers id (record p { name = name; updated_at = c.stamp_time })
                      (λ h. record { peer = p; found = e; is_trusted = h; pinned = refl }))))
        ])
