-- ===== src/Pairing/Changes/Atomic.antt =====
-- A method that returns an error leaves the store as it found it.
use lanclip.Base.{
  ◌≡◌, refl, ap, ◌⊎◌, inl, inr, Text, Result, Result-cases, Option-cases, true, false, Bool, [],
  ◌∷◌, is_ok, text_eq, not, ◌&&◌, is_some, leb, length, if◌then◌else◌,
}
use lanclip.Base.Dict.{Dict, lookup}
use lanclip.Base.Unicode.{Unicode}
use lanclip.Pairing.Types.{Peer, Store, Error, pending}
use lanclip.Pairing.Disk.{PeersJson}
use lanclip.Pairing.Store.{Call, prune_pending_locked, resolve_locked, resolve, get, list}
use lanclip.Pairing.Changes.{
  put_pending, put_in, add_pending, is_trusted_in, conflicting, approve, approve_in, approve_entry,
  reject, reject_in, reject_entry, unpair, unpair_entry, update_name, rename_entry, matches_request,
}
use lanclip.Pairing.Changes.Outcome.{
  Unchanged, Outcome, approve_entry-Outcome, reject_entry-Outcome, unpair_entry-Outcome,
  rename_entry-Outcome,
}
use lanclip.Pairing.Changes.Invariant.{resolve_pending, step-IsValid}
use lanclip.Pairing.Mirror.{Mirrors, IsOrdered, moved}
use lanclip.Pairing.Valid.{IsValid, prune-IsValid}
use lanclip.Pairing.Name.{normalize_device_name}
use lanclip.Pairing.Runs.{
  Method, put_pending_of, approve_of, reject_of, unpair_of, get_of, update_name_of, resolve_of,
  list_of, perform,
}

-- The store once the method has dropped the expired requests. Unpair and UpdateName drop none.
abbrev pub entered : Store → Call × Method → Store
entered s (c, unpair_of id) = s
entered s (c, update_name_of id name) = s
entered s (c, _) = prune_pending_locked c.prune_time s

same : (s : Store) → Unchanged s s
same s = record { same_peers = λ _. refl; same_pending = λ _. refl; same_file = refl }

-- The store is unchanged, or the call succeeded and the file still mirrors the peers.
abbrev Settled {ℓ} : {A : Type ℓ} → PeersJson → Store → Store × Result Error A → Type 0
Settled json s r = Unchanged s r.0 ⊎ ((is_ok r.1 ≡ true) × (Mirrors json s → Mirrors json r.0))

Outcome-Settled :
    (json : PeersJson) {m n : Dict Peer} (s : Store) (r : Store × Result Error (Unit {0}))
    → Outcome json m n s r
    → Settled json s r
Outcome-Settled json s r (inl done) = inr (ap is_ok done.succeeded, λ _. done.mirrors)
Outcome-Settled json s r (inr back) = inl back.unchanged

if-Settled {ℓ} :
    {A : Type ℓ} (json : PeersJson) (s : Store) (b : Bool) (q r : Store × Result Error A)
    → Settled json s q
    → Settled json s r
    → Settled json s (if b then q else r)
if-Settled json s true q r f g = f
if-Settled json s false q r f g = g

module _ (json : PeersJson) (c : Call) where
  add_pending-Settled : (p : Peer) (s : Store) → Settled json s (add_pending c p s)
  unfolding add_pending
  add_pending-Settled p s = elim (Option-cases c.nonce) [
    | inl e ↦ rw (e, add_pending) (inl (same s))
    | inr (t, e) ↦ rw (e, add_pending) (inr (refl, λ m. moved json s _ refl refl m))
  ]

  put_in-Settled : (p : Peer) (s : Store) → Settled json s (put_in c p s)
  unfolding put_in
  put_in-Settled p s = elim (Option-cases (is_trusted_in (lookup p.id s.peers))) [
    | inr (old, e) ↦
        rw (e, put_in)
          (if-Settled json s (text_eq old.fingerprint p.fingerprint) _ _ (inl (same s))
            (inl (same s)))
    | inl e ↦
        rw (e, put_in)
          (if-Settled json s (conflicting p.fingerprint (lookup p.id s.pending_peers)) _ _
            (inl (same s))
            (if-Settled json s
              (not (is_some (lookup p.id s.pending_peers))
                && leb s.max_pending (length s.pending_peers))
              _ _ (inl (same s)) (add_pending-Settled p s)))
  ]

module _ (u : Unicode) (json : PeersJson) (c : Call) where
  approve_in-Settled :
      (id token fp code : Text) (s : Store)
      → IsValid s
      → Settled json s (approve_in u json c id token fp code s)
  unfolding approve_in
  approve_in-Settled id token fp code s v =
      elim (Result-cases (resolve_locked u s id (pending ∷ []))) [
        | inr (x, e) ↦ rw (e, approve_in) (inl (same s))
        | inl ((id', p), e) ↦
            let clean =
              Outcome-Settled json s (approve_entry u json c id' p s) (
                approve_entry-Outcome u json c id' p s (resolve_pending u json c s id id' p v e)) in
            rw (e, approve_in)
              (if-Settled json s (matches_request token fp code p) _ _ clean (inl (same s)))
      ]

  reject_in-Settled : (id : Text) (s : Store) → Settled json s (reject_in u json c id s)
  unfolding reject_in
  reject_in-Settled id s = elim (Result-cases (resolve_locked u s id [])) [
    | inr (x, e) ↦ rw (e, reject_in) (inl (same s))
    | inl ((id', p), e) ↦
        rw (e, reject_in)
          (Outcome-Settled json s (reject_entry u json c id' p s)
            (reject_entry-Outcome u json c id' p s))
  ]

  unpair-Settled : (id : Text) (s : Store) → Settled json s (unpair u json c id s)
  unfolding unpair
  unpair-Settled id s = elim (Result-cases (resolve_locked u s id [])) [
    | inr (x, e) ↦ rw (e, unpair) (inl (same s))
    | inl ((id', p), e) ↦
        rw (e, unpair)
          (Outcome-Settled json s (unpair_entry u json c id' s)
            (unpair_entry-Outcome u json c id' s))
  ]

  update_name-Settled : (id raw : Text) (s : Store) → Settled json s (update_name u json c id raw s)
  unfolding update_name
  update_name-Settled id raw s =
      let name = normalize_device_name u raw in
      if-Settled json s (text_eq name []) _ _ (inl (same s))
        (elim (Option-cases (lookup id s.peers)) [
          | inl e ↦ rw (e, update_name) (inl (same s))
          | inr (p, e) ↦
              rw (e, update_name)
                (if-Settled json s (text_eq p.name name) _ _ (inl (same s)) (
                  Outcome-Settled json s (rename_entry u json c id p name s)
                    (rename_entry-Outcome u json c id p name s e)))
        ])

  perform-Settled :
      (s : Store) (m : Method)
      → IsValid s
      → let r = perform u json s (c, m) in
        Unchanged (entered s (c, m)) r.0
        ⊎ ((r.1 ≡ true) × (Mirrors json (entered s (c, m)) → Mirrors json r.0))
  unfolding perform put_pending approve reject resolve get list
  perform-Settled s (put_pending_of p) v = put_in-Settled json c p _
  perform-Settled s (approve_of id token fingerprint code) v =
      approve_in-Settled id token fingerprint code _ (prune-IsValid c.prune_time s v)
  perform-Settled s (reject_of id) v = reject_in-Settled id _
  perform-Settled s (unpair_of id) v = unpair-Settled id s
  perform-Settled s (get_of id) v = inl (same _)
  perform-Settled s (update_name_of id name) v = update_name-Settled id name s
  perform-Settled s (resolve_of query states) v = inl (same _)
  perform-Settled s (list_of) v = inl (same _)

  -- A method that returns an error on a valid store changes nothing but what it dropped as expired:
  -- both maps hold what they held, and the file of peers is as it was, whichever step failed.
  pub perform_failed :
      (s : Store) (m : Method)
      → IsValid s
      → (perform u json s (c, m)).1 ≡ false
      → Unchanged (entered s (c, m)) (perform u json s (c, m)).0
  perform_failed s m v h = elim (perform-Settled s m v) [
    | inl kept ↦ kept
    | inr (fine, _) ↦ absurd (cc (fine, h))
  ]

  entered-Mirrors : (s : Store) (m : Method) → Mirrors json s → Mirrors json (entered s (c, m))
  unfolding prune_pending_locked
  entered-Mirrors s (unpair_of id) r = r
  entered-Mirrors s (put_pending_of p) r = moved json s _ refl refl r
  entered-Mirrors s m r = moved json s _ refl refl r

  entered-IsValid : (s : Store) (m : Method) → IsValid s → IsValid (entered s (c, m))
  entered-IsValid s (unpair_of id) v = v
  entered-IsValid s (update_name_of id name) v = v
  entered-IsValid s m v = prune-IsValid c.prune_time s v

  -- Between two calls the file of peers is the encoding of the peers in memory: every method keeps
  -- this, also where it fails, if the encoder does not show the order of a map.
  pub perform-Mirrors :
      IsOrdered json
      → (s : Store) (m : Method) → IsValid s
      → Mirrors json s
      → Mirrors json (perform u json s (c, m)).0
  perform-Mirrors ordered s m v r = elim (perform-Settled s m v) [
    | inr (_, keeps) ↦ keeps (entered-Mirrors s m r)
    | inl kept ↦
        let t = (perform u json s (c, m)).0 in
        let same_code =
          ordered t.peers (entered s (c, m)).peers (step-IsValid u json c s m v).peers_nodup
            (entered-IsValid s m v).peers_nodup kept.same_peers in
        moved json (entered s (c, m)) t same_code kept.same_file (entered-Mirrors s m r)
  ]
