-- ===== src/Pairing/Changes/Invariant.antt =====
-- Every method keeps the store valid.
use lanclip.Base.{◌≡◌, inl, inr, some, List, [], ◌∷◌, Text, arith, ok, Option-cases, Result-cases}
use lanclip.Base.Dict.{lookup}
use lanclip.Base.Entries.{Every-lookup}
use lanclip.Base.Unicode.{Unicode}
use lanclip.Pairing.Types.{pending, Peer, Store}
use lanclip.Pairing.Disk.{PeersJson}
use lanclip.Pairing.Store.{Call, resolve_locked, resolve, get, list}
use lanclip.Pairing.Store.Resolve.{resolve_locked-Found, allowed_one}
use lanclip.Pairing.Changes.{
  put_pending, approve, approve_in, reject, reject_in, unpair, update_name,
}
use lanclip.Pairing.Name.{normalize_device_name}
use lanclip.Pairing.Runs.{
  Method, put_pending_of, approve_of, reject_of, unpair_of, get_of, update_name_of, resolve_of,
  list_of, step, perform, run,
}
use lanclip.Pairing.Valid.{IsDecided, IsValid, prune-IsValid}
use lanclip.Pairing.Changes.Entries.{
  put_in-IsValid, approve_entry-IsValid, reject_entry-IsValid, unpair_entry-IsValid,
  rename_entry-IsValid,
}

module _ (u : Unicode) (json : PeersJson) (c : Call) where
  -- What a lookup of a pending peer finds is a request.
  pub resolve_pending :
      (s : Store) (query id : Text) (p : Peer)
      → IsValid s
      → resolve_locked u s query (pending ∷ []) ≡ ok (id, p)
      → lookup id s.pending_peers ≡ some p
  resolve_pending s query id p v e =
      elim (resolve_locked-Found u s (pending ∷ []) v.peers_nodup v.pending_nodup query id p e) [
        | inl (found, _) ↦ found
        | inr (found, is_pending) ↦ absurd (
            (Every-lookup IsDecided id s.peers p v.decided found).0
              (allowed_one pending p is_pending))
      ]

  approve_in-IsValid :
      (id token fingerprint code : Text) (s : Store)
      → IsValid s
      → IsValid (approve_in u json c id token fingerprint code s).0
  unfolding approve_in
  approve_in-IsValid id token fingerprint code s v =
      elim (Result-cases (resolve_locked u s id (pending ∷ []))) [
        | inl ((id', p), e) ↦
            rw (e, approve_in)
              (ground (
                arith,
                v,
                approve_entry-IsValid u json c id' p s v (resolve_pending s id id' p v e),
              ))
        | inr (x, e) ↦ rw (e, approve_in) v
      ]

  reject_in-IsValid : (id : Text) (s : Store) → IsValid s → IsValid (reject_in u json c id s).0
  unfolding reject_in
  reject_in-IsValid id s v = elim (Result-cases (resolve_locked u s id [])) [
    | inl ((id', p), e) ↦ rw (e, reject_in) (reject_entry-IsValid u json c id' p s v)
    | inr (x, e) ↦ rw (e, reject_in) v
  ]

  unpair-IsValid : (id : Text) (s : Store) → IsValid s → IsValid (unpair u json c id s).0
  unfolding unpair
  unpair-IsValid id s v = elim (Result-cases (resolve_locked u s id [])) [
    | inl ((id', p), e) ↦ rw (e, unpair) (unpair_entry-IsValid u json c id' s v)
    | inr (x, e) ↦ rw (e, unpair) v
  ]

  update_name-IsValid :
      (id raw : Text) (s : Store) → IsValid s → IsValid (update_name u json c id raw s).0
  unfolding update_name
  update_name-IsValid id raw s v = elim (Option-cases (lookup id s.peers)) [
    | inl e ↦ rw (e, update_name) (ground (arith, v))
    | inr (p, e) ↦
        rw (e, update_name)
          (ground
            (arith, v, rename_entry-IsValid u json c id p (normalize_device_name u raw) s v e))
  ]

  -- Every method keeps the store valid, whatever its arguments and outcomes.
  pub step-IsValid : (s : Store) (m : Method) → IsValid s → IsValid (step u json s (c, m))
  unfolding perform put_pending approve reject resolve get list
  step-IsValid s (put_pending_of p) v = put_in-IsValid c p _ (prune-IsValid c.prune_time s v)
  step-IsValid s (approve_of id token fingerprint code) v =
      approve_in-IsValid id token fingerprint code _ (prune-IsValid c.prune_time s v)
  step-IsValid s (reject_of id) v = reject_in-IsValid id _ (prune-IsValid c.prune_time s v)
  step-IsValid s (unpair_of id) v = unpair-IsValid id s v
  step-IsValid s (get_of id) v = prune-IsValid c.prune_time s v
  step-IsValid s (update_name_of id name) v = update_name-IsValid id name s v
  step-IsValid s (resolve_of query states) v = prune-IsValid c.prune_time s v
  step-IsValid s (list_of) v = prune-IsValid c.prune_time s v

module _ (u : Unicode) (json : PeersJson) where
  -- Any sequence of calls, whatever their arguments and whichever steps of a save fail, leads from a
  -- valid store to a valid one: each ID has one entry in each map, pending entries are requests under
  -- their own IDs, at most max_pending of them, and the entries of `peers` are decided and keep no
  -- token and no code.
  pub run-IsValid : (s : Store) (cs : List (Call × Method)) → IsValid s → IsValid (run u json s cs)
  unfolding run
  run-IsValid s [] v = v
  run-IsValid s ((c, m) ∷ cs) v =
      run-IsValid (step u json s (c, m)) cs (step-IsValid u json c s m v)
