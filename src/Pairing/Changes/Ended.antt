-- ===== src/Pairing/Changes/Ended.antt =====
-- What a successful Unpair leaves.
use lanclip.Base.{
  ◌≡◌, refl, inl, inr, none, some, [], Text, arith, Option-cases, Result-cases, ok, text_eq_refl,
}
use lanclip.Base.Dict.{lookup, erase, lookup-erase}
use lanclip.Base.Unicode.{Unicode, trim_space}
use lanclip.Pairing.Types.{Peer, Store}
use lanclip.Pairing.Disk.{PeersJson, save_locked}
use lanclip.Pairing.Store.{Call, resolve_locked, allowed}
use lanclip.Pairing.Changes.{unpair, unpair_entry}

module _ (u : Unicode) (json : PeersJson) (c : Call) where
  resolve_own :
      (s : Store) (id : Text) (p : Peer)
      → trim_space u id ≡ id
      → lookup id s.peers ≡ some p
      → (q : Peer) × (resolve_locked u s id [] ≡ ok (id, q))
  unfolding resolve_locked allowed
  resolve_own s id p own e = elim (Option-cases (lookup id s.pending_peers)) [
    | inl x ↦ (p, ground (arith, own, x, e))
    | inr (q, x) ↦ (q, ground (arith, own, x))
  ]

  pub unpair_entry-ended :
      (s : Store) (id : Text)
      → (unpair_entry u json c id s).1 ≡ ok tt
      → (lookup id (unpair_entry u json c id s).0.peers ≡ none)
        × (lookup id (unpair_entry u json c id s).0.pending_peers ≡ none)
  unfolding unpair_entry
  unpair_entry-ended s id e =
      elim (Result-cases (save_locked json c.io (erase id s.peers) s.disk).1) [
        | inr (x, y) ↦ absurd (ground (arith, e, y))
        | inl (x, y) ↦
            rw (unpair_entry, y)
              (
                rw (lookup-erase id id s.peers, text_eq_refl id) refl,
                rw (lookup-erase id id s.pending_peers, text_eq_refl id) refl,
              )
      ]

  -- Unpair that succeeds on the ID of a peer leaves it in neither map.
  pub unpair-ended :
      (s : Store) (id : Text) (p : Peer)
      → trim_space u id ≡ id
      → lookup id s.peers ≡ some p
      → (unpair u json c id s).1 ≡ ok tt
      → (lookup id (unpair u json c id s).0.peers ≡ none)
        × (lookup id (unpair u json c id s).0.pending_peers ≡ none)
  unfolding unpair
  unpair-ended s id p own e h =
      let (q, r) = resolve_own s id p own e in
      rw (unpair, r) (unpair_entry-ended s id (ground (arith, h, r)))
