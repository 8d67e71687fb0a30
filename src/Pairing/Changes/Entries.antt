-- ===== src/Pairing/Changes/Entries.antt =====
-- The entry that each method writes keeps the store valid, also where the save fails.
use lanclip.Base.{
  suc, ◌≤◌, ◌≡◌, refl, ◌⊎◌, inl, inr, true, some, Text, arith, length, Option-cases, Result-cases,
  is_some,
}
use lanclip.Base.Dict.{
  lookup, insert, erase, Every, insert-NodupKeys, erase-NodupKeys, length-insert, length-erase-le,
}
use lanclip.Base.Entries.{insert-Every, erase-Every, Every-lookup}
use lanclip.Base.Unicode.{Unicode}
use lanclip.Pairing.Types.{pending, Peer, Store}
use lanclip.Pairing.Disk.{PeersJson, save_locked}
use lanclip.Pairing.Store.{Call}
use lanclip.Pairing.Changes.{
  is_trusted_in, put_in, add_pending, approve_entry, reject_entry, unpair_entry, rename_entry,
  as_trusted, as_rejected,
}
use lanclip.Pairing.Changes.Restore.{
  restore-NodupKeys, restore_if_had-NodupKeys, restore-Every, restore_if_had-Every,
  length-restore_erased, length-restore_if_had,
}
use lanclip.Pairing.Valid.{IsRequest, IsDecided, IsValid, with_maps}

module _ (c : Call) where
  pub add_pending-IsValid :
      (p : Peer) (s : Store)
      → IsValid s
      → (is_some (lookup p.id s.pending_peers) ≡ true)
        ⊎ (suc (length s.pending_peers) ≤ s.max_pending)
      → IsValid (add_pending c p s).0
  unfolding add_pending
  add_pending-IsValid p s v room = elim (Option-cases c.nonce) [
    | inl e ↦ rw (e, add_pending) v
    | inr (token, e) ↦
        let p' : Peer = record p {
          state = pending;
          updated_at = c.stamp_time;
          approval_token = token;
        } in
        rw (e, add_pending)
          (record {
            peers_nodup = v.peers_nodup;
            pending_nodup = insert-NodupKeys p.id p' s.pending_peers v.pending_nodup;
            decided = v.decided;
            requests = insert-Every IsRequest p.id p' s.pending_peers (refl, refl) v.requests;
            bounded = ground (arith, length-insert p.id p' s.pending_peers, v.bounded);
          })
  ]

  pub put_in-IsValid : (p : Peer) (s : Store) → IsValid s → IsValid (put_in c p s).0
  unfolding put_in
  put_in-IsValid p s v = elim (Option-cases (is_trusted_in (lookup p.id s.peers))) [
    | inr (old, e) ↦ rw (e, put_in) (ground (arith, v))
    | inl e ↦ rw (e, put_in) (grind (arith, v, add_pending-IsValid))
  ]

module _ (u : Unicode) (json : PeersJson) (c : Call) where
  pub approve_entry-IsValid :
      (id : Text) (p : Peer) (s : Store)
      → IsValid s
      → lookup id s.pending_peers ≡ some p
      → IsValid (approve_entry u json c id p s).0
  unfolding approve_entry
  approve_entry-IsValid id p s v e =
      let now = c.stamp_time in
      let peers' = insert id (as_trusted now p) s.peers in
      let pending' = erase id s.pending_peers in
      let nodup = insert-NodupKeys id (as_trusted now p) s.peers v.peers_nodup in
      let decided : Every IsDecided peers' =
        insert-Every IsDecided id (as_trusted now p) s.peers ((λ h. cc), refl, refl) v.decided in
      let left = erase-NodupKeys id s.pending_peers v.pending_nodup in
      let requests = erase-Every IsRequest id s.pending_peers v.requests in
      elim (Result-cases (save_locked json c.io peers' s.disk).1) [
        | inl (x, done) ↦
            rw (done, approve_entry)
              (with_maps s _ refl nodup left decided requests
                (omega (arith, length-erase-le id s.pending_peers, v.bounded)))
        | inr (x, failed) ↦
            rw (failed, approve_entry)
              (with_maps s _ refl (restore-NodupKeys id (lookup id s.peers) peers' nodup)
                (insert-NodupKeys id p pending' left)
                (restore-Every IsDecided id s.peers v.decided peers' decided)
                (insert-Every IsRequest id p pending'
                  (Every-lookup IsRequest id s.pending_peers p v.requests e) requests)
                (omega (arith, length-restore_erased id s.pending_peers p e, v.bounded)))
      ]

  pub reject_entry-IsValid :
      (id : Text) (p : Peer) (s : Store) → IsValid s → IsValid (reject_entry u json c id p s).0
  unfolding reject_entry
  reject_entry-IsValid id p s v =
      let now = c.stamp_time in
      let peers' = insert id (as_rejected now p) s.peers in
      let pending' = erase id s.pending_peers in
      let nodup = insert-NodupKeys id (as_rejected now p) s.peers v.peers_nodup in
      let decided : Every IsDecided peers' =
        insert-Every IsDecided id (as_rejected now p) s.peers ((λ h. cc), refl, refl) v.decided in
      let left = erase-NodupKeys id s.pending_peers v.pending_nodup in
      let requests = erase-Every IsRequest id s.pending_peers v.requests in
      elim (Result-cases (save_locked json c.io peers' s.disk).1) [
        | inl (x, done) ↦
            rw (done, reject_entry)
              (with_maps s _ refl nodup left decided requests
                (omega (arith, length-erase-le id s.pending_peers, v.bounded)))
        | inr (x, failed) ↦
            rw (failed, reject_entry)
              (with_maps s _ refl (restore-NodupKeys id (lookup id s.peers) peers' nodup)
                (restore_if_had-NodupKeys id (lookup id s.pending_peers) pending' left)
                (restore-Every IsDecided id s.peers v.decided peers' decided)
                (restore_if_had-Every IsRequest id s.pending_peers v.requests pending' requests)
                (omega (arith, length-restore_if_had id s.pending_peers, v.bounded)))
      ]

  pub unpair_entry-IsValid :
      (id : Text) (s : Store) → IsValid s → IsValid (unpair_entry u json c id s).0
  unfolding unpair_entry
  unpair_entry-IsValid id s v =
      let peers' = erase id s.peers in
      let pending' = erase id s.pending_peers in
      let nodup = erase-NodupKeys id s.peers v.peers_nodup in
      let decided : Every IsDecided peers' = erase-Every IsDecided id s.peers v.decided in
      let left = erase-NodupKeys id s.pending_peers v.pending_nodup in
      let requests = erase-Every IsRequest id s.pending_peers v.requests in
      elim (Result-cases (save_locked json c.io peers' s.disk).1) [
        | inl (x, done) ↦
            rw (done, unpair_entry)
              (with_maps s _ refl nodup left decided requests
                (omega (arith, length-erase-le id s.pending_peers, v.bounded)))
        | inr (x, failed) ↦
            rw (failed, unpair_entry)
              (with_maps s _ refl (restore_if_had-NodupKeys id (lookup id s.peers) peers' nodup)
                (restore_if_had-NodupKeys id (lookup id s.pending_peers) pending' left)
                (restore_if_had-Every IsDecided id s.peers v.decided peers' decided)
                (restore_if_had-Every IsRequest id s.pending_peers v.requests pending' requests)
                (omega (arith, length-restore_if_had id s.pending_peers, v.bounded)))
      ]

  pub rename_entry-IsValid :
      (id : Text) (old : Peer) (name : Text) (s : Store)
      → IsValid s
      → lookup id s.peers ≡ some old
      → IsValid (rename_entry u json c id old name s).0
  unfolding rename_entry
  rename_entry-IsValid id old name s v e =
      let new : Peer = record old { name = name; updated_at = c.stamp_time } in
      let peers' = insert id new s.peers in
      let was : IsDecided id old = Every-lookup IsDecided id s.peers old v.decided e in
      let nodup = insert-NodupKeys id new s.peers v.peers_nodup in
      let decided : Every IsDecided peers' = insert-Every IsDecided id new s.peers was v.decided in
      elim (Result-cases (save_locked json c.io peers' s.disk).1) [
        | inl (x, done) ↦
            rw (done, rename_entry)
              (with_maps s _ refl nodup v.pending_nodup decided v.requests v.bounded)
        | inr (x, failed) ↦
            rw (failed, rename_entry)
              (with_maps s _ refl (insert-NodupKeys id old peers' nodup) v.pending_nodup
                (insert-Every IsDecided id old peers' was decided) v.requests v.bounded)
      ]
