-- ===== src/Pairing/Changes/Outcome.antt =====
-- A change is saved and kept, or rolled back.
use lanclip.Base.{◌≡◌, refl, ◌⊎◌, inl, inr, some, Text, Result, ok, err}
use lanclip.Base.Dict.{Dict, lookup, insert, erase, SameMap}
use lanclip.Base.Unicode.{Unicode}
use lanclip.Pairing.Types.{Peer, Store, Error}
use lanclip.Pairing.Disk.{PeersJson, save_locked_cases}
use lanclip.Pairing.Mirror.{Mirrors}
use lanclip.Pairing.Store.{Call}
use lanclip.Pairing.Changes.{
  approve_entry, reject_entry, unpair_entry, rename_entry, as_trusted, as_rejected,
}
use lanclip.Pairing.Changes.Restore.{
  restore-insert, restore_if_had-erase, insert-erase, insert-insert,
}

-- The two maps stand for the same entries, and the file is untouched.
pub record Unchanged (s t : Store) : Type 0 where
  pub same_peers : SameMap t.peers s.peers
  pub same_pending : SameMap t.pending_peers s.pending_peers
  pub same_file : t.disk.file ≡ s.disk.file

pub record Committed (json : PeersJson) (peers' pending' : Dict Peer)
    (r : Store × Result Error (Unit {0})) : Type 0 where
  pub succeeded : r.1 ≡ ok tt
  pub new_peers : r.0.peers ≡ peers'
  pub new_pending : r.0.pending_peers ≡ pending'
  pub mirrors : Mirrors json r.0

pub record RolledBack (s : Store) (r : Store × Result Error (Unit {0})) : Type 0 where
  pub error : Error
  pub failed : r.1 ≡ err error
  pub unchanged : Unchanged s r.0

abbrev pub Outcome :
    PeersJson → Dict Peer → Dict Peer → Store → Store × Result Error (Unit {0}) → Type 0
Outcome json peers' pending' s r = Committed json peers' pending' r ⊎ RolledBack s r

module _ (u : Unicode) (json : PeersJson) (c : Call) where
  pub approve_entry-Outcome :
      (id : Text) (p : Peer) (s : Store)
      → lookup id s.pending_peers ≡ some p
      → Outcome json
          (insert id (as_trusted c.stamp_time p) s.peers)
          (erase id s.pending_peers)
          s
          (approve_entry u json c id p s)
  unfolding approve_entry
  approve_entry-Outcome id p s found =
      let peers' = insert id (as_trusted c.stamp_time p) s.peers in
      elim (save_locked_cases json c.io peers' s.disk) [
        | inl (b, e, m, w, _) ↦
            rw (e, approve_entry)
              (inl (record {
                succeeded = refl;
                new_peers = refl;
                new_pending = refl;
                mirrors = record { bytes = b; encoded = m; written = w };
              }))
        | inr (x, e, kept, _) ↦
            rw (e, approve_entry)
              (inr (record {
                error = x;
                failed = refl;
                unchanged = record {
                  same_peers = restore-insert id s.peers (as_trusted c.stamp_time p);
                  same_pending = insert-erase id s.pending_peers p found;
                  same_file = kept;
                };
              }))
      ]

  pub reject_entry-Outcome :
      (id : Text) (p : Peer) (s : Store)
      → Outcome json
          (insert id (as_rejected c.stamp_time p) s.peers)
          (erase id s.pending_peers)
          s
          (reject_entry u json c id p s)
  unfolding reject_entry
  reject_entry-Outcome id p s =
      let peers' = insert id (as_rejected c.stamp_time p) s.peers in
      elim (save_locked_cases json c.io peers' s.disk) [
        | inl (b, e, m, w, _) ↦
            rw (e, reject_entry)
              (inl (record {
                succeeded = refl;
                new_peers = refl;
                new_pending = refl;
                mirrors = record { bytes = b; encoded = m; written = w };
              }))
        | inr (x, e, kept, _) ↦
            rw (e, reject_entry)
              (inr (record {
                error = x;
                failed = refl;
                unchanged = record {
                  same_peers = restore-insert id s.peers (as_rejected c.stamp_time p);
                  same_pending = restore_if_had-erase id s.pending_peers;
                  same_file = kept;
                };
              }))
      ]

  pub unpair_entry-Outcome :
      (id : Text) (s : Store)
      → Outcome json (erase id s.peers) (erase id s.pending_peers) s (unpair_entry u json c id s)
  unfolding unpair_entry
  unpair_entry-Outcome id s = elim (save_locked_cases json c.io (erase id s.peers) s.disk) [
    | inl (b, e, m, w, _) ↦
        rw (e, unpair_entry)
          (inl (record {
            succeeded = refl;
            new_peers = refl;
            new_pending = refl;
            mirrors = record { bytes = b; encoded = m; written = w };
          }))
    | inr (x, e, kept, _) ↦
        rw (e, unpair_entry)
          (inr (record {
            error = x;
            failed = refl;
            unchanged = record {
              same_peers = restore_if_had-erase id s.peers;
              same_pending = restore_if_had-erase id s.pending_peers;
              same_file = kept;
            };
          }))
  ]

  pub rename_entry-Outcome :
      (id : Text) (old : Peer) (name : Text) (s : Store)
      → lookup id s.peers ≡ some old
      → Outcome json
          (insert id (record old { name = name; updated_at = c.stamp_time }) s.peers)
          s.pending_peers
          s
          (rename_entry u json c id old name s)
  unfolding rename_entry
  rename_entry-Outcome id old name s found =
      let new : Peer = record old { name = name; updated_at = c.stamp_time } in
      elim (save_locked_cases json c.io (insert id new s.peers) s.disk) [
        | inl (b, e, m, w, _) ↦
            rw (e, rename_entry)
              (inl (record {
                succeeded = refl;
                new_peers = refl;
                new_pending = refl;
                mirrors = record { bytes = b; encoded = m; written = w };
              }))
        | inr (x, e, kept, _) ↦
            rw (e, rename_entry)
              (inr (record {
                error = x;
                failed = refl;
                unchanged = record {
                  same_peers = insert-insert id s.peers old new found;
                  same_pending = λ _. refl;
                  same_file = kept;
                };
              }))
      ]
