-- ===== src/Pairing/Changes.antt =====
-- internal/pairing/store.go: the methods of `Store` that change more than expired entries. Each
-- returns the new store and what the Go method returns.
pub mod Ended
pub mod Restore
pub mod Entries
pub mod Grant
pub mod Approval
pub mod Trust
pub mod Atomic
pub mod Outcome
pub mod Invariant
pub mod Stored
use lanclip.Base.{
  ℕ, Bool, false, not, ◌&&◌, Option, none, some, [], ◌∷◌, Text, text_eq, leb, if◌then◌else◌, length,
  is_some, Result, ok, err,
}
use lanclip.Base.Dict.{Dict, lookup, insert, erase, when}
use lanclip.Base.Unicode.{Unicode}
use lanclip.Pairing.Types.{
  pending, trusted, rejected, state_eq, Peer, Store, Error, identity_changed, already_trusted,
  already_pending, too_many_pending, nonce_failed, request_changed, empty_name, unknown_peer,
}
use lanclip.Pairing.Disk.{PeersJson, save_locked}
use lanclip.Pairing.Name.{normalize_device_name}
use lanclip.Pairing.Store.{Call, prune_pending_locked, resolve_locked}

-- A map entry put back as it was: `if had { m[id] = old } else { delete(m, id) }`.
abbrev pub restore : Text → Option Peer → Dict Peer → Dict Peer
restore id (some old) m = insert id old m
restore id none m = erase id m

-- The same with no `else`.
abbrev pub restore_if_had : Text → Option Peer → Dict Peer → Dict Peer
restore_if_had id (some old) m = insert id old m
restore_if_had id none m = m

pub is_trusted_in : Option Peer → Option Peer
unfolding state_eq
is_trusted_in = when (λ p. state_eq p.state trusted)

pub conflicting : Text → Option Peer → Bool
conflicting fp none = false
conflicting fp (some old) = not (text_eq old.fingerprint fp)

-- The tail of PutPending, once no other entry stands in the way.
pub add_pending : Call → Peer → Store → Store × Result Error Peer
add_pending c p s = elim c.nonce [
  | none ↦ (s, err nonce_failed)
  | some token ↦
      let p' : Peer = record p {
        state = pending;
        updated_at = c.stamp_time;
        approval_token = token;
      } in
      (record s { pending_peers = insert p.id p' s.pending_peers }, ok p')
]

pub put_in : Call → Peer → Store → Store × Result Error Peer
unfolding is_trusted_in conflicting add_pending
put_in c p s = elim (is_trusted_in (lookup p.id s.peers)) [
  | some old ↦
      if text_eq old.fingerprint p.fingerprint
      then (s, err already_trusted)
      else (s, err identity_changed)
  | none ↦
      if conflicting p.fingerprint (lookup p.id s.pending_peers)
      then (s, err already_pending)
      else if not (is_some (lookup p.id s.pending_peers))
          && leb s.max_pending (length s.pending_peers)
      then (s, err too_many_pending)
      else add_pending c p s
]

unfoldable pub put_pending : Call → Peer → Store → Store × Result Error Peer
unfolding put_in
put_pending c p s = put_in c p (prune_pending_locked c.prune_time s)

-- The four tests of Approve.
abbrev pub matches_request : Text → Text → Text → Peer → Bool
matches_request token fingerprint code p =
    not (text_eq token [])
    && text_eq token p.approval_token
    && text_eq fingerprint p.fingerprint
    && text_eq code p.comparison_code

-- Approve's entry in `peers`.
abbrev pub as_trusted : ℕ → Peer → Peer
as_trusted now p = record p {
  state = trusted;
  comparison_code = [];
  approval_token = [];
  updated_at = now;
}

abbrev pub as_rejected : ℕ → Peer → Peer
as_rejected now p = record p {
  state = rejected;
  comparison_code = [];
  approval_token = [];
  updated_at = now;
}

module _ (u : Unicode) (json : PeersJson) (c : Call) where
  -- `delete(s.pending, id)`, the new entry, the save, and on a failed save the two entries as before.
  pub approve_entry : Text → Peer → Store → Store × Result Error (Unit {0})
  approve_entry id p s =
      let peers' = insert id (as_trusted c.stamp_time p) s.peers in
      let pending' = erase id s.pending_peers in
      let (d, saved) = save_locked json c.io peers' s.disk in
      elim saved [
        | ok _ ↦ (record s { disk = d; peers = peers'; pending_peers = pending' }, ok tt)
        | err e ↦ (
          record s {
            disk = d;
            peers = restore id (lookup id s.peers) peers';
            pending_peers = insert id p pending';
          },
          err e,
        )
      ]

  pub approve_in : Text → Text → Text → Text → Store → Store × Result Error (Unit {0})
  unfolding approve_entry
  approve_in id token fingerprint code s = elim (resolve_locked u s id (pending ∷ [])) [
    | err e ↦ (s, err e)
    | ok (id', p) ↦
        if matches_request token fingerprint code p
        then approve_entry id' p s
        else (s, err request_changed)
  ]

  unfoldable pub approve : Text → Text → Text → Text → Store → Store × Result Error (Unit {0})
  unfolding approve_in
  approve id token fingerprint code s =
      approve_in id token fingerprint code (prune_pending_locked c.prune_time s)

  pub reject_entry : Text → Peer → Store → Store × Result Error (Unit {0})
  reject_entry id p s =
      let peers' = insert id (as_rejected c.stamp_time p) s.peers in
      let pending' = erase id s.pending_peers in
      let (d, saved) = save_locked json c.io peers' s.disk in
      elim saved [
        | ok _ ↦ (record s { disk = d; peers = peers'; pending_peers = pending' }, ok tt)
        | err e ↦ (
          record s {
            disk = d;
            peers = restore id (lookup id s.peers) peers';
            pending_peers = restore_if_had id (lookup id s.pending_peers) pending';
          },
          err e,
        )
      ]

  pub reject_in : Text → Store → Store × Result Error (Unit {0})
  unfolding reject_entry
  reject_in id s = elim (resolve_locked u s id []) [
    | err e ↦ (s, err e)
    | ok (id', p) ↦ reject_entry id' p s
  ]

  unfoldable pub reject : Text → Store → Store × Result Error (Unit {0})
  unfolding reject_in
  reject id s = reject_in id (prune_pending_locked c.prune_time s)

  pub unpair_entry : Text → Store → Store × Result Error (Unit {0})
  unpair_entry id s =
      let peers' = erase id s.peers in
      let pending' = erase id s.pending_peers in
      let (d, saved) = save_locked json c.io peers' s.disk in
      elim saved [
        | ok _ ↦ (record s { disk = d; peers = peers'; pending_peers = pending' }, ok tt)
        | err e ↦ (
          record s {
            disk = d;
            peers = restore_if_had id (lookup id s.peers) peers';
            pending_peers = restore_if_had id (lookup id s.pending_peers) pending';
          },
          err e,
        )
      ]

  -- Unpair looks the peer up without dropping expired entries.
  unfoldable pub unpair : Text → Store → Store × Result Error (Unit {0})
  unfolding unpair_entry
  unpair id s = elim (resolve_locked u s id []) [
    | err e ↦ (s, err e)
    | ok (id', p) ↦ unpair_entry id' s
  ]

  pub rename_entry : Text → Peer → Text → Store → Store × Result Error (Unit {0})
  rename_entry id old name s =
      let peers' = insert id (record old { name = name; updated_at = c.stamp_time }) s.peers in
      let (d, saved) = save_locked json c.io peers' s.disk in
      elim saved [
        | ok _ ↦ (record s { disk = d; peers = peers' }, ok tt)
        | err e ↦ (record s { disk = d; peers = insert id old peers' }, err e)
      ]

  unfoldable pub update_name : Text → Text → Store → Store × Result Error (Unit {0})
  unfolding rename_entry
  update_name id raw s =
      let name = normalize_device_name u raw in
      if text_eq name [] then (s, err empty_name) else elim (lookup id s.peers) [
        | none ↦ (s, err unknown_peer)
        | some p ↦ if text_eq p.name name then (s, ok tt) else rename_entry id p name s
      ]
