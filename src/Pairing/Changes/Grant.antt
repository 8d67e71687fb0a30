-- ===== src/Pairing/Changes/Grant.antt =====
-- An approval that names the pending request is granted.
use lanclip.Base.{◌≡◌, refl, none, some, Text, arith, Result, ok, true, [], ◌∷◌, text_eq_refl, ◌&&◌}
use lanclip.Base.Dict.{Dict, lookup, insert, lookup-insert, lookup-erase, lookup-keep_values}
use lanclip.Base.Unicode.{Unicode, trim_space}
use lanclip.Base.Entries.{Every-lookup}
use lanclip.Pairing.Types.{Peer, Store, Error, pending}
use lanclip.Pairing.Disk.{PeersJson, SaveIo, save_locked}
use lanclip.Pairing.Store.{Call, is_fresh, prune_pending_locked, allowed, resolve_locked}
use lanclip.Pairing.Changes.{approve, approve_in, approve_entry, as_trusted, matches_request}
use lanclip.Pairing.Changes.Trust.{TrustedAs}
use lanclip.Pairing.Valid.{IsValid, prune-IsValid, IsRequest}

-- Every step of a save succeeds.
pub record Saves (json : PeersJson) (io : SaveIo) (m : Dict Peer) : Type 0 where
  pub bytes : Text
  pub encodes : json.marshal m ≡ some bytes
  pub steps : (io.create_temp && io.chmod && io.write && io.sync && io.close && io.rename) ≡ true

save_ok :
    (json : PeersJson) (io : SaveIo) (m : Dict Peer) (s : Store)
    → Saves json io m
    → (save_locked json io m s.disk).1 ≡ ok tt
unfolding save_locked
save_ok json io m s w = rw (w.encodes, save_locked) (ground (arith, w.steps))

resolve_exact :
    (u : Unicode) (s : Store) (query : Text) (p : Peer)
    → lookup (trim_space u query) s.pending_peers ≡ some p
    → p.state ≡ pending
    → resolve_locked u s query (pending ∷ []) ≡ ok (trim_space u query, p)
unfolding resolve_locked allowed
resolve_exact u s query p e st = rw (e, st, resolve_locked)

module _ (u : Unicode) (json : PeersJson) (c : Call) where
  -- What an approval that was granted leaves.
  pub record Granted (id : Text) (p : Peer) (r : Store × Result Error (Unit {0})) : Type 0 where
    pub succeeded : r.1 ≡ ok tt
    pub trusts : TrustedAs r.0.peers id p.fingerprint
    pub no_request : lookup id r.0.pending_peers ≡ none

  approve_entry-Granted :
      (s : Store) (id : Text) (p : Peer)
      → lookup id s.pending_peers ≡ some p
      → Saves json c.io (insert id (as_trusted c.stamp_time p) s.peers)
      → Granted id p (approve_entry u json c id p s)
  unfolding approve_entry
  approve_entry-Granted s id p found w =
      let saved = save_ok json c.io (insert id (as_trusted c.stamp_time p) s.peers) s w in
      rw (saved, approve_entry)
        (record {
          succeeded = refl;
          trusts = record {
            peer = as_trusted c.stamp_time p;
            found = rw (lookup-insert, text_eq_refl id);
            is_trusted = refl;
            pinned = refl;
          };
          no_request = rw (lookup-erase, text_eq_refl id);
        })

  approve_in-Granted :
      (s : Store) (query token fp code : Text) (p : Peer)
      → IsValid s
      → lookup (trim_space u query) s.pending_peers ≡ some p
      → matches_request token fp code p ≡ true
      → Saves json c.io (insert (trim_space u query) (as_trusted c.stamp_time p) s.peers)
      → Granted (trim_space u query) p (approve_in u json c query token fp code s)
  unfolding approve_in
  approve_in-Granted s query token fp code p v found match w =
      let st = Every-lookup IsRequest (trim_space u query) s.pending_peers p v.requests found in
      rw (resolve_exact u s query p found st.1, match, approve_in)
        (approve_entry-Granted s (trim_space u query) p found w)

  -- Approve succeeds on a valid store if the query, trimmed, is the ID of a pending request that has
  -- not expired, the token is not empty, token, fingerprint and code are the request's own, and the
  -- save succeeds. Then the request's fingerprint is trusted under the ID and the request is gone.
  pub approve_grants :
      (s : Store) (query token fp code : Text) (p : Peer)
      → IsValid s
      → lookup (trim_space u query) s.pending_peers ≡ some p
      → is_fresh c.prune_time s.pending_ttl p ≡ true
      → matches_request token fp code p ≡ true
      → Saves json c.io (insert (trim_space u query) (as_trusted c.stamp_time p) s.peers)
      → Granted (trim_space u query) p (approve u json c query token fp code s)
  unfolding approve prune_pending_locked
  approve_grants s query token fp code p v found fresh match w =
      approve_in-Granted (prune_pending_locked c.prune_time s) query token fp code p
        (prune-IsValid c.prune_time s v)
        (rw
          (
            lookup-keep_values _ (is_fresh c.prune_time s.pending_ttl) s.pending_peers
                v.pending_nodup,
            found,
          )
          (ground (arith, fresh)))
        match w
