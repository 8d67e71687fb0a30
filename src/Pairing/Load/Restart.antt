-- ===== src/Pairing/Load/Restart.antt =====
-- A service that starts again finds the peers that it had.
use lanclip.Base.{
  ◌≡◌, refl, ◌∙◌, sym, inl, inr, some, Text, arith, ok, true, false, [], ◌∷◌, Bool-cases, any,
}
use lanclip.Base.Dict.{Dict, lookup, NodupKeys, Every, SameMap, lookup-insert}
use lanclip.Base.Entries.{Every-of_lookup, Every-lookup}
use lanclip.Pairing.Types.{Peer, Store, Disk, pending, state_eq, state_eq_iff}
use lanclip.Pairing.Disk.{PeersJson, SaveIo, file_of}
use lanclip.Pairing.Mirror.{Mirrors}
use lanclip.Pairing.Valid.{IsValid, IsDecided}
use lanclip.Pairing.Load.{load, loaded_store, session_free, has_pending, new_store}

-- Reading back what was written for the map gives the same entries.
abbrev pub ReadsBack : PeersJson → Dict Peer → Type 0
ReadsBack json m =
    (b : Text)
    → json.marshal m ≡ some b
    → (n : Dict Peer) × (json.unmarshal (file_of b) ≡ some n) × NodupKeys n × SameMap n m

decided_not_pending : (n : Dict Peer) → Every IsDecided n → has_pending n ≡ false
unfolding any
decided_not_pending [] e = refl
decided_not_pending ((id, p) ∷ n) e = elim (Bool-cases (state_eq p.state pending)) [
  | inl is_pending ↦ absurd (e.0.0 ((state_eq_iff p.state pending).0 is_pending))
  | inr other ↦ ground (arith, decided_not_pending n e.1, other)
]

cleaned_same :
    (p : Peer) (id : Text)
    → IsDecided id p
    → record p { approval_token = []; comparison_code = [] } ≡ p
cleaned_same p id d = ground (arith, d.1, d.2)

session_free-SameMap : (n : Dict Peer) → Every IsDecided n → SameMap (session_free n) n
unfolding session_free lookup
session_free-SameMap [] e k = refl
session_free-SameMap ((id, p) ∷ n) e k = elim (Bool-cases (state_eq p.state pending)) [
  | inl is_pending ↦ absurd (e.0.0 ((state_eq_iff p.state pending).0 is_pending))
  | inr other ↦
      rw (other, cleaned_same p id e.0)
        (ground (arith, lookup-insert k id p (session_free n), session_free-SameMap n e.1 k))
]

load_found :
    (json : PeersJson) (io : SaveIo) (d : Disk) (b : Text) (n : Dict Peer)
    → d.file ≡ some b
    → json.unmarshal b ≡ some n
    → load json io true d ≡ loaded_store json io n d
unfolding load
load_found json io d b n e f = simp (e, load) (simp (f, load))

loaded_decided :
    (json : PeersJson) (io : SaveIo) (d : Disk) (n : Dict Peer)
    → has_pending n ≡ false
    → loaded_store json io n d ≡ (d, ok (new_store (session_free n) d))
unfolding loaded_store
loaded_decided json io d n e = rw e

pub record Restarted (json : PeersJson) (io : SaveIo) (s : Store) : Type 0 where
  pub store : Store
  pub loads : load json io true s.disk ≡ (s.disk, ok store)
  pub same_peers : SameMap store.peers s.peers
  pub no_pending : store.pending_peers ≡ []

-- Load on the file that a valid store mirrors succeeds without touching it, whatever the file system
-- would do to a save, and gives a store with the same peers and no pending request, if the encoding
-- of those peers reads back.
pub load-restart :
    (json : PeersJson) (io : SaveIo) (s : Store)
    → IsValid s
    → Mirrors json s
    → ReadsBack json s.peers
    → Restarted json io s
load-restart json io s v m reads =
    let (n, decoded, nodup, same) = reads m.bytes m.encoded in
    let decided : Every IsDecided n =
      Every-of_lookup IsDecided n nodup
        (λ k p e. Every-lookup IsDecided k s.peers p v.decided (sym (same k) ∙ e)) in
    record {
      store = new_store (session_free n) s.disk;
      loads =
          load_found json io s.disk (file_of m.bytes) n m.written decoded
          ∙ loaded_decided json io s.disk n (decided_not_pending n decided);
      same_peers = λ k. session_free-SameMap n decided k ∙ same k;
      no_pending = refl;
    }
