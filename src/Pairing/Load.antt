-- ===== src/Pairing/Load.antt =====
-- internal/pairing/store.go: `Load`.
pub mod Invariant
pub mod Restart
use lanclip.Base.{Bool, none, some, [], ◌∷◌, if◌then◌else◌, any, Result, ok, err}
use lanclip.Base.Dict.{Dict, insert}
use lanclip.Pairing.Types.{
  pending, state_eq, Peer, Disk, Store, Error, read_failed, parse_failed, default_pending_ttl,
  default_max_pending,
}
use lanclip.Pairing.Disk.{PeersJson, SaveIo, save_locked}

abbrev pub new_store : Dict Peer → Disk → Store
new_store peers d = record {
  disk = d;
  peers = peers;
  pending_peers = [];
  pending_ttl = default_pending_ttl;
  max_pending = default_max_pending;
}

-- The loop over the loaded map: pending entries are left out, the others lose token and code.
unfoldable pub session_free : Dict Peer → Dict Peer
unfolding state_eq insert
session_free [] = []
session_free ((id, p) ∷ m) =
    let rest = session_free m in
    if state_eq p.state pending
    then rest
    else insert id (record p { approval_token = []; comparison_code = [] }) rest

-- `removedPending`
abbrev pub has_pending : Dict Peer → Bool
has_pending = any (λ (id, p). state_eq p.state pending)

unfoldable pub saved_store : PeersJson → SaveIo → Dict Peer → Disk → Disk × Result Error Store
saved_store json io peers d =
    let (d', saved) = save_locked json io peers d in
    elim saved [ ok _ ↦ (d', ok (new_store peers d')) | err e ↦ (d', err e) ]

unfoldable pub loaded_store : PeersJson → SaveIo → Dict Peer → Disk → Disk × Result Error Store
unfolding saved_store
loaded_store json io loaded d =
    if has_pending loaded
    then saved_store json io (session_free loaded) d
    else (d, ok (new_store (session_free loaded) d))

-- The flag says whether a file that is there can be read.
unfoldable pub load : PeersJson → SaveIo → Bool → Disk → Disk × Result Error Store
unfolding loaded_store
load json io readable d = elim d.file [
  | none ↦ saved_store json io [] d
  | some b ↦
      if readable
      then elim (json.unmarshal b) [
        | none ↦ (d, err parse_failed)
        | some loaded ↦ loaded_store json io loaded d
      ]
      else (d, err read_failed)
]
