-- ===== src/Pairing/Runs.antt =====
-- internal/pairing/store.go: histories of calls on one store, each under the mutex.
use lanclip.Base.{Bool, true, List, [], ◌∷◌, Text, Result, is_ok, is_some}
use lanclip.Base.Unicode.{Unicode}
use lanclip.Pairing.Types.{State, Peer, Store, Error}
use lanclip.Pairing.Disk.{PeersJson}
use lanclip.Pairing.Store.{Call, resolve, get, list}
use lanclip.Pairing.Changes.{put_pending, approve, reject, unpair, update_name}

-- The exported methods of `Store` that may change it, with their arguments.
pub data Method : Type 0 where
  put_pending_of : Peer → Method
  approve_of : Text → Text → Text → Text → Method
  reject_of unpair_of get_of : Text → Method
  update_name_of : Text → Text → Method
  resolve_of : Text → List State → Method
  list_of : Method

abbrev answer {ℓ} : {A : Type ℓ} → Store × Result Error A → Store × Bool
answer (s, r) = (s, is_ok r)

module _ (u : Unicode) (json : PeersJson) where
  -- The store after one call, and whether the call returned no error.
  unfoldable pub perform : Store → Call × Method → Store × Bool
  perform s (c, put_pending_of p) = answer (put_pending c p s)
  perform s (c, approve_of id token fingerprint code) =
      answer (approve u json c id token fingerprint code s)
  perform s (c, reject_of id) = answer (reject u json c id s)
  perform s (c, unpair_of id) = answer (unpair u json c id s)
  perform s (c, get_of id) = let (s', found) = get c id s in (s', is_some found)
  perform s (c, update_name_of id name) = answer (update_name u json c id name s)
  perform s (c, resolve_of query states) = answer (resolve u c query states s)
  perform s (c, list_of) = let (s', _) = list c s in (s', true)

  abbrev pub step : Store → Call × Method → Store
  step s m = (perform s m).0

  unfoldable pub run : Store → List (Call × Method) → Store
  run s [] = s
  run s (c ∷ cs) = run (step s c) cs
