-- ===== src/Pairing/Load/Invariant.antt =====
-- `Load` makes a valid store of whatever the file holds.
use mathlib.Core.Path.{subst}
use lanclip.Base.{
  ◌≡◌, refl, inl, inr, Bool, false, [], ◌∷◌, arith, Result, ok, err, Option-cases, Result-cases,
  Bool-cases,
}
use lanclip.Base.Dict.{Dict, NodupKeys, Every, insert-NodupKeys}
use lanclip.Base.Entries.{insert-Every}
use lanclip.Pairing.Types.{state_eq, state_eq_iff, Disk, pending, Peer, Store, Error}
use lanclip.Pairing.Disk.{PeersJson, SaveIo, save_locked}
use lanclip.Pairing.Load.{load, new_store, session_free, saved_store, loaded_store, has_pending}
use lanclip.Pairing.Valid.{IsDecided, IsValid}

IsDecided-cleaned :
    (p : Peer)
    → state_eq p.state pending ≡ false
    → IsDecided p.id (record p { approval_token = []; comparison_code = [] })
IsDecided-cleaned p h = ((λ e. ground (arith, state_eq_iff p.state pending)), refl, refl)

session_free-IsDecided :
    (m : Dict Peer) → Every IsDecided (session_free m) × NodupKeys (session_free m)
unfolding session_free
session_free-IsDecided [] = (tt, tt)
session_free-IsDecided ((id, p) ∷ m) = elim (Bool-cases (state_eq p.state pending)) [
  | inl e ↦ rw e (session_free-IsDecided m)
  | inr e ↦
      let (d, n) = session_free-IsDecided m in
      let p' : Peer = record p { approval_token = []; comparison_code = [] } in
      rw e (
        insert-Every IsDecided id p' (session_free m) (IsDecided-cleaned p e) d,
        insert-NodupKeys id p' (session_free m) n,
      )
]

new_store-IsValid : (m : Dict Peer) (d : Disk) → IsValid (new_store (session_free m) d)
new_store-IsValid m d = record {
  peers_nodup = (session_free-IsDecided m).1;
  pending_nodup = tt;
  decided = (session_free-IsDecided m).0;
  requests = tt;
  bounded = omega arith;
}

abbrev ValidIfOk : Result Error Store → Type 0
ValidIfOk (ok s) = IsValid s
ValidIfOk (err e) = Unit {0}

saved_store-ValidIfOk :
    (json : PeersJson) (io : SaveIo) (m : Dict Peer) (d : Disk)
    → ValidIfOk (saved_store json io (session_free m) d).1
unfolding saved_store
saved_store-ValidIfOk json io m d = elim (Result-cases (save_locked json io (session_free m) d).1) [
  | inl (x, e) ↦
      rw (e, saved_store) (new_store-IsValid m (save_locked json io (session_free m) d).0)
  | inr (x, e) ↦ rw (e, saved_store) tt
]

loaded_store-ValidIfOk :
    (json : PeersJson) (io : SaveIo) (m : Dict Peer) (d : Disk)
    → ValidIfOk (loaded_store json io m d).1
unfolding loaded_store
loaded_store-ValidIfOk json io m d = elim (Bool-cases (has_pending m)) [
  | inl e ↦ rw e (saved_store-ValidIfOk json io m d)
  | inr e ↦ rw e (new_store-IsValid m d)
]

load-ValidIfOk :
    (json : PeersJson) (io : SaveIo) (readable : Bool) (d : Disk)
    → ValidIfOk (load json io readable d).1
unfolding load session_free
load-ValidIfOk json io readable d = elim (Option-cases d.file) [
  | inl e ↦ rw (e, load) (saved_store-ValidIfOk json io [] d)
  | inr (b, e) ↦
      rw (e, load)
        (elim (Bool-cases readable) [
          | inl r ↦ rw r (elim (Option-cases (json.unmarshal b)) [
            | inl f ↦ rw (f, load) tt
            | inr (m, f) ↦ rw (f, load) (loaded_store-ValidIfOk json io m d)
          ])
          | inr r ↦ rw r tt
        ])
]

-- Whatever the file of peers holds, a store that Load returns is valid.
pub load-IsValid :
    (json : PeersJson) (io : SaveIo) (readable : Bool) (d : Disk) (s : Store)
    → (load json io readable d).1 ≡ ok s
    → IsValid s
load-IsValid json io readable d s e = subst ValidIfOk e (load-ValidIfOk json io readable d)
