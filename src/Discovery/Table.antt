-- ===== src/Discovery/Table.antt =====
-- internal/discovery/discovery.go: what holds of the table `s.peers`.
use lanclip.Base.{
  ℕ, ◌≤◌, ◌≡◌, refl, true, false, not, ◌&&◌, ◌||◌, [], ◌∷◌, Text, text_eq, text_eq_iff,
  text_eq_refl, ltb, leb, length, is_some, arith, ◌⊎◌, inl, inr, Bool-cases,
}
use lanclip.Base.Dict
use lanclip.Base.Dict.{Dict, lookup, insert, erase, keep_values, NodupKeys, Every}
use lanclip.Base.Entries.{insert-Every, erase-Every, keep_values-Every}
use lanclip.Base.Unicode.{Unicode}
use lanclip.Identity.Uuid.{valid_uuid}
use lanclip.Identity.Hex.{valid_fingerprint}
use lanclip.Discovery.{
  Peer, ServiceEntry, max_peers, prune_locked, oldest, put_peer_locked, is_announcement, observe,
  is_recent, read_fields, announced,
}
use lanclip.Pairing.Name.{normalize_device_name}

-- An entry of the table of the device `self`.
pub record IsListed (self id : Text) (p : Peer) : Type 0 where
  pub keyed : p.id ≡ id
  pub uuid : valid_uuid id ≡ true
  pub other : text_eq id self ≡ false
  pub pin : valid_fingerprint p.fingerprint 8 ≡ true
  pub named : text_eq p.name [] ≡ false

pub record IsValid (self : Text) (m : Dict Peer) : Type 0 where
  pub nodup : NodupKeys m
  pub bounded : length m ≤ max_peers
  pub listed : Every (IsListed self) m

oldest-key :
    (m : Dict Peer) (id : Text) (seen : ℕ)
    → (is_some (lookup (oldest m id seen) m) ≡ true) ⊎ (oldest m id seen ≡ id)
unfolding oldest lookup
oldest-key [] id seen = inr refl
oldest-key ((j, p) ∷ m) id seen = elim (Bool-cases (text_eq id [] || ltb p.last_seen seen)) [
  | inl e ↦
      inl (ground (arith, e, oldest-key m j p.last_seen, text_eq_iff j (oldest m j p.last_seen)))
  | inr e ↦ elim (oldest-key m id seen) [
    | inl f ↦ inl (ground (arith, e, f))
    | inr f ↦ inr (ground (arith, e, f))
  ]
]

-- The peer that makes room is in the table.
oldest-present : (m : Dict Peer) → 1 ≤ length m → is_some (lookup (oldest m [] 0) m) ≡ true
unfolding oldest lookup
oldest-present [] h = ground arith
oldest-present ((j, p) ∷ m) h =
    ground
      (arith, text_eq_refl [], oldest-key m j p.last_seen, text_eq_iff j (oldest m j p.last_seen))

prune_locked-IsValid :
    (self : Text) (now : ℕ) (m : Dict Peer) → IsValid self m → IsValid self (prune_locked now m)
unfolding prune_locked
prune_locked-IsValid self now m v = record {
  nodup = Dict.keep_values-NodupKeys _ m v.nodup;
  bounded = omega (arith, v.bounded, Dict.length-keep_values-le (is_recent now) m);
  listed = keep_values-Every (IsListed self) _ m v.listed;
}

insert-IsValid :
    (self : Text) (p : Peer) (m : Dict Peer)
    → IsListed self p.id p
    → NodupKeys m
    → Every (IsListed self) m
    → length (insert p.id p m) ≤ max_peers
    → IsValid self (insert p.id p m)
insert-IsValid self p m l u a b = record {
  nodup = Dict.insert-NodupKeys p.id p m u;
  bounded = b;
  listed = insert-Every (IsListed self) p.id p m l a;
}

-- The table stays without doubles, within its bound, and all its entries stay sound.
put_peer_locked-IsValid :
    (self : Text) (p : Peer) (m : Dict Peer)
    → IsListed self p.id p
    → IsValid self m
    → IsValid self (put_peer_locked p m)
unfolding put_peer_locked
put_peer_locked-IsValid self p m l v =
    let live = prune_locked p.last_seen m in
    let w = prune_locked-IsValid self p.last_seen m v in
    let less = erase (oldest live [] 0) live in
    let full = not (is_some (lookup p.id live)) && leb max_peers (length live) in
    elim (Bool-cases full) [
      | inl e ↦
          let less_le : length (insert p.id p less) ≤ max_peers = ground (
            arith,
            e,
            w.bounded,
            oldest-present live,
            Dict.length-erase-lt (oldest live [] 0) live,
            Dict.length-insert p.id p less,
          ) in
          rw e (
            insert-IsValid self p less l (Dict.erase-NodupKeys _ live w.nodup)
              (erase-Every (IsListed self) _ live w.listed) less_le)
      | inr e ↦
          let live_le : length (insert p.id p live) ≤ max_peers =
            ground (arith, e, w.bounded, Dict.length-insert p.id p live) in
          rw e (insert-IsValid self p live l w.nodup w.listed live_le)
    ]

-- Whatever is announced, observe keeps the table of discovered peers sound: no two entries for one ID,
-- no more than max_peers entries and none for this device itself, and each entry stands under its own
-- ID, a valid UUID, with a valid fingerprint of eight bytes and a name.
pub observe-IsValid :
    (u : Unicode) (join : Text → ℕ → Text) (self : Text) (now : ℕ) (e : ServiceEntry)
    (m : Dict Peer)
    → IsValid self m
    → IsValid self (observe u join self now e m)
unfolding observe is_announcement
observe-IsValid u join self now e m v =
    let fields = read_fields e.text [] in
    let name = normalize_device_name u e.instance_name in
    let p = announced u join now e fields in
    elim (Bool-cases (is_announcement self fields name)) [
      | inl f ↦ rw f (
          put_peer_locked-IsValid self p m
            (record {
              keyed = refl;
              uuid = ground (arith, f);
              other = ground (arith, f);
              pin = ground (arith, f);
              named = ground (arith, f);
            })
            v)
      | inr f ↦ rw f v
    ]
