-- ===== src/Pairing/Changes/Restore.antt =====
-- What the roll-back of a map entry leaves.
use lanclip.Base.{
  ◌≤◌, ◌≡◌, refl, inl, inr, Option, none, some, Text, text_eq_iff, text_eq_refl, arith, length,
  Option-cases,
}
use lanclip.Base.Dict.{
  Dict, lookup, insert, erase, NodupKeys, Every, SameMap, insert-NodupKeys, erase-NodupKeys,
  lookup-insert, lookup-erase, length-insert, length-erase-le, length-erase-lt,
}
use lanclip.Base.Entries.{insert-Every, erase-Every, Every-lookup}
use lanclip.Pairing.Types.{Peer}
use lanclip.Pairing.Changes.{restore, restore_if_had}

pub restore-NodupKeys :
    (id : Text) (o : Option Peer) (m : Dict Peer) → NodupKeys m → NodupKeys (restore id o m)
restore-NodupKeys id none m u = erase-NodupKeys id m u
restore-NodupKeys id (some old) m u = insert-NodupKeys id old m u

pub restore_if_had-NodupKeys :
    (id : Text) (o : Option Peer) (m : Dict Peer) → NodupKeys m → NodupKeys (restore_if_had id o m)
restore_if_had-NodupKeys id none m u = u
restore_if_had-NodupKeys id (some old) m u = insert-NodupKeys id old m u

module _ (P : Text → Peer → Type 0) (id : Text) (base : Dict Peer) (all : Every P base) where
  restore_to-Every :
      (o : Option Peer) (m : Dict Peer) → lookup id base ≡ o → Every P m → Every P (restore id o m)
  restore_to-Every none m e p = erase-Every P id m p
  restore_to-Every (some old) m e p = insert-Every P id old m (Every-lookup P id base old all e) p

  restore_if_had_to-Every :
      (o : Option Peer) (m : Dict Peer)
      → lookup id base ≡ o
      → Every P m
      → Every P (restore_if_had id o m)
  restore_if_had_to-Every none m e p = p
  restore_if_had_to-Every (some old) m e p =
      insert-Every P id old m (Every-lookup P id base old all e) p

  pub restore-Every : (m : Dict Peer) → Every P m → Every P (restore id (lookup id base) m)
  restore-Every m = restore_to-Every (lookup id base) m refl

  pub restore_if_had-Every :
      (m : Dict Peer) → Every P m → Every P (restore_if_had id (lookup id base) m)
  restore_if_had-Every m = restore_if_had_to-Every (lookup id base) m refl

module _ (id : Text) (m : Dict Peer) where
  pub length-restore_erased :
      (p : Peer) → lookup id m ≡ some p → length (insert id p (erase id m)) ≤ length m
  length-restore_erased p e = ground (
    arith,
    e,
    length-insert id p (erase id m),
    length-erase-lt id m,
    lookup-erase id id m,
    text_eq_refl id,
  )

  pub length-restore_if_had : length (restore_if_had id (lookup id m) (erase id m)) ≤ length m
  length-restore_if_had = elim (Option-cases (lookup id m)) [
    | inl e ↦ rw e (length-erase-le id m)
    | inr (p, e) ↦ rw e (length-restore_erased p e)
  ]

  -- The entry that an insertion replaced or made is as it was.
  pub restore-insert : (q : Peer) → SameMap (restore id (lookup id m) (insert id q m)) m
  restore-insert q j = elim (Option-cases (lookup id m)) [
    | inl e ↦ rw (e, lookup-erase, lookup-insert) (ground (arith, e, text_eq_iff id j))
    | inr (p, e) ↦ rw (e, lookup-insert, lookup-insert) (ground (arith, e, text_eq_iff id j))
  ]

  pub restore_if_had-erase : SameMap (restore_if_had id (lookup id m) (erase id m)) m
  restore_if_had-erase j = elim (Option-cases (lookup id m)) [
    | inl e ↦ rw (e, lookup-erase) (ground (arith, e, text_eq_iff id j))
    | inr (p, e) ↦ rw (e, lookup-insert, lookup-erase) (ground (arith, e, text_eq_iff id j))
  ]

  pub insert-erase : (p : Peer) → lookup id m ≡ some p → SameMap (insert id p (erase id m)) m
  insert-erase p e j = rw (lookup-insert, lookup-erase) (ground (arith, e, text_eq_iff id j))

  pub insert-insert : (p q : Peer) → lookup id m ≡ some p → SameMap (insert id p (insert id q m)) m
  insert-insert p q e j = rw (lookup-insert, lookup-insert) (ground (arith, e, text_eq_iff id j))
