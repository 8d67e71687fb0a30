-- ===== src/Sync.antt =====
-- internal/sync/suppression.go: the texts that were just written to the clipboard. The mutex makes
-- each call one step. `sum` is sha256.Sum256; the readings of the clock are arguments.
pub mod Echo
use lanclip.Base.{
  ℕ, ◌+◌, ◌-◌, ◌≤◌, ◌≡◌, Bool, true, false, Option, none, some, List, [], ◌∷◌, ◌++◌, Text, text_eq,
  ltb, leb, suc, if◌then◌else◌, length, drop, retain,
}

pub record Entry : Type 0 where
  pub event_id : Text
  pub hash : Text
  pub expires : ℕ

pub record Suppressor : Type 0 where
  pub ttl : ℕ
  pub entries : List Entry

abbrev pub max_suppression_entries : ℕ
max_suppression_entries = 256

unfoldable pub new_suppressor : ℕ → Suppressor
new_suppressor ttl = record { ttl = ttl; entries = [] }

-- now.Before(e.expires)
abbrev pub is_live : ℕ → Entry → Bool
is_live now e = ltb now e.expires

unfoldable pub prune : ℕ → Suppressor → Suppressor
unfolding retain
prune now s = record s { entries = retain (is_live now) s.entries }

-- copy(entries, entries[len-max+1:]) and the cut to max-1 entries: the newest max-1 stay.
unfoldable pub make_room : List Entry → List Entry
make_room es =
    if leb max_suppression_entries (length es)
    then drop (length es - max_suppression_entries + 1) es
    else es

module _ (sum : Text → Text) where
  -- Add reads the clock in `prune` and again for the new entry.
  unfoldable pub add : ℕ → ℕ → Text → Text → Suppressor → Suppressor
  unfolding prune make_room
  add prune_time now event_id text s =
      let live = make_room (prune prune_time s).entries in
      let e : Entry = record { event_id = event_id; hash = sum text; expires = now + s.ttl } in
      record s { entries = live ++ (e ∷ []) }

-- The loop of Consume: the entries without the first that has the hash, if one has.
unfoldable pub remove_hash : Text → List Entry → Option (List Entry)
unfolding text_eq
remove_hash h [] = none
remove_hash h (e ∷ es) =
    let rest = remove_hash h es in
    if text_eq e.hash h then some es else elim rest [ none ↦ none | some left ↦ some (e ∷ left) ]

module _ (sum : Text → Text) where
  unfoldable pub consume : ℕ → Text → Suppressor → Suppressor × Bool
  unfolding prune remove_hash
  consume now text s =
      let s' = prune now s in
      elim (remove_hash (sum text) s'.entries) [
        | none ↦ (s', false)
        | some left ↦ (record s' { entries = left }, true)
      ]
