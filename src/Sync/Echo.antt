-- ===== src/Sync/Echo.antt =====
-- A text that was written to the clipboard is not sent back, once for each time it was written.
use lanclip.Base.{
  ℕ, ◌+◌, ◌-◌, ◌≤◌, ◌<◌, ◌≡◌, refl, ◌≢◌, Bool, true, false, none, some, List, [], ◌∷◌, ◌++◌, Text,
  text_eq, text_eq_iff, text_eq_refl, lt→ltb, leb, suc, ◌⊎◌, length, take, retain, retain-append,
  arith, length-append, length-drop, take-append-drop, any, Option-cases, inl, inr, Bool-cases, sym,
}
use lanclip.Sync.{
  Entry, Suppressor, max_suppression_entries, is_live, prune, make_room, add, remove_hash, consume,
}

length-make_room : (es : List Entry) → suc (length (make_room es)) ≤ max_suppression_entries
unfolding make_room
length-make_room es = ground (arith, length-drop (length es - max_suppression_entries + 1) es)

abbrev pub has_hash : Text → Entry → Bool
has_hash h e = text_eq e.hash h

-- The list around its first entry with the hash.
pub record FirstOf (h : Text) (es left : List Entry) : Type 0 where
  pub before : List Entry
  pub entry : Entry
  pub after : List Entry
  pub splits : es ≡ before ++ (entry ∷ after)
  pub rest : left ≡ before ++ after
  pub same_hash : entry.hash ≡ h
  pub is_first : any (has_hash h) before ≡ false

FirstOf-cons :
    (h : Text) (x : Entry) (es left : List Entry)
    → text_eq x.hash h ≡ false
    → FirstOf h es left
    → FirstOf h (x ∷ es) (x ∷ left)
unfolding any
FirstOf-cons h x es left miss f = record {
  before = x ∷ f.before;
  entry = f.entry;
  after = f.after;
  splits = ground (arith, f.splits);
  rest = ground (arith, f.rest);
  same_hash = f.same_hash;
  is_first = rw (miss, f.is_first);
}

remove_hash-some :
    (h : Text) (es left : List Entry) → remove_hash h es ≡ some left → FirstOf h es left
unfolding remove_hash any
remove_hash-some h [] left e = absurd (cc e)
remove_hash-some h (x ∷ es) left e = elim (Bool-cases (text_eq x.hash h)) [
  | inl hit ↦ record {
    before = [];
    entry = x;
    after = es;
    splits = refl;
    rest = ground arith;
    same_hash = (text_eq_iff x.hash h).0 hit;
    is_first = refl;
  }
  | inr miss ↦ elim (Option-cases (remove_hash h es)) [
    | inl f ↦ absurd (ground arith)
    | inr (r, f) ↦
        let same : x ∷ r ≡ left = ground arith in
        rw (← same) (FirstOf-cons h x es r miss (remove_hash-some h es r f))
  ]
]

remove_hash-none :
    (h : Text) (es : List Entry) → remove_hash h es ≡ none → any (has_hash h) es ≡ false
unfolding remove_hash any
remove_hash-none h [] e = refl
remove_hash-none h (x ∷ es) e = ground (arith, remove_hash-none h es)

any-snoc :
    (p : Entry → Bool) (es : List Entry) (x : Entry) → p x ≡ true → any p (es ++ (x ∷ [])) ≡ true
unfolding any
any-snoc p [] x h = rw h
any-snoc p (y ∷ es) x h = ground (arith, any-snoc p es x h)

-- What make_room takes off the front.
record Cut (es : List Entry) : Type 0 where
  dropped : List Entry
  splits : es ≡ dropped ++ make_room es
  if_full : dropped ≢ [] → length (make_room es) ≡ max_suppression_entries - 1

make_room-Cut : (es : List Entry) → Cut es
unfolding make_room
make_room-Cut es = elim (Bool-cases (leb max_suppression_entries (length es))) [
  | inr small ↦ record { dropped = []; splits = rw small; if_full = λ h. absurd (h refl) }
  | inl full ↦
      let k = length es - max_suppression_entries + 1 in
      record {
        dropped = take k es;
        splits = rw full (sym (take-append-drop k es));
        if_full = λ _. rw full (ground (arith, length-drop k es));
      }
]

-- The state after Add, around its newest entry.
pub record Added (sum : Text → Text) (prune_time now : ℕ) (text : Text) (s t : Suppressor)
    : Type 0 where
  pub dropped : List Entry
  pub kept : List Entry
  pub entry : Entry
  pub live : (prune prune_time s).entries ≡ dropped ++ kept
  pub newest_last : t.entries ≡ kept ++ (entry ∷ [])
  pub expiry : entry.expires ≡ now + s.ttl
  pub hashed : entry.hash ≡ sum text
  pub bounded : length t.entries ≤ max_suppression_entries
  pub drops_if_full : dropped ≢ [] → length kept ≡ max_suppression_entries - 1

module _ (sum : Text → Text) where
  -- Add leaves at most 256 entries, however many there were. The last is the new one, which expires
  -- after the time to live; those before it are entries that had not expired, in their order, and of
  -- them only the oldest are dropped, so that 255 stay.
  pub add-Added :
      (prune_time now : ℕ) (event_id text : Text) (s : Suppressor)
      → Added sum prune_time now text s (add sum prune_time now event_id text s)
  unfolding add
  add-Added prune_time now event_id text s =
      let es = (prune prune_time s).entries in
      let room = make_room-Cut es in
      let e : Entry = record { event_id = event_id; hash = sum text; expires = now + s.ttl } in
      record {
        dropped = room.dropped;
        kept = make_room es;
        entry = e;
        live = room.splits;
        newest_last = refl;
        expiry = refl;
        hashed = refl;
        bounded = omega (arith, length-append (make_room es) (e ∷ []), length-make_room es);
        drops_if_full = room.if_full;
      }

  consume-any :
      (now : ℕ) (text : Text) (s : Suppressor)
      → any (has_hash (sum text)) (prune now s).entries ≡ true
      → (consume sum now text s).1 ≡ true
  unfolding consume
  consume-any now text s h = elim (Option-cases (remove_hash (sum text) (prune now s).entries)) [
    | inl e ↦ absurd (cc (h, remove_hash-none (sum text) (prune now s).entries e))
    | inr (left, e) ↦ rw (e, consume)
  ]

  -- A text that was added is consumed at any time before its entry expires: the local clipboard event
  -- that the write causes is not taken for a new one.
  pub consume-add :
      (prune_time now later : ℕ) (event_id text : Text) (s : Suppressor)
      → later < now + s.ttl
      → (consume sum later text (add sum prune_time now event_id text s)).1 ≡ true
  unfolding add prune retain
  consume-add prune_time now later event_id text s h =
      let kept = make_room (prune prune_time s).entries in
      let e : Entry = record { event_id = event_id; hash = sum text; expires = now + s.ttl } in
      consume-any later text _ (
        rw (retain-append (is_live later) kept (e ∷ []), lt→ltb later (now + s.ttl) h)
          (any-snoc (has_hash (sum text)) (retain (is_live later) kept) e
            (text_eq_refl (sum text))))

  -- Consume takes away the first entry with the text's hash among those that have not expired, and
  -- nothing else; it answers false, and takes none away, exactly when there is no such entry.
  pub consume_cases :
      (now : ℕ) (text : Text) (s : Suppressor)
      → let r = consume sum now text s in
        let live = (prune now s).entries in
        ((r.1 ≡ true) × FirstOf (sum text) live r.0.entries)
        ⊎ ((r.1 ≡ false) × (r.0.entries ≡ live) × (any (has_hash (sum text)) live ≡ false))
  unfolding consume
  consume_cases now text s = elim (Option-cases (remove_hash (sum text) (prune now s).entries)) [
    | inl e ↦
        rw (e, consume) (inr (refl, refl, remove_hash-none (sum text) (prune now s).entries e))
    | inr (left, e) ↦
        rw (e, consume) (inl (refl, remove_hash-some (sum text) (prune now s).entries left e))
  ]
