-- ===== src/Daemon/Slot.antt =====
-- internal/daemon/daemon.go: a channel that holds one value, filled by `enqueuePeer` (where localLoop
-- is the only caller) or `enqueueClipboard` (called by the read loop of every peer), and emptied by
-- writeLoop or clipboardWriteLoop. One step is one select of one goroutine.
pub mod Invariant
pub mod Latest
use lanclip.Base.{◌≡◌, Bool, true, false, Option, none, some, List, [], ◌∷◌, ◌++◌}

-- Where a call of enqueuePeer stands: before the select on `done`, before the first try, before the
-- removal of the old value, before the last select.
pub data Pc {ℓ} (A : Type ℓ) : Type ℓ where
  idle : Pc A
  asks offers clears places : A → Pc A

-- The channel, `done` (or the end of the context), and the call in progress. `asked` lists the values
-- of all calls and `taken` those that were received, the newest first.
pub record Slot {ℓ} (A : Type ℓ) : Type ℓ where
  pub slot : Option A
  pub done : Bool
  pub pc : Pc A
  pub asked : List A
  pub taken : List A

abbrev pub new_slot {ℓ} : {A : Type ℓ} → Slot A
new_slot = record { slot = none; done = false; pc = idle; asked = []; taken = [] }

-- With `shared` other goroutines run the same code on the channel. A select takes its default only
-- where no other case is ready.
pub data Step {ℓ} {A : Type ℓ} (shared : Bool) (s : Slot A) : Slot A → Type ℓ where
  call : (m : A) → s.pc ≡ idle → Step shared s (record s { pc = asks m; asked = m ∷ s.asked })
  is_done : (m : A) → s.pc ≡ asks m → s.done ≡ true → Step shared s (record s { pc = idle })
  is_open : (m : A) → s.pc ≡ asks m → s.done ≡ false → Step shared s (record s { pc = offers m })
  offer :
      (m : A)
      → s.pc ≡ offers m
      → s.slot ≡ none
      → Step shared s (record s { slot = some m; pc = idle })
  full : (m x : A) → s.pc ≡ offers m → s.slot ≡ some x → Step shared s (record s { pc = clears m })
  clear :
      (m x : A)
      → s.pc ≡ clears m
      → s.slot ≡ some x
      → Step shared s (record s { slot = none; pc = places m })
  cleared : (m : A) → s.pc ≡ clears m → s.slot ≡ none → Step shared s (record s { pc = places m })
  place :
      (m : A)
      → s.pc ≡ places m
      → s.slot ≡ none
      → Step shared s (record s { slot = some m; pc = idle })
  leave : (m : A) → s.pc ≡ places m → s.done ≡ true → Step shared s (record s { pc = idle })
  take : (x : A) → s.slot ≡ some x → Step shared s (record s { slot = none; taken = x ∷ s.taken })
  close : Step shared s (record s { done = true })
  other_puts : (x : A) → shared ≡ true → s.slot ≡ none → Step shared s (record s { slot = some x })
  other_clears :
      (x : A) → shared ≡ true → s.slot ≡ some x → Step shared s (record s { slot = none })

pub data Reach {ℓ} {A : Type ℓ} (shared : Bool) : Slot A → Type ℓ where
  start : Reach shared new_slot
  later : {s t : Slot A} → Reach shared s → Step shared s t → Reach shared t

-- What was put and not thrown away, the newest first.
abbrev pub kept_by {ℓ} : {A : Type ℓ} → Option A → List A → List A
kept_by none taken = taken
kept_by (some x) taken = x ∷ taken

abbrev pub history {ℓ} : {A : Type ℓ} → Slot A → List A
history s = kept_by s.slot s.taken
