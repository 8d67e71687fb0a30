-- ===== src/Daemon/Slot/Latest.antt =====
-- With one caller the channel keeps the order of the calls and the latest value, and no call waits.
use mathlib.Core.Path.{subst}
use lanclip.Base.{
  ℕ, ◌<◌, ◌≤◌, ◌⊎◌, ◌≡◌, ◌≢◌, refl, sym, true, false, none, some, List, arith, Option-cases,
  Bool-cases, inl, inr,
}
use lanclip.Daemon.Slot.{
  Pc, idle, asks, offers, clears, places, Slot, Step, call, is_done, is_open, offer, full, clear,
  cleared, place, leave, take, close, other_puts, other_clears, Reach, history,
}
use lanclip.Daemon.Slot.Invariant.{Subseq, skip, Shape, IsFree, IsLatest, Reach-Inv}

-- The selects that a call has before it, at most.
abbrev pub selects_left {ℓ} : {A : Type ℓ} → Pc A → ℕ
selects_left idle = 0
selects_left (places _) = 1
selects_left (clears _) = 2
selects_left (offers _) = 3
selects_left (asks _) = 4

module _ {ℓ} {A : Type ℓ} where
  -- A select that can proceed, whatever the channel holds.
  proceed :
      (s : Slot A) (p : Pc A)
      → s.pc ≡ p
      → p ≢ idle
      → IsFree p s.slot
      → (u : Slot A) × Step false s u × (selects_left u.pc < selects_left p)
  proceed s idle e n f = absurd (n refl)
  proceed s (asks m) e n f = elim (Bool-cases s.done) [
    | inl d ↦ (record s { pc = idle }, is_done m e d, omega arith)
    | inr d ↦ (record s { pc = offers m }, is_open m e d, omega arith)
  ]
  proceed s (offers m) e n f = elim (Option-cases s.slot) [
    | inl g ↦ (record s { slot = some m; pc = idle }, offer m e g, omega arith)
    | inr (x, g) ↦ (record s { pc = clears m }, full m x e g, omega arith)
  ]
  proceed s (clears m) e n f = elim (Option-cases s.slot) [
    | inl g ↦ (record s { pc = places m }, cleared m e g, omega arith)
    | inr (x, g) ↦ (record s { slot = none; pc = places m }, clear m x e g, omega arith)
  ]
  proceed s (places m) e n f = (record s { slot = some m; pc = idle }, place m e f, omega arith)

  never_longer :
      {s t : Slot A} → Step false s t → s.pc ≢ idle → selects_left t.pc ≤ selects_left s.pc
  never_longer (call m e) n = absurd (n e)
  never_longer (is_done m e d) n = omega arith
  never_longer (is_open m e d) n = rw e (omega arith)
  never_longer (offer m e f) n = omega arith
  never_longer (full m x e f) n = rw e (omega arith)
  never_longer (clear m x e f) n = rw e (omega arith)
  never_longer (cleared m e f) n = rw e (omega arith)
  never_longer (place m e f) n = omega arith
  never_longer (leave m e d) n = omega arith
  never_longer (take x f) n = omega arith
  never_longer close n = omega arith
  never_longer (other_puts x h f) n = omega arith
  never_longer (other_clears x h f) n = omega arith

  at_most_four : (p : Pc A) → selects_left p ≤ 4
  at_most_four idle = omega arith
  at_most_four (asks m) = omega arith
  at_most_four (offers m) = omega arith
  at_most_four (clears m) = omega arith
  at_most_four (places m) = omega arith

  in_all_calls :
      (p : Pc A) (kept asked rest : List A)
      → Shape p asked rest
      → Subseq kept rest
      → Subseq kept asked
  in_all_calls idle kept asked rest e o = subst (λ l. Subseq kept l) (sym e) o
  in_all_calls (asks m) kept asked rest e o = subst (λ l. Subseq kept l) (sym e) (skip o)
  in_all_calls (offers m) kept asked rest e o = subst (λ l. Subseq kept l) (sym e) (skip o)
  in_all_calls (clears m) kept asked rest e o = subst (λ l. Subseq kept l) (sym e) (skip o)
  in_all_calls (places m) kept asked rest e o = subst (λ l. Subseq kept l) (sym e) (skip o)

  -- With one caller, whatever the order of the selects of the caller and the receiver: what the channel
  -- gave and holds are values of the calls in their order, some left out; and unless the connection is
  -- over or a call is in progress, the newest of them is the value of the newest call.
  pub Reach-IsLatest :
      {s : Slot A}
      → Reach false s
      → Subseq (history s) s.asked × ((s.done ≡ true) ⊎ IsLatest s.pc (history s) s.asked)
  Reach-IsLatest {s} r =
      let v = Reach-Inv r in
      (
        in_all_calls s.pc (history s) s.asked v.rest v.shape v.order,
        elim (Bool-cases s.done) [ inl d ↦ inl d | inr d ↦ inr (v.latest d) ],
      )

  -- With one caller a call of enqueuePeer ends after at most four selects of its own, whatever the
  -- receiver does: no step of any goroutine adds to the selects that are left, and in every state one
  -- of the caller's selects can proceed, which leaves fewer.
  pub call_ends :
      {s t : Slot A}
      → Reach false s
      → s.pc ≢ idle
      → Step false s t
      → (selects_left t.pc ≤ selects_left s.pc)
        × (selects_left s.pc ≤ 4)
        × (u : Slot A) × Step false s u
        × (selects_left u.pc < selects_left s.pc)
  call_ends {s} r n st =
      let (u, step, less) = proceed s s.pc refl n (Reach-Inv r).free in
      (never_longer st n, at_most_four s.pc, u, step, less)
