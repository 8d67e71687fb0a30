-- ===== src/Daemon/System/Turns.antt =====
-- internal/daemon/daemon.go: what a turn does to the store: a run of its methods, or the approval of a command.
use mathlib.Core.Path.{subst}
use lanclip.Base.{
  ℕ, ◌≡◌, refl, sym, ap, Option, none, [], map, all, get_elem?, Option-cases, inl, inr,
}
use lanclip.Base.Members.{remove_at}
use lanclip.Pairing.Types.{Store}
use lanclip.Pairing.Store.{Call}
use lanclip.Pairing.Runs.{Method, run}
use lanclip.Discovery
use lanclip.Daemon.Control.{Fixed}
use lanclip.Daemon.Control.Quiet.{Ran, quiet_run, put_once-Ran}
use lanclip.Daemon.Control.Trust.{approval_of, handle_control-Ran}
use lanclip.Daemon.System.{
  World, Event, commands, offers, looks, greets, registers, leaves, copies, delivers, hears, writes,
  observes, drops_enqueued, drops_received, ticks, dialled, stops, stop, hear, copy,
}
use lanclip.Daemon.System.Stores.{
  tick-Ran, offers-store, rename_once-Ran, meet-store, look-store, link-store, leave-store,
  deliver-store, write_text-store,
}
use lanclip.Daemon.System.Steps.{step}

module _ (f : Fixed) (max : ℕ) where
  -- The approval that the turn asks the store for, if it does.
  abbrev pub approval_in : World → Event f → Option (Call × Method)
  approval_in w (commands t r) = approval_of f t w.service r
  approval_in w e = none

  same-Ran : (s s' : Store) (a : Option (Call × Method)) → s' ≡ s → Ran f s a s'
  unfolding all run
  same-Ran s s' a e = subst (Ran f s a) (sym e) (quiet_run f s a [] refl)

  pub step-Ran :
      (w : World) (e : Event f)
      → Ran f w.service.store (approval_in w e) (step f max w e).service.store
  unfolding step hear copy stop
  step-Ran w (commands t r) = handle_control-Ran f t w.service r
  step-Ran w (offers now key c cert offer own) =
      put_once-Ran f c none w.service.store _
        (offers-store f now key c cert offer own w.limiter w.service.store)
  step-Ran w (looks fp outbound sent address) =
      same-Ran _ _ none (ap (λ s. s.store) (look-store f fp outbound sent address w))
  step-Ran w (greets i c sent incoming) = elim (Option-cases (get_elem? w.looked i)) [
    | inl x ↦ rw (x, step) (same-Ran _ _ none refl)
    | inr (m, x) ↦
        rw (x, step)
          (rename_once-Ran f c w.service.store _
            (meet-store f c sent incoming m (record w { looked = remove_at i w.looked })))
  ]
  step-Ran w (registers i) = elim (Option-cases (get_elem? w.accepted i)) [
    | inl x ↦ rw (x, step) (same-Ran _ _ none refl)
    | inr (pc, x) ↦
        rw (x, step)
          (same-Ran _ _ none (link-store f pc (record w { accepted = remove_at i w.accepted })))
  ]
  step-Ran w (leaves i error) = elim (Option-cases (get_elem? w.linked i)) [
    | inl x ↦ rw (x, step) (same-Ran _ _ none refl)
    | inr (pc, x) ↦
        rw (x, step)
          (same-Ran _ _ none (leave-store f pc error (record w { linked = remove_at i w.linked })))
  ]
  step-Ran w (copies now id text) = same-Ran _ _ none refl
  step-Ran w (delivers i now result) = elim (Option-cases (get_elem? w.enqueued i)) [
    | inl x ↦ rw (x, step) (same-Ran _ _ none refl)
    | inr (q, x) ↦
        rw (x, step)
          (same-Ran _ _ none
            (deliver-store f now result q (record w { enqueued = remove_at i w.enqueued })))
  ]
  step-Ran w (hears i now m v) = elim (Option-cases (get_elem? w.linked i)) [
    | inl x ↦ rw (x, step) (same-Ran _ _ none refl)
    | inr (pc, x) ↦ rw (x, step) (same-Ran _ _ none refl)
  ]
  step-Ran w (writes i t) = elim (Option-cases (get_elem? w.received i)) [
    | inl x ↦ rw (x, step) (same-Ran _ _ none refl)
    | inr (q, x) ↦
        rw (x, step)
          (same-Ran _ _ none
            (write_text-store f t q (record w { received = remove_at i w.received })))
  ]
  step-Ran w (observes join now e) = same-Ran _ _ none refl
  step-Ran w (drops_enqueued i) = same-Ran _ _ none refl
  step-Ran w (drops_received i) = same-Ran _ _ none refl
  step-Ran w (ticks now networks resolve call c) =
      tick-Ran f f.net networks (map (λ p. (call p, p)) (Discovery.peers now w.service.found).1)
        f.device.id resolve c w.service.store w.service.registry
  step-Ran w (dialled rand id results b) = same-Ran _ _ none refl
  step-Ran w stops = same-Ran _ _ none refl
