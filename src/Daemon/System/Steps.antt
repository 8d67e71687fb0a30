-- ===== src/Daemon/System/Steps.antt =====
-- internal/daemon/daemon.go: histories of the service's turns, in any order.
use lanclip.Base.{ℕ, none, some, List, [], ◌∷◌, get_elem?, map}
use lanclip.Base.Members.{remove_at}
use lanclip.Discovery
use lanclip.Daemon.Pair.{handle_incoming_pair}
use lanclip.Daemon.Connect.{tick, finish_dial}
use lanclip.Daemon.Control.{Fixed, handle_control}
use lanclip.Daemon.System.{
  World, Event, commands, offers, looks, greets, registers, leaves, copies, delivers, hears, writes,
  observes, drops_enqueued, drops_received, ticks, dialled, stops, stop, with_store, with_registry,
  look, meet, link, leave, hear, copy, deliver, write_text,
}

module _ (f : Fixed) (max : ℕ) where
  -- One turn. A place past the end of its list stands for no turn.
  unfoldable pub step : World → Event f → World
  step w (commands t r) = record w { service = (handle_control f t w.service r).0 }
  step w (offers now key c cert offer own) =
      let (l', s', answer) =
        handle_incoming_pair f.unicode f.sha c f.device cert now key offer own w.limiter
          w.service.store in
      record (with_store s' w) { limiter = l' }
  step w (looks fp outbound sent address) = look fp outbound sent address w
  step w (greets i c sent incoming) = elim (get_elem? w.looked i) [
    | none ↦ w
    | some m ↦ meet f c sent incoming m (record w { looked = remove_at i w.looked })
  ]
  step w (registers i) = elim (get_elem? w.accepted i) [
    | none ↦ w
    | some pc ↦ link pc (record w { accepted = remove_at i w.accepted })
  ]
  step w (leaves i error) = elim (get_elem? w.linked i) [
    | none ↦ w
    | some pc ↦ leave pc error (record w { linked = remove_at i w.linked })
  ]
  step w (copies now id text) = copy f max now id text w
  step w (delivers i now result) = elim (get_elem? w.enqueued i) [
    | none ↦ w
    | some q ↦ deliver now result q (record w { enqueued = remove_at i w.enqueued })
  ]
  step w (hears i now m v) = elim (get_elem? w.linked i) [
    | none ↦ w
    | some pc ↦ hear max pc now m v w
  ]
  step w (writes i t) = elim (get_elem? w.received i) [
    | none ↦ w
    | some q ↦ write_text f t q (record w { received = remove_at i w.received })
  ]
  step w (observes join now e) = record w {
    service = record w.service {
      found = Discovery.observe f.unicode join f.device.id now e w.service.found;
    };
  }
  step w (drops_enqueued i) = record w { enqueued = remove_at i w.enqueued }
  step w (drops_received i) = record w { received = remove_at i w.received }
  step w (ticks now networks resolve call c) =
      let (found', seen) = Discovery.peers now w.service.found in
      let ((s', r'), dials) =
        tick f.net f.device.id networks resolve (map (λ p. (call p, p)) seen) c
          (w.service.store, w.service.registry) in
      record w { service = record { store = s'; found = found'; registry = r' } }
  step w (dialled rand id results b) =
      with_registry (finish_dial rand id results (w.service.registry, b)).0 w
  step w stops = stop w

  -- The newest turn comes first.
  unfoldable pub run : World → List (Event f) → World
  run w [] = w
  run w (e ∷ es) = step (run w es) e
