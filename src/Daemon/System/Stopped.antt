-- ===== src/Daemon/System/Stopped.antt =====
-- Which histories have stopped the service: those with a turn of `close`.
use lanclip.Base.{
  ℕ, ◌≡◌, refl, ◌∙◌, Bool, true, false, not, ◌&&◌, ◌||◌, any, Option, none, some, List, [], ◌∷◌,
  Text, get_elem?, arith, Option-cases, Bool-cases, Result-cases, Result, ok, err, inl, inr,
  if◌then◌else◌,
}
use lanclip.Base.Members.{remove_at}
use lanclip.Pairing.Types.{Peer, Store}
use lanclip.Pairing.Store.{Call, trusted_fingerprint}
use lanclip.Protocol.{Message}
use lanclip.Daemon.Conns.{PeerConn, register}
use lanclip.Daemon.Clipboard.{InboundClipboard}
use lanclip.Daemon.Clipboard as Clipboard
use lanclip.Daemon.Handshake.{greet}
use lanclip.Daemon.Control.{Fixed}
use lanclip.Daemon.System.{
  World, new, Event, Meeting, commands, offers, looks, greets, registers, leaves, copies, delivers,
  hears, writes, observes, drops_enqueued, drops_received, ticks, dialled, stops, stop, with_store,
  accept_met, look, meet, link, leave, hear, copy, deliver, write_text,
}
use lanclip.Daemon.System.Steps.{step, run}

same : (b : Bool) → b ≡ (b || false)
same true = refl
same false = refl

or_true : (b : Bool) → true ≡ (b || true)
or_true true = refl
or_true false = refl

look-stopped :
    (fp : Text) (outbound sent : Bool) (address : Text) (w : World)
    → (look fp outbound sent address w).stopped ≡ w.stopped
unfolding look
look-stopped fp outbound sent address w =
    elim (Option-cases (trusted_fingerprint fp w.service.store)) [
      | inl x ↦ rw (x, look) refl
      | inr (p, x) ↦ elim (Bool-cases (outbound && not sent)) [
        | inl y ↦ rw (x, y, look) refl
        | inr y ↦ rw (x, y, look) refl
      ]
    ]

met-stopped : (p : Option Peer) (m : Meeting) (w : World) → (accept_met p m w).stopped ≡ w.stopped
met-stopped none m w = refl
met-stopped (some p) m w = refl

meet-stopped :
    (f : Fixed) (c : Call) (sent : Bool) (incoming : Option Message) (m : Meeting) (w : World)
    → (meet f c sent incoming m w).stopped ≡ w.stopped
unfolding meet
meet-stopped f c sent none m w = refl
meet-stopped f c sent (some h) m w =
    let flag = if m.outbound then m.sent else sent in
    let met = greet f.unicode f.json c f.device.id m.outbound flag h m.peer w.service.store in
    met-stopped met.1 m (with_store met.0 w)

link-stopped : (pc : PeerConn) (w : World) → (link pc w).stopped ≡ w.stopped
unfolding link
link-stopped pc w = elim (Bool-cases (register pc w.service.registry).1) [
  | inl x ↦ rw (x, link) refl
  | inr x ↦ rw (x, link) refl
]

leave-stopped : (pc : PeerConn) (e : Option Text) (w : World) → (leave pc e w).stopped ≡ w.stopped
unfolding leave
leave-stopped pc none w = refl
leave-stopped pc (some e) w = refl

deliver-stopped :
    (now : ℕ) (r : Result Text (Unit {0})) (q : PeerConn × Message) (w : World)
    → (deliver now r q w).stopped ≡ w.stopped
unfolding deliver
deliver-stopped now (ok x) (pc, m) w = refl
deliver-stopped now (err e) (pc, m) w = refl

write_text-stopped :
    (f : Fixed) (t : Clipboard.Turn) (q : PeerConn × InboundClipboard) (w : World)
    → (write_text f t q w).stopped ≡ w.stopped
unfolding write_text
write_text-stopped f t (pc, c) w = elim (Result-cases t.written) [
  | inl x ↦ rw (x.1, write_text) refl
  | inr x ↦ rw (x.1, write_text) refl
]

module _ (f : Fixed) (max : ℕ) where
  abbrev pub is_stop : Event f → Bool
  is_stop stops = true
  is_stop _ = false

  step-stopped : (w : World) (e : Event f) → (step f max w e).stopped ≡ (w.stopped || is_stop e)
  unfolding step hear copy stop
  step-stopped w (commands t r) = same w.stopped
  step-stopped w (offers now key c cert offer own) = same w.stopped
  step-stopped w (looks fp outbound sent address) =
      look-stopped fp outbound sent address w ∙ same w.stopped
  step-stopped w (greets i c sent incoming) = elim (Option-cases (get_elem? w.looked i)) [
    | inl x ↦ rw (x, step) (same w.stopped)
    | inr (m, x) ↦
        rw (x, step)
          (meet-stopped f c sent incoming m (record w { looked = remove_at i w.looked })
            ∙ same w.stopped)
  ]
  step-stopped w (registers i) = elim (Option-cases (get_elem? w.accepted i)) [
    | inl x ↦ rw (x, step) (same w.stopped)
    | inr (pc, x) ↦
        rw (x, step)
          (link-stopped pc (record w { accepted = remove_at i w.accepted }) ∙ same w.stopped)
  ]
  step-stopped w (leaves i e) = elim (Option-cases (get_elem? w.linked i)) [
    | inl x ↦ rw (x, step) (same w.stopped)
    | inr (pc, x) ↦
        rw (x, step)
          (leave-stopped pc e (record w { linked = remove_at i w.linked }) ∙ same w.stopped)
  ]
  step-stopped w (copies now id text) = same w.stopped
  step-stopped w (delivers i now r) = elim (Option-cases (get_elem? w.enqueued i)) [
    | inl x ↦ rw (x, step) (same w.stopped)
    | inr (q, x) ↦
        rw (x, step)
          (deliver-stopped now r q (record w { enqueued = remove_at i w.enqueued })
            ∙ same w.stopped)
  ]
  step-stopped w (hears i now m v) = elim (Option-cases (get_elem? w.linked i)) [
    | inl x ↦ rw (x, step) (same w.stopped)
    | inr (pc, x) ↦ rw (x, step) (same w.stopped)
  ]
  step-stopped w (writes i t) = elim (Option-cases (get_elem? w.received i)) [
    | inl x ↦ rw (x, step) (same w.stopped)
    | inr (q, x) ↦
        rw (x, step)
          (write_text-stopped f t q (record w { received = remove_at i w.received })
            ∙ same w.stopped)
  ]
  step-stopped w (observes join now e) = same w.stopped
  step-stopped w (drops_enqueued i) = same w.stopped
  step-stopped w (drops_received i) = same w.stopped
  step-stopped w (ticks now networks resolve call c) = same w.stopped
  step-stopped w (dialled rand id results b) = same w.stopped
  step-stopped w stops = or_true w.stopped

  -- The service has stopped exactly if one of the turns was `close`.
  pub run-stopped :
      (s : Store) (es : List (Event f)) → (run f max (new s) es).stopped ≡ any is_stop es
  unfolding run any
  run-stopped s [] = refl
  run-stopped s (e ∷ es) = step-stopped (run f max (new s) es) e ∙ ground (arith, run-stopped s es)
