-- ===== src/Daemon/System/Handles.antt =====
-- A handle belongs to one connection, which showed one certificate.
use lanclip.Base.{
  ℕ, ◌+◌, ◌<◌, ◌≤◌, ◌≡◌, refl, Bool, not, ◌&&◌, Option, none, some, List, [], ◌∷◌, Text, get_elem?,
  arith, Option-cases, Bool-cases, Result-cases, Result, ok, err, inl, inr, if◌then◌else◌,
}
use lanclip.Base.Members.{remove_at}
use lanclip.Pairing.Types.{Peer}
use lanclip.Pairing.Store.{Call, trusted_fingerprint}
use lanclip.Protocol.{Message}
use lanclip.Daemon.Conns.{PeerConn, register}
use lanclip.Daemon.Clipboard.{InboundClipboard}
use lanclip.Daemon.Clipboard as Clipboard
use lanclip.Daemon.Handshake.{greet}
use lanclip.Daemon.Control.{Fixed}
use lanclip.Daemon.System.{
  World, Event, Meeting, commands, offers, looks, greets, registers, leaves, copies, delivers,
  hears, writes, observes, drops_enqueued, drops_received, ticks, dialled, stops, stop, with_store,
  accept_met, look, meet, link, leave, hear, copy, deliver, write_text,
}
use lanclip.Daemon.System.Steps.{step, run}
use lanclip.Daemon.System.Vouched.{looked_up, Shows}

look-next :
    (fp : Text) (outbound sent : Bool) (address : Text) (w : World)
    → (look fp outbound sent address w).next ≡ w.next + 1
unfolding look
look-next fp outbound sent address w =
    elim (Option-cases (trusted_fingerprint fp w.service.store)) [
      | inl x ↦ rw (x, look) refl
      | inr (p, x) ↦ elim (Bool-cases (outbound && not sent)) [
        | inl y ↦ rw (x, y, look) refl
        | inr y ↦ rw (x, y, look) refl
      ]
    ]

met-next : (p : Option Peer) (m : Meeting) (w : World) → (accept_met p m w).next ≡ w.next
met-next none m w = refl
met-next (some p) m w = refl

meet-next :
    (f : Fixed) (c : Call) (sent : Bool) (incoming : Option Message) (m : Meeting) (w : World)
    → (meet f c sent incoming m w).next ≡ w.next
unfolding meet
meet-next f c sent none m w = refl
meet-next f c sent (some h) m w =
    let flag = if m.outbound then m.sent else sent in
    let met = greet f.unicode f.json c f.device.id m.outbound flag h m.peer w.service.store in
    met-next met.1 m (with_store met.0 w)

link-next : (pc : PeerConn) (w : World) → (link pc w).next ≡ w.next
unfolding link
link-next pc w = elim (Bool-cases (register pc w.service.registry).1) [
  | inl x ↦ rw (x, link) refl
  | inr x ↦ rw (x, link) refl
]

leave-next : (pc : PeerConn) (e : Option Text) (w : World) → (leave pc e w).next ≡ w.next
unfolding leave
leave-next pc none w = refl
leave-next pc (some e) w = refl

deliver-next :
    (now : ℕ) (r : Result Text (Unit {0})) (q : PeerConn × Message) (w : World)
    → (deliver now r q w).next ≡ w.next
unfolding deliver
deliver-next now (ok x) (pc, m) w = refl
deliver-next now (err e) (pc, m) w = refl

write_text-next :
    (f : Fixed) (t : Clipboard.Turn) (q : PeerConn × InboundClipboard) (w : World)
    → (write_text f t q w).next ≡ w.next
unfolding write_text
write_text-next f t (pc, c) w = elim (Result-cases t.written) [
  | inl x ↦ rw (x.1, write_text) refl
  | inr x ↦ rw (x.1, write_text) refl
]

module _ (f : Fixed) (max : ℕ) where
  step_next-le : (w : World) (e : Event f) → w.next ≤ (step f max w e).next
  unfolding step hear copy stop
  step_next-le w (commands t r) = omega arith
  step_next-le w (offers now key c cert offer own) = omega arith
  step_next-le w (looks fp outbound sent address) =
      omega (arith, look-next fp outbound sent address w)
  step_next-le w (greets i c sent incoming) = elim (Option-cases (get_elem? w.looked i)) [
    | inl x ↦ rw (x, step) (omega arith)
    | inr (m, x) ↦
        rw (x, step)
          (omega
            (arith, meet-next f c sent incoming m (record w { looked = remove_at i w.looked })))
  ]
  step_next-le w (registers i) = elim (Option-cases (get_elem? w.accepted i)) [
    | inl x ↦ rw (x, step) (omega arith)
    | inr (pc, x) ↦
        rw (x, step) (omega (arith, link-next pc (record w { accepted = remove_at i w.accepted })))
  ]
  step_next-le w (leaves i e) = elim (Option-cases (get_elem? w.linked i)) [
    | inl x ↦ rw (x, step) (omega arith)
    | inr (pc, x) ↦
        rw (x, step) (omega (arith, leave-next pc e (record w { linked = remove_at i w.linked })))
  ]
  step_next-le w (copies now id text) = omega arith
  step_next-le w (delivers i now r) = elim (Option-cases (get_elem? w.enqueued i)) [
    | inl x ↦ rw (x, step) (omega arith)
    | inr (q, x) ↦
        rw (x, step)
          (omega (arith, deliver-next now r q (record w { enqueued = remove_at i w.enqueued })))
  ]
  step_next-le w (hears i now m v) = elim (Option-cases (get_elem? w.linked i)) [
    | inl x ↦ rw (x, step) (omega arith)
    | inr (pc, x) ↦ rw (x, step) (omega arith)
  ]
  step_next-le w (writes i t) = elim (Option-cases (get_elem? w.received i)) [
    | inl x ↦ rw (x, step) (omega arith)
    | inr (q, x) ↦
        rw (x, step)
          (omega (arith, write_text-next f t q (record w { received = remove_at i w.received })))
  ]
  step_next-le w (observes join now e) = omega arith
  step_next-le w (drops_enqueued i) = omega arith
  step_next-le w (drops_received i) = omega arith
  step_next-le w (ticks now networks resolve call c) = omega arith
  step_next-le w (dialled rand id results b) = omega arith
  step_next-le w stops = omega arith

  looked_up-next :
      (w : World) (e : Event f) (fp : Text)
      → looked_up f max e ≡ some fp
      → (step f max w e).next ≡ w.next + 1
  unfolding step
  looked_up-next w (looks p outbound sent address) fp h = look-next p outbound sent address w
  looked_up-next w _ fp h = absurd (cc h)

  Shows-lt :
      (w : World) (es : List (Event f)) (handle : ℕ) (fp : Text)
      → Shows f max w es handle fp
      → handle < (run f max w es).next
  unfolding run
  Shows-lt w [] handle fp s = elim s [ ]
  Shows-lt w (e ∷ es) handle fp (inl now) =
      omega (arith, now.0, looked_up-next (run f max w es) e fp now.1)
  Shows-lt w (e ∷ es) handle fp (inr s) =
      omega (arith, Shows-lt w es handle fp s, step_next-le (run f max w es) e)

  -- A handle stands for one connection: it showed one certificate in all.
  pub one_fingerprint :
      (w : World) (es : List (Event f)) (handle : ℕ) (fp fp' : Text)
      → Shows f max w es handle fp
      → Shows f max w es handle fp'
      → fp ≡ fp'
  one_fingerprint w [] handle fp fp' s t = elim s [ ]
  one_fingerprint w (e ∷ es) handle fp fp' (inl a) (inl b) = cc (a.1, b.1)
  one_fingerprint w (e ∷ es) handle fp fp' (inl a) (inr t) =
      absurd (omega (arith, a.0, Shows-lt w es handle fp' t))
  one_fingerprint w (e ∷ es) handle fp fp' (inr s) (inl b) =
      absurd (omega (arith, b.0, Shows-lt w es handle fp s))
  one_fingerprint w (e ∷ es) handle fp fp' (inr s) (inr t) = one_fingerprint w es handle fp fp' s t
