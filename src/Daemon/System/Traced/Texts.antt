-- ===== src/Daemon/System/Traced/Texts.antt =====
-- How texts are sent and written, traced.
use lanclip.Base.{
  ℕ, ◌||◌, Option, List, [], ◌∷◌, map, Text, text_eq, length, ltb, Option-cases, Bool-cases, Result,
  ok, err, inl, inr,
}
use lanclip.Base.Dict.{Dict, Every}
use lanclip.Base.Entries.{Every-of_lookup}
use lanclip.Base.Members.{Each, nil-Each, cons-Each, append-Each}
use lanclip.Sync.{Suppressor, consume}
use lanclip.Protocol.{Message}
use lanclip.Daemon.Conns.{PeerConn, Registry}
use lanclip.Daemon.Clipboard.{
  InboundClipboard, Window, Action, accepts, accepted_of, receive, broadcast, to_all,
  clipboard_message, write_peer, write_clipboard,
}
use lanclip.Daemon.Clipboard as Clipboard
use lanclip.Daemon.Control.{Fixed}
use lanclip.Daemon.System.{
  World, hear, copy, deliver, write_text, came_over, note_sent, note_written,
}
use lanclip.Daemon.System.Calm.{write_peer-Calm, write_clipboard-Calm}
use lanclip.Daemon.System.Traced.{Traced, Sourced, calm-Traced}

module _ (V : ℕ → Type 0) where
  came_over-Each :
      (pc : PeerConn) (cs : List InboundClipboard)
      → V pc.handle
      → Each (Sourced V) (map (came_over pc) cs)
  came_over-Each pc [] v = nil-Each (Sourced V)
  came_over-Each pc (c ∷ cs) v =
      cons-Each (Sourced V) (pc, c) (map (came_over pc) cs) v (came_over-Each pc cs v)

  pub hear-Traced :
      (max : ℕ) (pc : PeerConn) (now : ℕ) (m : Message) (window : Window) (w : World)
      → V pc.handle
      → Traced V w
      → Traced V (hear max pc now m window w)
  unfolding hear
  hear-Traced max pc now m window w v t = record {
    links = t.links;
    looked = t.looked;
    accepted = t.accepted;
    linked = t.linked;
    enqueued = t.enqueued;
    sent = t.sent;
    received =
        append-Each (Sourced V) _ w.received
          (came_over-Each pc (accepted_of (receive max pc.id now m window).1) v) t.received;
    written = t.written;
  }

  to_all-Each :
      (conns : Dict PeerConn) (m : Message)
      → Every (λ id pc. V pc.handle) conns
      → Each (Sourced V) (to_all conns m)
  to_all-Each [] m e = nil-Each (Sourced V)
  to_all-Each ((id, pc) ∷ conns) m e =
      cons-Each (Sourced V) (pc, m) (to_all conns m) e.0 (to_all-Each conns m e.1)

  broadcast-Each :
      (sum : Text → Text) (max now : ℕ) (id : Option Text) (text : Text) (r : Registry)
      (s : Suppressor)
      → Every (λ id pc. V pc.handle) r.conns
      → Each (Sourced V) (broadcast sum max now id text r s).1
  unfolding broadcast
  broadcast-Each sum max now id text r s e =
      elim (Bool-cases (text_eq text [] || ltb max (length text))) [
        | inl x ↦ rw (x, broadcast) (nil-Each (Sourced V))
        | inr x ↦ elim (Bool-cases (consume sum now text s).1) [
          | inl y ↦ rw (x, y, broadcast) (nil-Each (Sourced V))
          | inr y ↦ elim (Option-cases id) [
            | inl z ↦ rw (x, y, z, broadcast) (nil-Each (Sourced V))
            | inr (i, z) ↦
                rw (x, y, z, broadcast) (to_all-Each r.conns (clipboard_message i text) e)
          ]
        ]
      ]

  pub copy-Traced :
      (f : Fixed) (max now : ℕ) (id : Option Text) (text : Text) (w : World)
      → Traced V w
      → Traced V (copy f max now id text w)
  unfolding copy
  copy-Traced f max now id text w t =
      let r = w.service.registry in
      let known =
        Every-of_lookup (λ id pc. V pc.handle) r.conns t.links.nodup
          (λ id pc e. t.linked pc (t.links.registered id pc e).1) in
      record {
        links = t.links;
        looked = t.looked;
        accepted = t.accepted;
        linked = t.linked;
        enqueued =
            append-Each (Sourced V) _ w.enqueued
              (broadcast-Each f.sha.sum max now id text r w.suppressor known) t.enqueued;
        sent = t.sent;
        received = t.received;
        written = t.written;
      }

  note_sent-Traced :
      (r : Result Text (Unit {0})) (q : PeerConn × Message) (w : World)
      → Sourced V q
      → Traced V w
      → Traced V (note_sent r q w)
  note_sent-Traced (err e) q w v t = t
  note_sent-Traced (ok x) q w v t = record {
    links = t.links;
    looked = t.looked;
    accepted = t.accepted;
    linked = t.linked;
    enqueued = t.enqueued;
    sent = cons-Each (Sourced V) q w.sent v t.sent;
    received = t.received;
    written = t.written;
  }

  pub deliver-Traced :
      (now : ℕ) (r : Result Text (Unit {0})) (q : PeerConn × Message) (w : World)
      → Sourced V q
      → Traced V w
      → Traced V (deliver now r q w)
  unfolding deliver
  deliver-Traced now r (pc, m) w v t =
      note_sent-Traced r (pc, m) _ v
        (calm-Traced V w _ (write_peer-Calm now pc r m w.service.registry) t)

  note_written-Traced :
      (r : Result Text (Unit {0})) (q : PeerConn × InboundClipboard) (w : World)
      → Sourced V q
      → Traced V w
      → Traced V (note_written r q w)
  note_written-Traced (err e) q w v t = t
  note_written-Traced (ok x) q w v t = record {
    links = t.links;
    looked = t.looked;
    accepted = t.accepted;
    linked = t.linked;
    enqueued = t.enqueued;
    sent = t.sent;
    received = t.received;
    written = cons-Each (Sourced V) q w.written v t.written;
  }

  suppressed-Traced :
      (w : World) (s : Suppressor) → Traced V w → Traced V (record w { suppressor = s })
  suppressed-Traced w s t = record {
    links = t.links;
    looked = t.looked;
    accepted = t.accepted;
    linked = t.linked;
    enqueued = t.enqueued;
    sent = t.sent;
    received = t.received;
    written = t.written;
  }

  pub write_text-Traced :
      (f : Fixed) (turn : Clipboard.Turn) (q : PeerConn × InboundClipboard) (w : World)
      → Sourced V q
      → Traced V w
      → Traced V (write_text f turn q w)
  unfolding write_text
  write_text-Traced f turn (pc, c) w v t =
      note_written-Traced turn.written (pc, c) _ v
        (suppressed-Traced _ _ (
          calm-Traced V w _ (write_clipboard-Calm f.sha.sum turn c w.service.registry w.suppressor)
            t))
