-- ===== src/Daemon/System/Traced/Connections.antt =====
-- How connections come up and end, traced.
use lanclip.Base.{
  ℕ, ◌+◌, ◌≡◌, refl, Bool, not, ◌&&◌, Option, none, some, Text, if◌then◌else◌, get_elem?,
  Option-cases, Bool-cases, inl, inr,
}
use lanclip.Base.Members.{cons-Each, remove_at, remove_at-Each}
use lanclip.Pairing.Types.{Peer}
use lanclip.Pairing.Store.{Call, trusted_fingerprint}
use lanclip.Protocol.{Message}
use lanclip.Daemon.Conns.{PeerConn, register, record_error}
use lanclip.Daemon.Conns.Liveness.{apply}
use lanclip.Daemon.Handshake.{greet}
use lanclip.Daemon.Control.{Fixed}
use lanclip.Daemon.System.{World, Meeting, conn_of, accept_met, look, meet, link, leave, with_store}
use lanclip.Daemon.System.Calm.{same_registry, error-Calm}
use lanclip.Daemon.System.Linked.{calm-Linked, register-Linked, refused-Linked, unregister-Linked}
use lanclip.Daemon.System.Traced.{Traced, calm-Traced}

module _ (V : ℕ → Type 0) where
  pub look-Traced :
      (fp : Text) (outbound sent : Bool) (address : Text) (w : World)
      → ((p : Peer) → trusted_fingerprint fp w.service.store ≡ some p → V w.next)
      → Traced V w
      → Traced V (look fp outbound sent address w)
  unfolding look
  look-Traced fp outbound sent address w new t =
      let same : Traced V (record w { next = w.next + 1 }) = record {
        links = t.links;
        looked = t.looked;
        accepted = t.accepted;
        linked = t.linked;
        enqueued = t.enqueued;
        sent = t.sent;
        received = t.received;
        written = t.written;
      } in
      elim (Option-cases (trusted_fingerprint fp w.service.store)) [
        | inl x ↦ rw (x, look) same
        | inr (p, x) ↦ elim (Bool-cases (outbound && not sent)) [
          | inl y ↦ rw (x, y, look) same
          | inr y ↦
              rw (x, y, look)
                (record {
                  links = t.links;
                  looked = cons-Each (λ m. V m.handle) _ w.looked (new p x) t.looked;
                  accepted = t.accepted;
                  linked = t.linked;
                  enqueued = t.enqueued;
                  sent = t.sent;
                  received = t.received;
                  written = t.written;
                })
        ]
      ]

  accept_met-Traced :
      (p : Option Peer) (m : Meeting) (w : World)
      → V m.handle
      → Traced V w
      → Traced V (accept_met p m w)
  accept_met-Traced none m w v t = t
  accept_met-Traced (some p) m w v t = record {
    links = t.links;
    looked = t.looked;
    accepted = cons-Each (λ pc. V pc.handle) (conn_of m) w.accepted v t.accepted;
    linked = t.linked;
    enqueued = t.enqueued;
    sent = t.sent;
    received = t.received;
    written = t.written;
  }

  pub meet-Traced :
      (f : Fixed) (c : Call) (sent : Bool) (incoming : Option Message) (m : Meeting) (w : World)
      → V m.handle
      → Traced V w
      → Traced V (meet f c sent incoming m w)
  unfolding meet
  meet-Traced f c sent none m w v t = t
  meet-Traced f c sent (some h) m w v t =
      let flag = if m.outbound then m.sent else sent in
      let met = greet f.unicode f.json c f.device.id m.outbound flag h m.peer w.service.store in
      accept_met-Traced met.1 m (with_store met.0 w) v (
        calm-Traced V w (record w.service { store = met.0 })
          (same_registry w.service.registry w.service.registry refl) t)

  pub link-Traced : (pc : PeerConn) (w : World) → V pc.handle → Traced V w → Traced V (link pc w)
  unfolding link
  link-Traced pc w v t = elim (Bool-cases (register pc w.service.registry).1) [
    | inl x ↦
        rw (x, link)
          (record {
            links = register-Linked w.stopped w.linked pc w.service.registry x t.links;
            looked = t.looked;
            accepted = t.accepted;
            linked = cons-Each (λ pc. V pc.handle) pc w.linked v t.linked;
            enqueued = t.enqueued;
            sent = t.sent;
            received = t.received;
            written = t.written;
          })
    | inr x ↦
        rw (x, link)
          (record {
            links = refused-Linked w.stopped w.linked pc w.service.registry x t.links;
            looked = t.looked;
            accepted = t.accepted;
            linked = t.linked;
            enqueued = t.enqueued;
            sent = t.sent;
            received = t.received;
            written = t.written;
          })
  ]

  pub leave-Traced :
      (i : ℕ) (pc : PeerConn) (e : Option Text) (w : World)
      → get_elem? w.linked i ≡ some pc
      → Traced V w
      → Traced V (leave pc e (record w { linked = remove_at i w.linked }))
  unfolding leave apply
  leave-Traced i pc none w x t = record {
    links = unregister-Linked w.stopped w.linked i pc w.service.registry x t.links;
    looked = t.looked;
    accepted = t.accepted;
    linked = remove_at-Each (λ pc. V pc.handle) w.linked i t.linked;
    enqueued = t.enqueued;
    sent = t.sent;
    received = t.received;
    written = t.written;
  }
  leave-Traced i pc (some e) w x t =
      let r = w.service.registry in
      let noted =
        calm-Linked w.stopped w.linked r (record_error pc.id e r) (error-Calm pc.id e r) t.links in
      record {
        links = unregister-Linked w.stopped w.linked i pc (record_error pc.id e r) x noted;
        looked = t.looked;
        accepted = t.accepted;
        linked = remove_at-Each (λ pc. V pc.handle) w.linked i t.linked;
        enqueued = t.enqueued;
        sent = t.sent;
        received = t.received;
        written = t.written;
      }
