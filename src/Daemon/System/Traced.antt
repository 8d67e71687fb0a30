-- ===== src/Daemon/System/Traced.antt =====
-- The connections and texts of the service, traced back to the connections that passed TrustedFingerprint.
pub mod Connections
pub mod Texts
use lanclip.Base.{
  ℕ, ◌+◌, ◌≡◌, refl, Bool, not, ◌&&◌, ◌||◌, Option, none, some, List, [], ◌∷◌, map, Text, text_eq,
  length, ltb, if◌then◌else◌, get_elem?, Option-cases, Bool-cases, Result, ok, err, inl, inr,
}
use lanclip.Base.Dict.{Dict, Every}
use lanclip.Base.Entries.{Every-of_lookup}
use lanclip.Base.Members.{Each, nil-Each, cons-Each, append-Each, remove_at, remove_at-Each}
use lanclip.Sync.{Suppressor, consume}
use lanclip.Pairing.Types.{Peer}
use lanclip.Pairing.Store.{Call, trusted_fingerprint}
use lanclip.Protocol.{Message}
use lanclip.Daemon.Rate.{Limiter}
use lanclip.Daemon.Conns.{PeerConn, Registry, register, record_error}
use lanclip.Daemon.Conns.Liveness.{apply}
use lanclip.Daemon.Clipboard.{
  InboundClipboard, Window, Action, accepts, accepted_of, receive, broadcast, to_all,
  clipboard_message, write_peer, write_clipboard,
}
use lanclip.Daemon.Clipboard as Clipboard
use lanclip.Daemon.Handshake.{greet}
use lanclip.Daemon.Control.{Fixed, Service}
use lanclip.Daemon.System.{
  World, Meeting, conn_of, accept_met, look, meet, link, leave, hear, copy, deliver, write_text,
  with_store, stop, came_over, note_sent, note_written,
}
use lanclip.Daemon.System.Calm.{
  Calm, same_registry, error-Calm, write_peer-Calm, write_clipboard-Calm,
}
use lanclip.Daemon.System.Linked.{
  Linked, close_conns-Linked, calm-Linked, register-Linked, refused-Linked, unregister-Linked,
}

module _ (V : ℕ → Type 0) where
  abbrev pub Sourced {ℓ} : {A : Type ℓ} → PeerConn × A → Type 0
  Sourced q = V q.0.handle

  -- Whatever has to do with a connection has to do with one whose handle satisfies the predicate.
  pub record Traced (w : World) : Type 0 where
    pub links : Linked w.stopped w.linked w.service.registry
    pub looked : Each (λ m. V m.handle) w.looked
    pub accepted : Each (λ pc. V pc.handle) w.accepted
    pub linked : Each (λ pc. V pc.handle) w.linked
    pub enqueued : Each Sourced w.enqueued
    pub sent : Each Sourced w.sent
    pub received : Each Sourced w.received
    pub written : Each Sourced w.written

  pub calm-Traced :
      (w : World) (d : Service)
      → Calm w.service.registry d.registry
      → Traced w
      → Traced (record w { service = d })
  calm-Traced w d c t = record {
    links = calm-Linked w.stopped w.linked w.service.registry d.registry c t.links;
    looked = t.looked;
    accepted = t.accepted;
    linked = t.linked;
    enqueued = t.enqueued;
    sent = t.sent;
    received = t.received;
    written = t.written;
  }

  pub limited : (w : World) (l : Limiter) → Traced w → Traced (record w { limiter = l })
  limited w l t = record {
    links = t.links;
    looked = t.looked;
    accepted = t.accepted;
    linked = t.linked;
    enqueued = t.enqueued;
    sent = t.sent;
    received = t.received;
    written = t.written;
  }

  pub unlooked :
      (w : World) (i : ℕ) → Traced w → Traced (record w { looked = remove_at i w.looked })
  unlooked w i t = record {
    links = t.links;
    looked = remove_at-Each (λ m. V m.handle) w.looked i t.looked;
    accepted = t.accepted;
    linked = t.linked;
    enqueued = t.enqueued;
    sent = t.sent;
    received = t.received;
    written = t.written;
  }

  pub unaccepted :
      (w : World) (i : ℕ) → Traced w → Traced (record w { accepted = remove_at i w.accepted })
  unaccepted w i t = record {
    links = t.links;
    looked = t.looked;
    accepted = remove_at-Each (λ pc. V pc.handle) w.accepted i t.accepted;
    linked = t.linked;
    enqueued = t.enqueued;
    sent = t.sent;
    received = t.received;
    written = t.written;
  }

  pub unqueued :
      (w : World) (i : ℕ) → Traced w → Traced (record w { enqueued = remove_at i w.enqueued })
  unqueued w i t = record {
    links = t.links;
    looked = t.looked;
    accepted = t.accepted;
    linked = t.linked;
    enqueued = remove_at-Each Sourced w.enqueued i t.enqueued;
    sent = t.sent;
    received = t.received;
    written = t.written;
  }

  pub unreceived :
      (w : World) (i : ℕ) → Traced w → Traced (record w { received = remove_at i w.received })
  unreceived w i t = record {
    links = t.links;
    looked = t.looked;
    accepted = t.accepted;
    linked = t.linked;
    enqueued = t.enqueued;
    sent = t.sent;
    received = remove_at-Each Sourced w.received i t.received;
    written = t.written;
  }

  pub stop-Traced : (w : World) → Traced w → Traced (stop w)
  unfolding stop
  stop-Traced w t = record {
    links = close_conns-Linked w.linked w.service.registry;
    looked = t.looked;
    accepted = t.accepted;
    linked = t.linked;
    enqueued = t.enqueued;
    sent = t.sent;
    received = t.received;
    written = t.written;
  }

module _ (V W : ℕ → Type 0) where
  pub weaken-Traced : (w : World) → ((handle : ℕ) → V handle → W handle) → Traced V w → Traced W w
  weaken-Traced w g t = record {
    links = t.links;
    looked = λ x m. g _ (t.looked x m);
    accepted = λ x m. g _ (t.accepted x m);
    linked = λ x m. g _ (t.linked x m);
    enqueued = λ x m. g _ (t.enqueued x m);
    sent = λ x m. g _ (t.sent x m);
    received = λ x m. g _ (t.received x m);
    written = λ x m. g _ (t.written x m);
  }
