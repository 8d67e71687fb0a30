-- ===== src/Daemon/System/Handshake.antt =====
-- internal/daemon/daemon.go: `handleSync` in turns and in one piece.
use mathlib.Core.Path.{subst}
use lanclip.Base.{
  ◌+◌, ◌≡◌, refl, sym, Bool, true, false, not, ◌&&◌, Option, none, some, List, [], ◌∷◌, Text, ℕ,
  Option-cases, Bool-cases, inl, inr,
}
use lanclip.Base.Members.{remove_at}
use lanclip.Pairing.Types.{Peer, Store}
use lanclip.Pairing.Store.{Call, trusted_fingerprint}
use lanclip.Protocol.{Message}
use lanclip.Daemon.Conns.{PeerConn}
use lanclip.Daemon.Control.{Fixed}
use lanclip.Daemon.Handshake.{Wire, greet, handle_sync, greet_id}
use lanclip.Daemon.System.{World, Meeting, looks, greets, look, meet, accept_met, with_store}
use lanclip.Daemon.System.Steps.{step}

-- The connections accepted after a handshake that met this peer.
abbrev pub after_sync : Option Peer → Bool → Text → World → List PeerConn
after_sync none outbound address w = w.accepted
after_sync (some p) outbound address w =
    record { handle = w.next; id = p.id; address = address; outbound = outbound } ∷ w.accepted

module _ (w : World) (fp address : Text) (outbound sent : Bool) where
  look-none :
      trusted_fingerprint fp w.service.store ≡ none
      → look fp outbound sent address w ≡ record w { next = w.next + 1 }
  unfolding look
  look-none x = rw (x, look) refl

  look_unsent :
      (p : Peer)
      → trusted_fingerprint fp w.service.store ≡ some p
      → (outbound && not sent) ≡ true
      → look fp outbound sent address w ≡ record w { next = w.next + 1 }
  unfolding look
  look_unsent p x y = rw (x, y, look) refl

  abbrev waiting : Peer → Meeting
  waiting p = record {
    handle = w.next;
    peer = p;
    outbound = outbound;
    sent = sent;
    address = address;
  }

  look_waits :
      (p : Peer)
      → trusted_fingerprint fp w.service.store ≡ some p
      → (outbound && not sent) ≡ false
      → look fp outbound sent address w
        ≡ record w { next = w.next + 1; looked = waiting p ∷ w.looked }
  unfolding look
  look_waits p x y = rw (x, y, look) refl

module _ (f : Fixed) (max : ℕ) where
  -- What a handshake of two turns leaves is what handleSync leaves.
  abbrev pub AsWhole : World → Text → Bool → World → Store × Option Peer → Type 0
  AsWhole w address outbound w' whole =
      (w'.service.store ≡ whole.0)
      × (w'.looked ≡ [])
      × (w'.accepted ≡ after_sync whole.1 outbound address w)

  met-AsWhole :
      (w : World) (address : Text) (outbound sent : Bool) (peer : Peer) (s : Store)
      (met : Option Peer)
      → ((p : Peer) → met ≡ some p → p.id ≡ peer.id)
      → AsWhole w address outbound
          (accept_met met
            (record {
              handle = w.next;
              peer = peer;
              outbound = outbound;
              sent = sent;
              address = address;
            })
            (with_store s (record w { next = w.next + 1; looked = [] })))
          (s, met)
  met-AsWhole w address outbound sent peer s none own = (refl, refl, refl)
  met-AsWhole w address outbound sent peer s (some p) own = (refl, refl, rw (own p refl) refl)

  greeted :
      (w : World) (c : Call) (address : Text) (outbound sent : Bool) (m : Message) (p : Peer)
      → AsWhole w address outbound
          (meet f c sent
            (some m)
            (record {
              handle = w.next;
              peer = p;
              outbound = outbound;
              sent = sent;
              address = address;
            })
            (record w { next = w.next + 1; looked = [] }))
          (greet f.unicode f.json c f.device.id outbound sent m p w.service.store)
  unfolding meet
  greeted w c address true sent m p =
      let met = greet f.unicode f.json c f.device.id true sent m p w.service.store in
      met-AsWhole w address true sent p met.0 met.1
        (λ q e. greet_id f.unicode f.json c f.device.id true sent m p q w.service.store e)
  greeted w c address false sent m p =
      let met = greet f.unicode f.json c f.device.id false sent m p w.service.store in
      met-AsWhole w address false sent p met.0 met.1
        (λ q e. greet_id f.unicode f.json c f.device.id false sent m p q w.service.store e)

  -- The turns of a handshake that nothing comes between do what handleSync does up to `register`: where
  -- no other connection waits for its hello, the store after the lookup and the greeting is the one that
  -- handleSync leaves, none waits then, and the connection is accepted exactly if handleSync meets a
  -- peer, and for this peer.
  pub turns-handle_sync :
      (w : World) (c : Call) (fp address : Text) (outbound sent : Bool) (incoming : Option Message)
      → let w₀ : World = record w { looked = [] } in
        let wire : Wire = record { hello_sent = sent; incoming = incoming } in
        AsWhole w address outbound
          (step f max (step f max w₀ (looks fp outbound sent address)) (greets 0 c sent incoming))
          (handle_sync f.unicode f.json c f.device.id fp outbound wire w.service.store)
  unfolding step meet handle_sync remove_at
  turns-handle_sync w c fp address outbound sent incoming =
      let w₀ : World = record w { looked = [] } in
      let wire : Wire = record { hello_sent = sent; incoming = incoming } in
      let whole = handle_sync f.unicode f.json c f.device.id fp outbound wire w.service.store in
      let after : World → Type 0 =
        λ u. AsWhole w address outbound (step f max u (greets 0 c sent incoming)) whole in
      elim (Option-cases (trusted_fingerprint fp w.service.store)) [
        | inl x ↦
            subst after (sym (look-none w₀ fp address outbound sent x))
              (rw (x, handle_sync) (refl, refl, refl))
        | inr (p, x) ↦ elim (Bool-cases (outbound && not sent)) [
          | inl y ↦
              subst after (sym (look_unsent w₀ fp address outbound sent p x y))
                (rw (x, y, handle_sync) (refl, refl, refl))
          | inr y ↦
              subst after (sym (look_waits w₀ fp address outbound sent p x y))
                (elim (Option-cases incoming) [
                  | inl z ↦ rw (x, y, z, handle_sync, step) (refl, refl, refl)
                  | inr (m, z) ↦
                      rw (x, y, z, handle_sync, step) (greeted w c address outbound sent m p)
                ])
        ]
      ]
