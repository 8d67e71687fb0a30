-- ===== src/Daemon/System/Vouched.antt =====
-- Where the certificates of the service's connections come from.
use lanclip.Base.{
  ℕ, ◌≡◌, refl, ◌⊎◌, inl, inr, Bool, Option, none, some, List, [], ◌∷◌, Text, text_eq_iff,
  get_elem?, find?, find?_sound, arith, Option-cases, Bool-cases, map,
}
use lanclip.Base.Dict.{Dict, lookup, NodupKeys}
use lanclip.Base.Entries.{lookup_tail}
use lanclip.Base.Members.{nil-Each, get_elem?-Each}
use lanclip.Discovery
use lanclip.Pairing.Types.{Peer, Store, trusted, state_eq_iff}
use lanclip.Pairing.Store.{has_trusted_fingerprint, values, trusted_fingerprint}
use lanclip.Pairing.Valid.{IsValid}
use lanclip.Pairing.Changes.Trust.{TrustedAs}
use lanclip.Daemon.Control.{Fixed}
use lanclip.Daemon.System.{
  World, new, Event, commands, offers, looks, greets, registers, leaves, copies, delivers, hears,
  writes, observes, drops_enqueued, drops_received, ticks, dialled, stops,
}
use lanclip.Daemon.System.Steps.{step, run}
use lanclip.Daemon.System.Calm.{same_registry, handle_control-Calm, tick-Calm, finish_dial-Calm}
use lanclip.Daemon.System.Traced.{
  Traced, Sourced, weaken-Traced, limited, unlooked, unaccepted, unqueued, unreceived, calm-Traced,
  stop-Traced,
}
use lanclip.Daemon.System.Traced.Connections.{look-Traced, meet-Traced, link-Traced, leave-Traced}
use lanclip.Daemon.System.Traced.Texts.{hear-Traced, copy-Traced, deliver-Traced, write_text-Traced}
use lanclip.Daemon.System.Origin.{Granted, earlier, run_store-IsValid, run-TrustedAs}

-- A trusted peer that TrustedFingerprint finds stands in the map.
find-values :
    (test : Peer → Bool) (m : Dict Peer) (p : Peer)
    → NodupKeys m
    → find? test (values m) ≡ some p
    → (id : Text) × (lookup id m ≡ some p)
unfolding find? lookup
find-values test [] p u e = absurd (cc e)
find-values test ((id, q) ∷ m) p u e = elim (Bool-cases (test q)) [
  | inl x ↦ (id, ground (arith, e, x, text_eq_iff id id))
  | inr x ↦
      let (j, found) = find-values test m p u.1 (ground (arith, e, x)) in
      (j, lookup_tail (λ id q. Unit {0}) id q m j p u.0 found)
]

trusted_fingerprint-TrustedAs :
    (fp : Text) (s : Store) (p : Peer)
    → IsValid s
    → trusted_fingerprint fp s ≡ some p
    → (id : Text) × TrustedAs s.peers id fp
unfolding trusted_fingerprint
trusted_fingerprint-TrustedAs fp s p v e =
    let (id, found) = find-values (has_trusted_fingerprint fp) s.peers p v.peers_nodup e in
    let fits = find?_sound (has_trusted_fingerprint fp) (values s.peers) p e in
    (
      id,
      record {
        peer = p;
        found = found;
        is_trusted = (state_eq_iff p.state trusted).0 (ground (arith, fits));
        pinned = (text_eq_iff p.fingerprint fp).0 (ground (arith, fits));
      },
    )

module _ (f : Fixed) (max : ℕ) where
  -- The fingerprint that the turn looks up.
  abbrev pub looked_up : Event f → Option Text
  looked_up (looks fp outbound sent address) = some fp
  looked_up _ = none

  -- The connection with the handle showed the certificate of this fingerprint when TrustedFingerprint was
  -- asked for it.
  abbrev pub Shows : World → List (Event f) → ℕ → Text → Type 0
  Shows w [] handle fp = ⊥
  Shows w (e ∷ es) handle fp =
      (((run f max w es).next ≡ handle) × (looked_up e ≡ some fp)) ⊎ Shows w es handle fp

  -- The certificate of the connection is one that was trusted from the start, or that a command
  -- "approve" of the history has approved.
  pub record Vouched (w : World) (es : List (Event f)) (handle : ℕ) : Type 0 where
    pub fingerprint : Text
    pub id : Text
    pub shows : Shows w es handle fingerprint
    pub origin : TrustedAs w.service.store.peers id fingerprint ⊎ Granted f max w es id fingerprint

  later-Vouched :
      (w : World) (e : Event f) (es : List (Event f)) (handle : ℕ)
      → Vouched w es handle
      → Vouched w (e ∷ es) handle
  later-Vouched w e es handle v = record {
    fingerprint = v.fingerprint;
    id = v.id;
    shows = inr v.shows;
    origin = elim v.origin [ inl old ↦ inl old | inr g ↦ inr (earlier g) ];
  }

  looked-Vouched :
      (w : World) (fp address : Text) (outbound sent : Bool) (es : List (Event f)) (p : Peer)
      → IsValid w.service.store
      → trusted_fingerprint fp (run f max w es).service.store ≡ some p
      → Vouched w (looks fp outbound sent address ∷ es) (run f max w es).next
  looked-Vouched w fp address outbound sent es p v e =
      let s = (run f max w es).service.store in
      let (id, t) = trusted_fingerprint-TrustedAs fp s p (run_store-IsValid f max w es v) e in
      record {
        fingerprint = fp;
        id = id;
        shows = inl (refl, refl);
        origin = elim (run-TrustedAs f max w es id fp v t) [
          | inl old ↦ inl old
          | inr g ↦ inr (earlier g)
        ];
      }

  -- What a connection that is looked up must satisfy.
  abbrev pub New : (ℕ → Type 0) → World → Event f → Type 0
  New V w (looks fp outbound sent address) =
      (p : Peer) → trusted_fingerprint fp w.service.store ≡ some p → V w.next
  New V w e = Unit {0}

  pub step-Traced :
      (V : ℕ → Type 0) (w : World) (e : Event f)
      → New V w e
      → Traced V w
      → Traced V (step f max w e)
  unfolding step
  step-Traced V w (commands t r) new h = calm-Traced V w _ (handle_control-Calm f t w.service r) h
  step-Traced V w (offers now key c cert offer own) new h =
      limited V _ _ (calm-Traced V w _ (same_registry w.service.registry w.service.registry refl) h)
  step-Traced V w (looks fp outbound sent address) new h =
      look-Traced V fp outbound sent address w new h
  step-Traced V w (greets i c sent incoming) new h = elim (Option-cases (get_elem? w.looked i)) [
    | inl x ↦ rw (x, step) h
    | inr (m, x) ↦
        rw (x, step)
          (meet-Traced V f c sent incoming m _
            (get_elem?-Each (λ m. V m.handle) w.looked i m x h.looked) (unlooked V w i h))
  ]
  step-Traced V w (registers i) new h = elim (Option-cases (get_elem? w.accepted i)) [
    | inl x ↦ rw (x, step) h
    | inr (pc, x) ↦
        rw (x, step)
          (link-Traced V pc _ (get_elem?-Each (λ pc. V pc.handle) w.accepted i pc x h.accepted)
            (unaccepted V w i h))
  ]
  step-Traced V w (leaves i error) new h = elim (Option-cases (get_elem? w.linked i)) [
    | inl x ↦ rw (x, step) h
    | inr (pc, x) ↦ rw (x, step) (leave-Traced V i pc error w x h)
  ]
  step-Traced V w (copies now id text) new h = copy-Traced V f max now id text w h
  step-Traced V w (delivers i now result) new h = elim (Option-cases (get_elem? w.enqueued i)) [
    | inl x ↦ rw (x, step) h
    | inr (q, x) ↦
        rw (x, step)
          (deliver-Traced V now result q _ (get_elem?-Each (Sourced V) w.enqueued i q x h.enqueued)
            (unqueued V w i h))
  ]
  step-Traced V w (hears i now m window) new h = elim (Option-cases (get_elem? w.linked i)) [
    | inl x ↦ rw (x, step) h
    | inr (pc, x) ↦
        rw (x, step)
          (hear-Traced V max pc now m window w
            (get_elem?-Each (λ pc. V pc.handle) w.linked i pc x h.linked) h)
  ]
  step-Traced V w (writes i t) new h = elim (Option-cases (get_elem? w.received i)) [
    | inl x ↦ rw (x, step) h
    | inr (q, x) ↦
        rw (x, step)
          (write_text-Traced V f t q _ (get_elem?-Each (Sourced V) w.received i q x h.received)
            (unreceived V w i h))
  ]
  step-Traced V w (observes join now e) new h =
      calm-Traced V w _ (same_registry w.service.registry w.service.registry refl) h
  step-Traced V w (drops_enqueued i) new h = unqueued V w i h
  step-Traced V w (drops_received i) new h = unreceived V w i h
  step-Traced V w (ticks now networks resolve call c) new h =
      calm-Traced V w _
        (tick-Calm f.net f.device.id networks resolve
          (map (λ p. (call p, p)) (Discovery.peers now w.service.found).1) c w.service.store
          w.service.registry)
        h
  step-Traced V w (dialled rand id results b) new h =
      calm-Traced V w _ (finish_dial-Calm rand id results w.service.registry b) h
  step-Traced V w stops new h = stop-Traced V w h

  pub none-Traced : (V : ℕ → Type 0) (s : Store) → Traced V (new s)
  unfolding lookup
  none-Traced V s = record {
    links = record { live = λ s id. refl; nodup = tt; registered = λ id pc e. absurd (cc e) };
    looked = nil-Each (λ m. V m.handle);
    accepted = nil-Each (λ pc. V pc.handle);
    linked = nil-Each (λ pc. V pc.handle);
    enqueued = nil-Each (Sourced V);
    sent = nil-Each (Sourced V);
    received = nil-Each (Sourced V);
    written = nil-Each (Sourced V);
  }

  New-Vouched :
      (w : World) (e : Event f) (es : List (Event f))
      → IsValid w.service.store
      → New (Vouched w (e ∷ es)) (run f max w es) e
  New-Vouched w (looks fp outbound sent address) es v =
      λ p x. looked-Vouched w fp address outbound sent es p v x
  New-Vouched w _ es v = tt

  pub run-Traced :
      (s : Store) (es : List (Event f))
      → IsValid s
      → Traced (Vouched (new s) es) (run f max (new s) es)
  unfolding run
  run-Traced s [] v = none-Traced (Vouched (new s) []) s
  run-Traced s (e ∷ es) v =
      step-Traced (Vouched (new s) (e ∷ es)) (run f max (new s) es) e (New-Vouched (new s) e es v) (
        weaken-Traced (Vouched (new s) es) (Vouched (new s) (e ∷ es)) (run f max (new s) es)
          (later-Vouched (new s) e es) (run-Traced s es v))
