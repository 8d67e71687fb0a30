-- ===== src/Daemon/System/Stores.antt =====
-- internal/daemon/daemon.go: what the parts of a turn do to the store.
use mathlib.Core.Path.{subst}
use lanclip.Base.{
  ◌⊎◌, ℕ, ◌≡◌, refl, sym, Bool, true, not, ◌&&◌, Option, none, some, List, [], ◌∷◌, ◌++◌, map, Text,
  text_eq, all, arith, Option-cases, Bool-cases, Result-cases, Result, ok, err, inl, inr, is_ok,
  if◌then◌else◌,
}
use lanclip.Identity.Certificate.{Certificate}
use lanclip.Identity.Hex.{fingerprint}
use lanclip.Pairing.Types.{Peer, Store}
use lanclip.Pairing.Code.{comparison_code}
use lanclip.Pairing.Name.{normalize_device_name}
use lanclip.Pairing.Store.{Call, list, get}
use lanclip.Pairing.Changes.{update_name, put_pending}
use lanclip.Pairing.Runs.{Method, get_of, list_of, update_name_of, perform, run}
use lanclip.Protocol.{Message}
use lanclip.Discovery
use lanclip.Discovery.Direct.{Net}
use lanclip.Daemon.Rate.{Limiter, allow_pair_attempt}
use lanclip.Daemon.Conns.{PeerConn, Registry}
use lanclip.Daemon.Clipboard.{InboundClipboard, write_peer, write_clipboard, receive, broadcast}
use lanclip.Daemon.Clipboard as Clipboard
use lanclip.Daemon.Handshake.{refresh_name, greet, is_hello, is_owner}
use lanclip.Daemon.Pair.{answer_offer, handle_incoming_pair, is_sound, offer_kind, request, side}
use lanclip.Daemon.Connect.{tick, found_candidates}
use lanclip.Daemon.Control.{Fixed}
use lanclip.Daemon.Control.Quiet.{is_quiet, Ran, PutOnce, quiet_run}
use lanclip.Daemon.System.{
  World, Meeting, accept_met, with_store, look, meet, link, leave, deliver, write_text,
}

-- What Get and List leave, one after the other.
module _ (f : Fixed) (n : Net) (networks : List n.Network) where
  abbrev gets : List (Call × Discovery.Peer) → List (Call × Method)
  gets = map (λ (c, p). (c, get_of p.id))

  candidates_run :
      (found : List (Call × Discovery.Peer)) (c : Call) (s : Store)
      → (list c (found_candidates n networks found s).0).0
        ≡ run f.unicode f.json s (gets found ++ (c, list_of) ∷ [])
  unfolding run perform found_candidates
  candidates_run [] c s = refl
  candidates_run ((c', p) ∷ found) c s = candidates_run found c (get c' p.id s).0

  gets-is_quiet :
      (found : List (Call × Discovery.Peer)) (c : Call)
      → all is_quiet (gets found ++ (c, list_of) ∷ []) ≡ true
  unfolding all
  gets-is_quiet [] c = refl
  gets-is_quiet ((c', p) ∷ found) c = gets-is_quiet found c

  pub tick-Ran :
      (found : List (Call × Discovery.Peer)) (local : Text) (resolve : Peer → List Text) (c : Call)
      (s : Store) (r : Registry)
      → Ran f s none (tick n local networks resolve found c (s, r)).0.0
  unfolding tick
  tick-Ran found local resolve c s r =
      subst (Ran f s none) (sym (candidates_run found c s))
        (quiet_run f s none _ (gets-is_quiet found c))

module _ (f : Fixed) where
  answer_offer-store :
      (c : Call) (cert : Certificate) (m : Message) (own : Option Text) (s : Store)
      → PutOnce f c s (answer_offer f.unicode f.sha c f.device cert m own s).0
  unfolding answer_offer
  answer_offer-store c cert m own s =
      let actual = fingerprint f.sha cert.raw in
      elim (Bool-cases (text_eq m.kind offer_kind && is_sound f.unicode cert actual m)) [
        | inr x ↦ inl (ground (arith, x))
        | inl x ↦ elim (Option-cases own) [
          | inl y ↦ inl (ground (arith, x, y))
          | inr (nonce, y) ↦
              let code =
                comparison_code f.sha.sum (side f.device nonce)
                  (record { id = m.device_id; fingerprint = actual; nonce = m.nonce }) in
              let p = request m.device_id (normalize_device_name f.unicode m.name) actual code in
              inr (
                p,
                elim (Result-cases (put_pending c p s).1) [
                  | inl z ↦ ground (arith, x, y, z.1)
                  | inr z ↦ ground (arith, x, y, z.1)
                ],
              )
        ]
      ]

  pub offers-store :
      (now : ℕ) (key : Text) (c : Call) (cert : Certificate) (offer : Option Message)
      (own : Option Text) (l : Limiter) (s : Store)
      → PutOnce f c s (handle_incoming_pair f.unicode f.sha c f.device cert now key offer own l s).1
  unfolding handle_incoming_pair
  offers-store now key c cert offer own l s = elim (Bool-cases (allow_pair_attempt now key l).1) [
    | inr x ↦ rw (x, handle_incoming_pair) (inl refl)
    | inl x ↦ elim (Option-cases offer) [
      | inl y ↦ rw (x, y, handle_incoming_pair) (inl refl)
      | inr (m, y) ↦ rw (x, y, handle_incoming_pair) (answer_offer-store c cert m own s)
    ]
  ]

  -- Nothing, or one UpdateName.
  abbrev pub RenameOnce : Call → Store → Store → Type 0
  RenameOnce c s s' =
      (s' ≡ s) ⊎ ((id : Text) × (name : Text) × (s' ≡ (update_name f.unicode f.json c id name s).0))

  pub rename_once-Ran : (c : Call) (s s' : Store) → RenameOnce c s s' → Ran f s none s'
  unfolding run perform all
  rename_once-Ran c s s' (inl e) = subst (Ran f s none) (sym e) (quiet_run f s none [] refl)
  rename_once-Ran c s s' (inr (id, name, e)) =
      subst (Ran f s none) (sym e) (quiet_run f s none ((c, update_name_of id name) ∷ []) refl)

  refresh_name-store :
      (c : Call) (raw : Text) (p : Peer) (s : Store)
      → RenameOnce c s (refresh_name f.unicode f.json c raw p s).0
  unfolding refresh_name
  refresh_name-store c raw p s =
      let name = normalize_device_name f.unicode raw in
      elim (Bool-cases (not (text_eq name []) && not (text_eq name p.name))) [
        | inr x ↦ rw (x, refresh_name) (inl refl)
        | inl x ↦ elim (Bool-cases (is_ok (update_name f.unicode f.json c p.id name s).1)) [
          | inl y ↦ rw (x, y, refresh_name) (inr (p.id, name, refl))
          | inr y ↦ rw (x, y, refresh_name) (inr (p.id, name, refl))
        ]
      ]

  greet-store :
      (c : Call) (local : Text) (outbound sent : Bool) (m : Message) (p : Peer) (s : Store)
      → RenameOnce c s (greet f.unicode f.json c local outbound sent m p s).0
  unfolding greet
  greet-store c local outbound sent m p s = elim (Bool-cases (is_hello m p)) [
    | inr x ↦ rw (x, greet) (inl refl)
    | inl x ↦ elim (Bool-cases (not outbound && not sent)) [
      | inl y ↦ rw (x, y, greet) (refresh_name-store c m.name p s)
      | inr y ↦ elim (Bool-cases (is_owner local p.id outbound)) [
        | inl z ↦ rw (x, y, z, greet) (refresh_name-store c m.name p s)
        | inr z ↦ rw (x, y, z, greet) (refresh_name-store c m.name p s)
      ]
    ]
  ]

  met-store : (p : Option Peer) (m : Meeting) (w : World) → (accept_met p m w).service ≡ w.service
  met-store none m w = refl
  met-store (some p) m w = refl

  pub meet-store :
      (c : Call) (sent : Bool) (incoming : Option Message) (m : Meeting) (w : World)
      → RenameOnce c w.service.store (meet f c sent incoming m w).service.store
  unfolding meet
  meet-store c sent none m w = inl refl
  meet-store c sent (some h) m w =
      let s = w.service.store in
      let flag = if m.outbound then m.sent else sent in
      let met = greet f.unicode f.json c f.device.id m.outbound flag h m.peer s in
      rw (met-store met.1 m (with_store met.0 w))
        (greet-store c f.device.id m.outbound flag h m.peer s)

  pub look-store :
      (fp : Text) (outbound sent : Bool) (address : Text) (w : World)
      → (look fp outbound sent address w).service ≡ w.service
  unfolding look
  look-store fp outbound sent address w = ground arith

  pub link-store : (pc : PeerConn) (w : World) → (link pc w).service.store ≡ w.service.store
  unfolding link
  link-store pc w = ground arith

  pub leave-store :
      (pc : PeerConn) (e : Option Text) (w : World) → (leave pc e w).service.store ≡ w.service.store
  unfolding leave
  leave-store pc none w = refl
  leave-store pc (some e) w = refl

  pub deliver-store :
      (now : ℕ) (r : Result Text (Unit {0})) (q : PeerConn × Message) (w : World)
      → (deliver now r q w).service.store ≡ w.service.store
  unfolding deliver
  deliver-store now (ok x) (pc, m) w = refl
  deliver-store now (err e) (pc, m) w = refl

  pub write_text-store :
      (t : Clipboard.Turn) (q : PeerConn × InboundClipboard) (w : World)
      → (write_text f t q w).service.store ≡ w.service.store
  unfolding write_text
  write_text-store t (pc, c) w = elim (Result-cases t.written) [
    | inl x ↦ rw (x.1, write_text) refl
    | inr x ↦ rw (x.1, write_text) refl
  ]
