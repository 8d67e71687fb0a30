-- ===== src/Daemon/Control/Unpair.antt =====
-- internal/daemon/daemon.go: "unpair" while a handshake is under way.
use mathlib.Core.Path.{subst}
use lanclip.Base.{
  ◌≡◌, refl, sym, ap, ◌∙◌, inl, inr, Bool, true, not, ◌&&◌, Option, none, some, [], ◌∷◌, Text,
  text_eq, ℕ, arith, Option-cases, Bool-cases, Result-cases, ok, is_ok, text_eq_refl, any,
}
use lanclip.Base.Dict.{lookup, lookup-insert}
use lanclip.Base.Unicode.{trim_space}
use lanclip.Pairing.Types.{Peer, Store, trusted, state_eq, state_eq_iff}
use lanclip.Pairing.Name.{normalize_device_name}
use lanclip.Pairing.Store.{Call, resolve, allowed, trusted_fingerprint, prune_pending_locked}
use lanclip.Pairing.Store.Resolve.{resolve_locked-Found}
use lanclip.Pairing.Changes.{update_name, unpair}
use lanclip.Pairing.Changes.Ended.{unpair-ended}
use lanclip.Pairing.Changes.Invariant.{step-IsValid}
use lanclip.Pairing.Runs.{update_name_of, perform}
use lanclip.Pairing.Valid.{IsValid, IsRequest, prune-IsValid}
use lanclip.Base.Entries.{Every-lookup}
use lanclip.Protocol.{Message}
use lanclip.Daemon.Conns.{PeerConn, Registry, register}
use lanclip.Daemon.Handshake.{Wire, refresh_name, greet, is_hello, is_owner, handle_sync}
use lanclip.Daemon.Control.{Fixed, Service, Turn, unpair_peer, close_conn, fail}

module _ (f : Fixed) where
  update_name-IsValid :
      (c : Call) (id raw : Text) (s : Store)
      → IsValid s
      → IsValid (update_name f.unicode f.json c id raw s).0
  unfolding perform
  update_name-IsValid c id raw s v = step-IsValid f.unicode f.json c s (update_name_of id raw) v

  refresh_name-IsValid :
      (c : Call) (raw : Text) (p : Peer) (s : Store)
      → IsValid s
      → IsValid (refresh_name f.unicode f.json c raw p s).0
  unfolding refresh_name
  refresh_name-IsValid c raw p s v =
      let name = normalize_device_name f.unicode raw in
      elim (Bool-cases (not (text_eq name []) && not (text_eq name p.name))) [
        | inr x ↦ rw (x, refresh_name) v
        | inl x ↦ elim (Bool-cases (is_ok (update_name f.unicode f.json c p.id name s).1)) [
          | inl y ↦ rw (x, y, refresh_name) (update_name-IsValid c p.id name s v)
          | inr y ↦ rw (x, y, refresh_name) (update_name-IsValid c p.id name s v)
        ]
      ]

  greet-IsValid :
      (c : Call) (local : Text) (outbound sent : Bool) (m : Message) (p : Peer) (s : Store)
      → IsValid s
      → IsValid (greet f.unicode f.json c local outbound sent m p s).0
  unfolding greet
  greet-IsValid c local outbound sent m p s v = elim (Bool-cases (is_hello m p)) [
    | inr x ↦ rw (x, greet) v
    | inl x ↦ elim (Bool-cases (not outbound && not sent)) [
      | inl y ↦ rw (x, y, greet) (refresh_name-IsValid c m.name p s v)
      | inr y ↦ elim (Bool-cases (is_owner local p.id outbound)) [
        | inl z ↦ rw (x, y, z, greet) (refresh_name-IsValid c m.name p s v)
        | inr z ↦ rw (x, y, z, greet) (refresh_name-IsValid c m.name p s v)
      ]
    ]
  ]

  handle_sync-IsValid :
      (c : Call) (local fp : Text) (outbound : Bool) (w : Wire) (s : Store)
      → IsValid s
      → IsValid (handle_sync f.unicode f.json c local fp outbound w s).0
  unfolding handle_sync
  handle_sync-IsValid c local fp outbound w s v = elim (Option-cases (trusted_fingerprint fp s)) [
    | inl x ↦ rw (x, handle_sync) v
    | inr (p, x) ↦ elim (Bool-cases (outbound && not w.hello_sent)) [
      | inl y ↦ rw (x, y, handle_sync) v
      | inr y ↦ elim (Option-cases w.incoming) [
        | inl z ↦ rw (x, y, z, handle_sync) v
        | inr (m, z) ↦
            rw (x, y, z, handle_sync) (greet-IsValid c local outbound w.hello_sent m p s v)
      ]
    ]
  ]

  -- The one trusted peer that Resolve finds stands in `peers`.
  resolve-peers :
      (c : Call) (query id : Text) (p : Peer) (s : Store)
      → IsValid s
      → (resolve f.unicode c query (trusted ∷ []) s).1 ≡ ok (id, p)
      → (lookup id (prune_pending_locked c.prune_time s).peers ≡ some p)
  unfolding resolve allowed any state_eq
  resolve-peers c query id p s v e =
      let s' = prune_pending_locked c.prune_time s in
      let v' = prune-IsValid c.prune_time s v in
      elim (resolve_locked-Found f.unicode s' (trusted ∷ []) v'.peers_nodup v'.pending_nodup query
        id p e) [
          | inr here ↦ here.0
          | inl there ↦
              let st = (Every-lookup IsRequest id s'.pending_peers p v'.requests there.0).1 in
              absurd (ground (arith, there.1, st, state_eq_iff p.state trusted))
        ]

  -- A command that unpaired a peer: which it is, and that it stands in neither map.
  unpair_peer-ended :
      (t : Turn f.net) (query : Text) (d : Service) (id : Text) (p : Peer)
      → IsValid d.store
      → (resolve f.unicode t.call query (trusted ∷ []) d.store).1 ≡ ok (id, p)
      → trim_space f.unicode id ≡ id
      → (unpair_peer f t query d).1.okay ≡ true
      → let d' = (unpair_peer f t query d).0 in
        (lookup id d'.store.peers ≡ none)
        × (lookup id d'.store.pending_peers ≡ none)
        × (d'.registry ≡ close_conn (lookup id d.registry.conns) d.registry)
  unfolding unpair_peer resolve fail
  unpair_peer-ended t query d id p v e own okay =
      let s' = prune_pending_locked t.call.prune_time d.store in
      let here = resolve-peers t.call query id p d.store v e in
      elim (Result-cases (unpair f.unicode f.json t.next_call id s').1) [
        | inr (x, y) ↦ absurd (ground (arith, e, y, okay))
        | inl (x, y) ↦
            let (gone, gone') = unpair-ended f.unicode f.json t.next_call s' id p own here y in
            rw (e, y, unpair_peer) (gone, gone', refl)
      ]

-- A handshake that has been accepted when the command comes, and registers its connection after it.
pub record Late : Type 0 where
  pub call : Call
  pub local : Text
  pub fingerprint : Text
  pub outbound : Bool
  pub wire : Wire
  pub handle : ℕ
  pub address : Text

abbrev pub late_conn : Late → Peer → PeerConn
late_conn l p = record { handle = l.handle; id = p.id; address = l.address; outbound = l.outbound }

module _ (f : Fixed) (l : Late) where
  -- handleSync up to `register`: the service then, and the peer if one is accepted.
  abbrev pub shake : Service → Service × Option Peer
  shake d =
      let (s', met) =
        handle_sync f.unicode f.json l.call l.local l.fingerprint l.outbound l.wire d.store in
      (record d { store = s' }, met)

  abbrev pub register_in : Option Peer → Service → Service
  register_in none d = d
  register_in (some p) d = record d { registry = (register (late_conn l p) d.registry).0 }

  -- The handshake, the command, and then `register`.
  pub interleaved : Turn f.net → Text → Service → Service
  interleaved t query d = let (d', met) = shake d in register_in met (unpair_peer f t query d').0

  register-first :
      (pc : PeerConn) (r : Registry)
      → lookup pc.id r.conns ≡ none
      → (lookup pc.id (register pc r).0.conns ≡ some pc) × ((register pc r).0.closed ≡ r.closed)
  unfolding register
  register-first pc r h = (
    rw (register, h) (rw (lookup-insert pc.id pc.id pc r.conns, text_eq_refl pc.id) refl),
    rw (register, h) refl,
  )

  -- A connection outlives the trust in its peer: where a handshake with a trusted peer, which has no other
  -- connection, is accepted before "unpair" comes and registers its connection after it, and the
  -- command succeeds for this peer, the peer is in neither map of the store afterwards, and still its
  -- connection is registered and nothing has closed it. The store is valid, and the ID has no space
  -- around it.
  pub late_conn_stays :
      (t : Turn f.net) (query : Text) (d : Service) (p q : Peer)
      → IsValid d.store
      → lookup p.id d.registry.conns ≡ none
      → trim_space f.unicode p.id ≡ p.id
      → (shake d).1 ≡ some p
      → (resolve f.unicode t.call query (trusted ∷ []) (shake d).0.store).1 ≡ ok (p.id, q)
      → (unpair_peer f t query (shake d).0).1.okay ≡ true
      → let d' = interleaved t query d in
        (lookup p.id d'.store.peers ≡ none)
        × (lookup p.id d'.store.pending_peers ≡ none)
        × (lookup p.id d'.registry.conns ≡ some (late_conn l p))
        × (d'.registry.closed ≡ d.registry.closed)
  unfolding interleaved register
  late_conn_stays t query d p q v fresh own met e okay =
      let v' = handle_sync-IsValid f l.call l.local l.fingerprint l.outbound l.wire d.store v in
      let (gone, gone', same) = unpair_peer-ended f t query (shake d).0 p.id q v' e own okay in
      let d' = (unpair_peer f t query (shake d).0).0 in
      let kept : d'.registry ≡ d.registry = same ∙ rw fresh refl in
      let (in_conns, still) =
        register-first (late_conn l p) d'.registry
          (subst (λ r. lookup p.id r.conns ≡ none) (sym kept) fresh) in
      rw (interleaved, met) (gone, gone', in_conns, still ∙ ap (λ r. r.closed) kept)
