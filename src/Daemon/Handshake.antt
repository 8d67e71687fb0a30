-- ===== src/Daemon/Handshake.antt =====
-- internal/daemon/daemon.go: `handleSync` up to `register`, after the TLS handshake.
use lanclip.Base.{
  ◌≡◌, ◌≢◌, sym, ap, ◌∙◌, Bool, true, false, not, ◌&&◌, Option, none, some, [], Text, codes,
  text_eq, text_eq_iff, text_lt, text_lt_total, if◌then◌else◌, Option-cases, Bool-cases, inl, inr,
  arith, is_ok,
}
use lanclip.Base.Unicode.{Unicode}
use lanclip.Pairing.Types.{Peer, Store}
use lanclip.Pairing.Disk.{PeersJson}
use lanclip.Pairing.Store.{Call, trusted_fingerprint}
use lanclip.Pairing.Changes.{update_name}
use lanclip.Pairing.Name.{normalize_device_name}
use lanclip.Protocol.{Message}

-- What the connection does: whether the hello goes out, and the message that comes in, if one does.
pub record Wire : Type 0 where
  pub hello_sent : Bool
  pub incoming : Option Message

-- `outbound == (d.id.ID < trusted.ID)`
abbrev pub is_owner : Text → Text → Bool → Bool
is_owner local remote outbound =
    if outbound then text_lt local remote else not (text_lt local remote)

abbrev pub is_hello : Message → Peer → Bool
is_hello m peer = text_eq m.kind (codes "hello") && text_eq m.device_id peer.id

module _ (u : Unicode) (json : PeersJson) (c : Call) where
  -- The peer's name as its hello gives it, stored where it is new; a failed save is ignored.
  unfoldable pub refresh_name : Text → Peer → Store → Store × Peer
  refresh_name raw peer s =
      let name = normalize_device_name u raw in
      if not (text_eq name []) && not (text_eq name peer.name)
      then (let (s', r) = update_name u json c peer.id name s in
          if is_ok r then (s', record peer { name = name }) else (s', peer))
      else (s, peer)

  -- After the hello has come in.
  unfoldable pub greet : Text → Bool → Bool → Message → Peer → Store → Store × Option Peer
  greet local outbound sent m peer s =
      if not (is_hello m peer)
      then (s, none)
      else (let (s', peer') = refresh_name m.name peer s in
          if not outbound && not sent
          then (s', none)
          else if is_owner local peer.id outbound
          then (s', some peer')
          else (s', none))

  -- The peer whose connection is registered, or `none` where handleSync returns before.
  unfoldable pub handle_sync : Text → Text → Bool → Wire → Store → Store × Option Peer
  handle_sync local fp outbound w s = elim (trusted_fingerprint fp s) [
    | none ↦ (s, none)
    | some peer ↦ if outbound && not w.hello_sent then (s, none) else elim w.incoming [
      | none ↦ (s, none)
      | some m ↦ greet local outbound w.hello_sent m peer s
    ]
  ]

  -- What a registered connection has shown.
  pub record Met (local fp : Text) (outbound : Bool) (w : Wire) (s : Store) (p : Peer)
      : Type 0 where
    pub peer : Peer
    pub message : Message
    pub pinned : trusted_fingerprint fp s ≡ some peer
    pub same_id : p.id ≡ peer.id
    pub came_in : w.incoming ≡ some message
    pub says_hello : message.kind ≡ codes "hello"
    pub names_itself : message.device_id ≡ peer.id
    pub sent : w.hello_sent ≡ true
    pub owner : outbound ≡ text_lt local peer.id

  refresh_name-id :
      (raw : Text) (peer : Peer) (s : Store) → (refresh_name raw peer s).1.id ≡ peer.id
  unfolding refresh_name
  refresh_name-id raw peer s = ground arith

  pub greet_id :
      (local : Text) (outbound sent : Bool) (m : Message) (peer p : Peer) (s : Store)
      → (greet local outbound sent m peer s).1 ≡ some p
      → p.id ≡ peer.id
  unfolding greet
  greet_id local outbound sent m peer p s h =
      let it : (refresh_name m.name peer s).1 ≡ p = ground arith in
      sym (ap (λ q. q.id) it) ∙ refresh_name-id m.name peer s

  owner_eq :
      (local remote : Text) (outbound : Bool)
      → is_owner local remote outbound ≡ true
      → outbound ≡ text_lt local remote
  owner_eq local remote outbound h = ground arith

  greet-Met :
      (local fp : Text) (outbound : Bool) (w : Wire) (m : Message) (peer p : Peer) (s : Store)
      → trusted_fingerprint fp s ≡ some peer
      → (outbound && not w.hello_sent) ≡ false
      → w.incoming ≡ some m
      → (greet local outbound w.hello_sent m peer s).1 ≡ some p
      → Met local fp outbound w s p
  unfolding greet
  greet-Met local fp outbound w m peer p s pin out e h =
      let hello : is_hello m peer ≡ true = ground arith in
      let own : is_owner local peer.id outbound ≡ true = ground arith in
      let it : (refresh_name m.name peer s).1 ≡ p = ground arith in
      record {
        peer = peer;
        message = m;
        pinned = pin;
        same_id = sym (ap (λ q. q.id) it) ∙ refresh_name-id m.name peer s;
        came_in = e;
        says_hello = (text_eq_iff m.kind (codes "hello")).0 (ground (arith, hello));
        names_itself = (text_eq_iff m.device_id peer.id).0 (ground (arith, hello));
        sent = ground arith;
        owner = owner_eq local peer.id outbound own;
      }

  -- A connection is registered only for a trusted peer to which the certificate's fingerprint is
  -- pinned, after a hello went out and one came in that names this very peer, and only if the side
  -- with the smaller ID dialled.
  pub handle_sync-Met :
      (local fp : Text) (outbound : Bool) (w : Wire) (s : Store) (p : Peer)
      → (handle_sync local fp outbound w s).1 ≡ some p
      → Met local fp outbound w s p
  unfolding handle_sync
  handle_sync-Met local fp outbound w s p h = elim (Option-cases (trusted_fingerprint fp s)) [
    | inl e ↦ absurd (ground (arith, e))
    | inr (peer, e) ↦ elim (Bool-cases (outbound && not w.hello_sent)) [
      | inl f ↦ absurd (ground (arith, e, f))
      | inr f ↦ elim (Option-cases w.incoming) [
        | inl g ↦ absurd (ground (arith, e, f, g))
        | inr (m, g) ↦ greet-Met local fp outbound w m peer p s e f g (ground (arith, e, f, g))
      ]
    ]
  ]

-- Between two devices with different IDs the ends of a connection agree on whether it may stay, and
-- of the two directions exactly one may: the connection that one device dials passes the other's test
-- exactly if it passes its own, and if it does the connection dialled the other way fails.
pub ends_agree :
    (a b : Text)
    → a ≢ b
    → (is_owner a b true ≡ is_owner b a false) × (is_owner b a true ≡ not (is_owner a b true))
ends_agree a b n =
    let other : text_eq a b ≡ false = ground (arith, text_eq_iff a b) in
    let total = text_lt_total a b other in (ground (arith, total), ground (arith, total))
