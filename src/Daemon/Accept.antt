-- ===== src/Daemon/Accept.antt =====
-- internal/daemon/daemon.go: `acceptLoop` and `handleTLS`: the limit on the handshakes under way. The channel
-- of tokens is their number.
pub mod Histories
use lanclip.Base.{
  ℕ, ◌+◌, ◌≤◌, ◌≡◌, refl, Bool, true, false, not, Option, List, [], ◌∷◌, ◌++◌, Text, text_eq, ltb,
  if◌then◌else◌, arith, Bool-cases, inl, inr,
}
use lanclip.Discovery.Direct.{Net, is_direct}
use lanclip.Transport.Tls.{alpn_pair, alpn_sync}

abbrev pub max_concurrent_handshakes : ℕ
max_concurrent_handshakes = 32

-- A connection that was accepted: its address, if it is one of TCP. The flag says whether a handshake
-- starts; otherwise the connection is closed.
unfoldable pub accept : (n : Net) → List n.Network → Option n.Ip → ℕ → ℕ × Bool
accept n networks remote busy =
    if not (is_direct n remote networks)
    then (busy, false)
    else if ltb busy max_concurrent_handshakes
    then (busy + 1, true)
    else (busy, false)

-- What handleTLS does, in its order.
pub data Act : Type 0 where
  releases closes pairs syncs : Act

-- handshakeDone, if there is one
abbrev pub release : Bool → List Act
release true = releases ∷ []
release false = []

abbrev pub dispatch : Text → Act
dispatch protocol =
    if text_eq protocol alpn_pair
    then pairs
    else if text_eq protocol alpn_sync
    then syncs
    else closes

-- handleTLS: whether it is given handshakeDone, whether the deadline can be set and the handshake
-- succeeds, and the protocol negotiated.
unfoldable pub handle_tls : Bool → Bool → Bool → Text → List Act
handle_tls limited deadline handshake protocol =
    if not deadline
    then closes ∷ release limited
    else if not handshake
    then closes ∷ release limited
    else release limited ++ (dispatch protocol ∷ [])

unfoldable pub released : List Act → ℕ
released [] = 0
released (releases ∷ more) = released more + 1
released (closes ∷ more) = released more
released (pairs ∷ more) = released more
released (syncs ∷ more) = released more

released-dispatch : (protocol : Text) → released (dispatch protocol ∷ []) ≡ 0
unfolding released
released-dispatch protocol = elim (Bool-cases (text_eq protocol alpn_pair)) [
  | inl x ↦ rw x refl
  | inr x ↦ elim (Bool-cases (text_eq protocol alpn_sync)) [
    | inl y ↦ rw (x, y) refl
    | inr y ↦ rw (x, y) refl
  ]
]

-- Every accepted handshake gives its token back once, whichever way it ends.
pub handle_tls-released :
    (deadline handshake : Bool) (protocol : Text)
    → released (handle_tls true deadline handshake protocol) ≡ 1
unfolding handle_tls released
handle_tls-released false handshake protocol = refl
handle_tls-released true false protocol = refl
handle_tls-released true true protocol = ground (arith, released-dispatch protocol)

-- No more handshakes than the limit are ever under way.
pub accept-le :
    (n : Net) (networks : List n.Network) (remote : Option n.Ip) (busy : ℕ)
    → busy ≤ max_concurrent_handshakes
    → (accept n networks remote busy).0 ≤ max_concurrent_handshakes
unfolding accept
accept-le n networks remote busy h = ground (arith, h)
