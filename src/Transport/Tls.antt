-- ===== src/Transport/Tls.antt =====
-- internal/transport/tls.go: the checks that replace the chain verifier. The handshake is crypto/tls,
-- which hands over the peer's certificates and the protocol that was negotiated.
use lanclip.Base.{
  ℕ, ◌≡◌, refl, ◌≤◌, Bool, true, not, ◌||◌, ◌&&◌, List, [], ◌∷◌, Text, codes, text_eq, text_eq_iff,
  has_prefix, ltb, arith, if◌then◌else◌, length, is_some, Result, ok, err, ◌>>=◌, ◌>>◌, guard,
  guard_inv, ◌⊎◌, ◌≢◌,
}
use lanclip.Identity.Certificate.{Certificate, is_current}
use lanclip.Identity.Hex.{Sha256, fingerprint}
use lanclip.Pairing.Types.{Store}
use lanclip.Pairing.Store.{trusted_fingerprint}

abbrev pub alpn_sync : Text
alpn_sync = codes "lanclip-sync/1"

abbrev pub alpn_pair : Text
alpn_pair = codes "lanclip-pair/1"

-- tls.ConnectionState
pub record Connection : Type 0 where
  pub peer_certificates : List Certificate
  pub negotiated_protocol : Text

pub data Error : Type 0 where
  one_certificate not_ed25519 outside_validity bad_signature : Error
  unsupported_protocol untrusted identity_mismatch : Error

unfoldable pub verify_self_signed : ℕ → Certificate → Result Error (Unit {0})
verify_self_signed now c = do
  guard c.is_ed25519 not_ed25519
  guard (is_current now c) outside_validity
  guard c.self_signed bad_signature

-- `len(cs.PeerCertificates) != 1`
abbrev pub the_certificate : List Certificate → Result Error Certificate
the_certificate (c ∷ []) = ok c
the_certificate _ = err one_certificate

abbrev pub is_pinned : Sha256 → Store → Certificate → Bool
is_pinned h store c = is_some (trusted_fingerprint (fingerprint h c.raw) store)

-- The end of the server's checks: pairing needs no pin.
abbrev pub admit_protocol : Bool → Text → Result Error (Unit {0})
admit_protocol pinned proto =
    if text_eq proto alpn_pair
    then ok tt
    else if not (text_eq proto alpn_sync)
    then err unsupported_protocol
    else guard pinned untrusted

-- ServerConfig's VerifyConnection
unfoldable pub verify_client : Sha256 → Store → ℕ → Connection → Result Error (Unit {0})
unfolding verify_self_signed
verify_client h store now cs = do
  c ← the_certificate cs.peer_certificates
  verify_self_signed now c
  admit_protocol (is_pinned h store c) cs.negotiated_protocol

-- `expected != "" && (len(expected) < 12 || !strings.HasPrefix(fp, expected))`
abbrev pub mismatches : Text → Text → Bool
mismatches expected fp =
    not (text_eq expected []) && (ltb (length expected) 12 || not (has_prefix fp expected))

-- ClientConfig's VerifyConnection
unfoldable pub verify_server :
    Sha256 → Store → Text → Text → ℕ → Connection → Result Error (Unit {0})
unfolding verify_self_signed
verify_server h store proto expected now cs = do
  c ← the_certificate cs.peer_certificates
  verify_self_signed now c
  guard (not (mismatches expected (fingerprint h c.raw))) identity_mismatch
  if text_eq proto alpn_sync then guard (is_pinned h store c) untrusted else ok tt

-- The peer's one certificate is an Ed25519 certificate that signs itself and is valid now.
pub record Proves (now : ℕ) (cs : Connection) (c : Certificate) : Type 0 where
  pub only : cs.peer_certificates ≡ c ∷ []
  pub ed25519 : c.is_ed25519 ≡ true
  pub current : is_current now c ≡ true
  pub signed : c.self_signed ≡ true

guard-true : (b : Bool) (e : Error) → guard b e ≡ ok tt → b ≡ true
guard-true b e h = ground arith

certificate_inv :
    (cs : List Certificate) (k : Certificate → Result Error (Unit {0}))
    → (the_certificate cs >>= k) ≡ ok tt
    → (c : Certificate) × (cs ≡ c ∷ []) × (k c ≡ ok tt)
certificate_inv [] k h = absurd (cc h)
certificate_inv (c ∷ []) k h = (c, refl, h)
certificate_inv (c ∷ d ∷ cs) k h = absurd (cc h)

self_signed_inv :
    (now : ℕ) (c : Certificate) (k : Result Error (Unit {0}))
    → (verify_self_signed now c >> k) ≡ ok tt
    → (c.is_ed25519 ≡ true) × (is_current now c ≡ true) × (c.self_signed ≡ true) × (k ≡ ok tt)
unfolding verify_self_signed
self_signed_inv now c k h = ground arith

admitted :
    (pinned : Bool) (proto : Text)
    → admit_protocol pinned proto ≡ ok tt
    → (proto ≡ alpn_pair) ⊎ ((proto ≡ alpn_sync) × (pinned ≡ true))
admitted pinned proto h = ground (arith, text_eq_iff proto alpn_pair, text_eq_iff proto alpn_sync)

expected_matches :
    (expected fp : Text)
    → not (mismatches expected fp) ≡ true
    → expected ≢ []
    → (12 ≤ length expected) × (has_prefix fp expected ≡ true)
expected_matches expected fp h n = ground (arith, text_eq_iff expected [])

-- A server lets a connection through only if the peer shows exactly one certificate, which proves
-- itself, and either the protocol is the pairing one, or it is the sync one and the certificate's
-- fingerprint is pinned to a trusted peer.
pub verify_client_sound :
    (h : Sha256) (store : Store) (now : ℕ) (cs : Connection)
    → verify_client h store now cs ≡ ok tt
    → (c : Certificate) × Proves now cs c
      × ((cs.negotiated_protocol ≡ alpn_pair)
          ⊎ ((cs.negotiated_protocol ≡ alpn_sync) × (is_pinned h store c ≡ true)))
unfolding verify_client
verify_client_sound h store now cs e =
    let (c, only, e1) = certificate_inv cs.peer_certificates _ e in
    let (a, b, d, e2) = self_signed_inv now c _ e1 in
    (
      c,
      record { only = only; ed25519 = a; current = b; signed = d },
      admitted (is_pinned h store c) cs.negotiated_protocol e2,
    )

-- A connection on the sync protocol whose one certificate proves itself and is pinned is let through.
pub verify_client_complete :
    (h : Sha256) (store : Store) (now : ℕ) (cs : Connection) (c : Certificate)
    → Proves now cs c
    → (cs.negotiated_protocol ≡ alpn_sync)
    → is_pinned h store c ≡ true
    → verify_client h store now cs ≡ ok tt
unfolding verify_client verify_self_signed text_eq
verify_client_complete h store now cs c p s pin =
    simp (p.only, p.ed25519, p.current, p.signed, s, pin)

-- A client goes on only if the server shows exactly one certificate, which proves itself; the
-- certificate's fingerprint begins with the one that was expected, of which at least 12 digits must
-- be known, unless none was expected; and for the sync protocol it is pinned to a trusted peer.
pub verify_server_sound :
    (h : Sha256) (store : Store) (proto expected : Text) (now : ℕ) (cs : Connection)
    → verify_server h store proto expected now cs ≡ ok tt
    → (c : Certificate) × Proves now cs c
      × (expected ≢ []
          → (12 ≤ length expected) × (has_prefix (fingerprint h c.raw) expected ≡ true))
      × (proto ≡ alpn_sync → is_pinned h store c ≡ true)
unfolding verify_server
verify_server_sound h store proto expected now cs e =
    let (c, only, e1) = certificate_inv cs.peer_certificates _ e in
    let (a, b, d, e2) = self_signed_inv now c _ e1 in
    let (matching, e3) = guard_inv (not (mismatches expected (fingerprint h c.raw))) _ _ tt e2 in
    (
      c,
      record { only = only; ed25519 = a; current = b; signed = d },
      λ some_digits. expected_matches expected (fingerprint h c.raw) matching some_digits,
      λ sync. ground (arith, e3, text_eq_iff proto alpn_sync),
    )
