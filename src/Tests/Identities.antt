-- ===== src/Tests/Identities.antt =====
-- internal/identity/identity.go and internal/transport/tls.go: IDs, certificates and the checks on them.
use lanclip.Base.{
  ◌≡◌, ◌≢◌, refl, ◌⊎◌, ◌≤◌, true, [], ◌∷◌, Text, codes, ok, err, arith, length, text_eq, has_prefix,
}
use lanclip.Identity.Hex.{IsBytes, fingerprint}
use lanclip.Identity.Uuid.{valid_uuid}
use lanclip.Identity.Uuid.Valid.{valid_uuid_extra_dashes}
use lanclip.Identity.Parse.{PrivateKey, outside_validity, check, Checked, check-Checked}
use lanclip.Transport.Tls.{
  Connection, untrusted, alpn_sync, alpn_pair, is_pinned, verify_client, verify_server, Proves,
  verify_client_sound, verify_server_sound,
}
use lanclip.Identity.Certificate.{Certificate}
use lanclip.Pairing.Types.{Store}
use lanclip.Tests.Samples.{digest, amy_cert, amy_id, paired, friend, bob_id}

abbrev ones : Text
ones = 1 ∷ 1 ∷ 1 ∷ 1 ∷ 1 ∷ 1 ∷ 1 ∷ 1 ∷ 1 ∷ 1 ∷ 1 ∷ 1 ∷ 1 ∷ 1 ∷ 1 ∷ 255 ∷ []

ones-IsBytes : IsBytes ones
ones-IsBytes = ground arith

amy_id_valid : valid_uuid amy_id ≡ true
unfolding valid_uuid
amy_id_valid = refl

amy_rest_valid : valid_uuid (b'0' ∷ b'a' ∷ codes "0a0a0a-0a0a-4a0a-8a0a-0a0a0a0a0a0a") ≡ true
unfolding valid_uuid
amy_rest_valid = refl

valid_uuid_extra_dashes_example :
    valid_uuid (b'-' ∷ b'-' ∷ codes "0a0a0a-0a0a-4a0a-8a0a-0a0a0a0a0a0a") ≡ true
valid_uuid_extra_dashes_example =
    valid_uuid_extra_dashes b'0' b'a' (codes "0a0a0a-0a0a-4a0a-8a0a-0a0a0a0a0a0a")
      (λ e. ground arith) (λ e. ground arith) amy_rest_valid

abbrev amy_key : PrivateKey
amy_key = record { is_ed25519 = true; public = codes "key" }

amy_checks : check 500 amy_cert amy_key ≡ ok amy_id
unfolding check text_eq has_prefix valid_uuid
amy_checks = refl

-- A certificate that has expired is refused.
expired_identity : check 1001 amy_cert amy_key ≡ err outside_validity
unfolding check text_eq has_prefix valid_uuid
expired_identity = refl

check-Checked_example : Checked 500 amy_cert amy_key amy_id
check-Checked_example = check-Checked 500 amy_cert amy_key amy_id amy_checks

-- The store that trusts the digest of every certificate.
abbrev zero_pin : Text
zero_pin = codes "0000000000000000000000000000000000000000000000000000000000000000"

abbrev pinning : Store
pinning = record paired { peers = (bob_id, record friend { fingerprint = zero_pin }) ∷ [] }

abbrev link : Connection
link = record { peer_certificates = amy_cert ∷ []; negotiated_protocol = alpn_sync }

lets_in : verify_client digest pinning 500 link ≡ ok tt
unfolding verify_client text_eq lanclip.Pairing.Store.trusted_fingerprint
    lanclip.Pairing.Types.state_eq fingerprint lanclip.Identity.Hex.hex_encode
lets_in = refl

keeps_out : verify_client digest paired 500 link ≡ err untrusted
unfolding verify_client text_eq lanclip.Pairing.Store.trusted_fingerprint
    lanclip.Pairing.Types.state_eq fingerprint lanclip.Identity.Hex.hex_encode
keeps_out = refl

verify_client_sound_example :
    (c : Certificate) × Proves 500 link c
    × ((link.negotiated_protocol ≡ alpn_pair)
        ⊎ ((link.negotiated_protocol ≡ alpn_sync) × (is_pinned digest pinning c ≡ true)))
verify_client_sound_example = verify_client_sound digest pinning 500 link lets_in

amy_cert-Proves : Proves 500 link amy_cert
amy_cert-Proves = record { only = refl; ed25519 = refl; current = refl; signed = refl }

amy_pinned : is_pinned digest pinning amy_cert ≡ true
unfolding lanclip.Pairing.Store.trusted_fingerprint lanclip.Pairing.Types.state_eq fingerprint
    lanclip.Identity.Hex.hex_encode
amy_pinned = refl

server_matches : verify_server digest pinning alpn_sync (codes "000000000000") 500 link ≡ ok tt
unfolding verify_server text_eq has_prefix fingerprint lanclip.Identity.Hex.hex_encode
    lanclip.Pairing.Store.trusted_fingerprint lanclip.Pairing.Types.state_eq
server_matches = refl

verify_server_sound_example :
    (c : Certificate) × Proves 500 link c
    × (codes "000000000000" ≢ []
        → (12 ≤ length (codes "000000000000"))
          × (has_prefix (fingerprint digest c.raw) (codes "000000000000") ≡ true))
    × (alpn_sync ≡ alpn_sync → is_pinned digest pinning c ≡ true)
verify_server_sound_example =
    verify_server_sound digest pinning alpn_sync (codes "000000000000") 500 link server_matches
