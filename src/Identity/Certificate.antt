-- ===== src/Identity/Certificate.antt =====
-- What the program reads of an X.509 certificate (crypto/x509), and the CommonName of an identity.
use lanclip.Base.{ℕ, Bool, ◌&&◌, not, ltb, Text, codes, text_eq, ◌++◌}

pub record Certificate : Type 0 where
  -- Raw
  pub raw : Text
  -- Subject.CommonName
  pub common_name : Text
  -- PublicKeyAlgorithm == x509.Ed25519, and PublicKey as an ed25519.PublicKey
  pub is_ed25519 : Bool
  pub public_key : Text
  pub not_before : ℕ
  pub not_after : ℕ
  -- CheckSignature(SignatureAlgorithm, RawTBSCertificate, Signature) == nil
  pub self_signed : Bool

-- !now.Before(c.NotBefore) && !now.After(c.NotAfter)
abbrev pub is_current : ℕ → Certificate → Bool
is_current now c = not (ltb now c.not_before) && not (ltb c.not_after now)

abbrev pub name_prefix : Text
name_prefix = codes "lanclip:"

-- internal/daemon/daemon.go: ValidateCertificateIdentity
unfoldable pub validate_certificate_identity : Certificate → Text → Bool
unfolding text_eq
validate_certificate_identity cert id = text_eq cert.common_name (name_prefix ++ id)
