-- ===== src/Pairing/Types.antt =====
-- internal/pairing/store.go: the types of the store. A time is a number of nanoseconds.
use lanclip.Base.{◌≡◌, ◌↔◌, arith, text_eq_iff, ℕ, Bool, true, false, Option, Text, text_eq}
use lanclip.Base.Dict.{Dict}

-- `type State string`; the three constants, and any other string that a file may hold.
pub data State : Type 0 where
  pending trusted rejected : State
  other : Text → State

unfoldable pub state_eq : State → State → Bool
unfolding text_eq
state_eq pending pending = true
state_eq trusted trusted = true
state_eq rejected rejected = true
state_eq (other s) (other t) = text_eq s t
state_eq _ _ = false

pub record Peer : Type 0 where
  pub id : Text
  pub name : Text
  pub fingerprint : Text
  pub state : State
  pub comparison_code : Text
  pub approval_token : Text
  pub updated_at : ℕ

-- The directory of peers.json: the file's contents, if it is there, and the temporary files left.
pub record Disk : Type 0 where
  pub file : Option Text
  pub temp_files : ℕ

pub record Store : Type 0 where
  pub disk : Disk
  pub peers : Dict Peer
  pub pending_peers : Dict Peer
  pub pending_ttl : ℕ
  pub max_pending : ℕ

pub data Error : Type 0 where
  encode_failed create_failed write_failed rename_failed read_failed parse_failed : Error
  identity_changed already_trusted already_pending too_many_pending nonce_failed : Error
  request_changed no_pending_match no_match ambiguous empty_name unknown_peer : Error

-- 5 * time.Minute
abbrev pub default_pending_ttl : ℕ
default_pending_ttl = 300_000_000_000

abbrev pub default_max_pending : ℕ
default_max_pending = 32

pub state_eq_iff : (a b : State) → (state_eq a b ≡ true) ↔ (a ≡ b)
unfolding state_eq
state_eq_iff pending b = ground arith
state_eq_iff trusted b = ground arith
state_eq_iff rejected b = ground arith
state_eq_iff (other s) pending = ground arith
state_eq_iff (other s) trusted = ground arith
state_eq_iff (other s) rejected = ground arith
state_eq_iff (other s) (other t) = ground (arith, text_eq_iff s t)
