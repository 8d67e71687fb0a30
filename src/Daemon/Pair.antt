-- ===== src/Daemon/Pair.antt =====
-- internal/daemon/daemon.go: `handleIncomingPair`, and `pair` once the connection stands.
pub mod Agree
use lanclip.Base.{
  ℕ, Bool, not, ◌&&◌, Option, none, some, [], Text, codes, text_eq, has_prefix, if◌then◌else◌, ok,
  err,
}
use lanclip.Base.Unicode.{Unicode}
use lanclip.Identity.Hex.{Sha256, fingerprint}
use lanclip.Identity.Uuid.{valid_uuid}
use lanclip.Identity.Certificate.{Certificate, validate_certificate_identity}
use lanclip.Pairing.Types.{Peer, Store, pending}
use lanclip.Pairing.Store.{Call}
use lanclip.Pairing.Changes.{put_pending}
use lanclip.Pairing.Code.{Side, comparison_code}
use lanclip.Pairing.Name.{normalize_device_name}
use lanclip.Protocol.{Message}
use lanclip.Daemon.Rate.{Limiter, allow_pair_attempt}

-- This device: `d.id.ID`, `d.cfg.Name` and `d.id.Fingerprint()`.
pub record Device : Type 0 where
  pub id : Text
  pub name : Text
  pub fingerprint : Text

abbrev pub pair_message : Text → Device → Text → Message
pair_message kind d nonce = record {
  kind = kind;
  protocol = 0;
  device_id = d.id;
  name = d.name;
  event_id = [];
  mime = [];
  text = [];
  nonce = nonce;
  code = [];
  fingerprint = d.fingerprint;
  error_code = [];
}

abbrev pub offer_kind : Text
offer_kind = codes "pair_offer"

abbrev pub answer_kind : Text
answer_kind = codes "pair_answer"

-- The entry given to PutPending; the fields that it fills in are empty here.
abbrev pub request : Text → Text → Text → Text → Peer
request id name fp code = record {
  id = id;
  name = name;
  fingerprint = fp;
  state = pending;
  comparison_code = code;
  approval_token = [];
  updated_at = 0;
}

abbrev pub side : Device → Text → Side
side d nonce = record { id = d.id; fingerprint = d.fingerprint; nonce = nonce }

abbrev pub sender : Message → Side
sender m = record { id = m.device_id; fingerprint = m.fingerprint; nonce = m.nonce }

-- What both ends ask of the other's message, given the fingerprint of its certificate.
unfoldable pub is_sound : Unicode → Certificate → Text → Message → Bool
is_sound u cert actual m =
    valid_uuid m.device_id
    && not (text_eq (normalize_device_name u m.name) [])
    && not (text_eq m.nonce [])
    && text_eq m.fingerprint actual
    && validate_certificate_identity cert m.device_id

module _ (u : Unicode) (h : Sha256) (c : Call) (d : Device) (cert : Certificate) where
  -- handleIncomingPair after the offer was read: the answer, if one is sent. The peer's side of the
  -- code takes the fingerprint of the certificate.
  unfoldable pub answer_offer : Message → Option Text → Store → Store × Option Message
  answer_offer m own_nonce s =
      let actual = fingerprint h cert.raw in
      if not (text_eq m.kind offer_kind && is_sound u cert actual m)
      then (s, none)
      else elim own_nonce [
        | none ↦ (s, none)
        | some nonce ↦
            let peer : Side = record { id = m.device_id; fingerprint = actual; nonce = m.nonce } in
            let code = comparison_code h.sum (side d nonce) peer in
            let (s', r) =
              put_pending c (request m.device_id (normalize_device_name u m.name) actual code) s in
            elim r [ err e ↦ (s', none) | ok p ↦ (s', some (pair_message answer_kind d nonce)) ]
      ]

  -- handleIncomingPair: the limiter comes first.
  unfoldable pub handle_incoming_pair :
      ℕ → Text → Option Message → Option Text → Limiter → Store → Limiter × Store × Option Message
  handle_incoming_pair now key offer own_nonce l s =
      let (l', allowed) = allow_pair_attempt now key l in
      if not allowed then (l', s, none) else elim offer [
        | none ↦ (l', s, none)
        | some m ↦ let (s', answer) = answer_offer m own_nonce s in (l', s', answer)
      ]

  -- The check of `pair` on the answer, against the peer as it was discovered.
  unfoldable pub is_answer : Text → Text → Message → Bool
  is_answer peer_id peer_fp m =
      text_eq m.kind answer_kind
      && text_eq m.device_id peer_id
      && has_prefix (fingerprint h cert.raw) peer_fp
      && is_sound u cert (fingerprint h cert.raw) m

  -- `pair` after the answer was read; `none` is "invalid pairing response" or PutPending's error.
  unfoldable pub accept_answer : Text → Text → Text → Message → Store → Store × Option Peer
  accept_answer peer_id peer_fp own_nonce m s =
      if not (is_answer peer_id peer_fp m)
      then (s, none)
      else (let code = comparison_code h.sum (side d own_nonce) (sender m) in
          let (s', r) =
            put_pending c
              (request m.device_id (normalize_device_name u m.name) (fingerprint h cert.raw) code)
              s in
          elim r [ err e ↦ (s', none) | ok p ↦ (s', some p) ])
