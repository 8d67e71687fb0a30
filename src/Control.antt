-- ===== src/Control.antt =====
-- internal/control/control.go: one request and one response over the socket. encoding/json is a
-- parameter; the socket, its permissions and its deadlines are outcomes of the calls.
pub mod Listen
use lanclip.Base.{
  Bool, false, not, ◌&&◌, Option, none, some, [], ◌++◌, Text, codes, text_eq, if◌then◌else◌, Result,
  ok, err,
}

pub record Request : Type 0 where
  pub command : Text
  pub argument : Text
  pub pair_token : Text
  pub fingerprint : Text
  pub code : Text

-- `OK` and `Data` are named `okay` and `payload` here; nil is `none`.
pub record Response {ℓ} (D : Type ℓ) : Type ℓ where
  pub okay : Bool
  pub error : Text
  pub payload : Option D

-- encoding/json at the two types: a text that does not decode has a message; what cannot be encoded is
-- not sent.
pub record Codec {ℓ} (D : Type ℓ) : Type ℓ where
  pub encode_request : Request → Text
  pub decode_request : Text → Result Text Request
  pub encode_response : Response D → Option Text
  pub decode_response : Text → Option (Response D)

pub data Error : Type 0 where
  dial_failed send_failed no_response invalid_response : Error

-- Whether the dial succeeds, the request is sent, and the response arrives in time.
pub record CallIo : Type 0 where
  pub dial : Bool
  pub send : Bool
  pub receive : Bool

module _ {ℓ} {D : Type ℓ} (j : Codec D) where
  -- The end of Call, on the bytes that came back, if any did.
  unfoldable pub received : Option Text → Result Error (Response D)
  received none = err no_response
  received (some b) = elim (j.decode_response b) [
    | none ↦ err no_response
    | some r ↦ if not r.okay && text_eq r.error [] then err invalid_response else ok r
  ]

module _ {ℓ κ} {D : Type ℓ} {S : Type κ} (j : Codec D) where
  -- One connection of `serve`: the bytes of a request, to the state and the bytes sent back.
  unfoldable pub serve : (S → Request → S × Response D) → S → Text → S × Option Text
  serve handler s bytes = elim (j.decode_request bytes) [
    | err e ↦ (
      s,
      j.encode_response
          (record { okay = false; error = codes "invalid request: " ++ e; payload = none }),
    )
    | ok req ↦ let (s', r) = handler s req in (s', j.encode_response r)
  ]

  -- Call, against a server that is a function of the bytes sent. A request that is not sent whole does
  -- not decode.
  unfoldable pub call :
      CallIo → (S → Text → S × Option Text) → S → Request → S × Result Error (Response D)
  unfolding received
  call io server s req =
      if not io.dial
      then (s, err dial_failed)
      else if not io.send
      then (s, err send_failed)
      else (let (s', b) = server s (j.encode_request req) in
          if io.receive then (s', received j b) else (s', err no_response))
