-- ===== src/Daemon/Control/Answer.antt =====
-- internal/control/control.go with internal/daemon/daemon.go: a command over the socket.
use lanclip.Base.{
  ◌≡◌, ◌⊎◌, refl, inl, inr, true, false, not, ◌&&◌, some, [], ◌∷◌, Text, text_eq, arith, Bool-cases,
  Result-cases, Result, ok, err, ltb, length, suc, is_ok,
}
use lanclip.Base.Dict.{lookup}
use lanclip.Pairing.Types.{Peer, Store, Error, trusted}
use lanclip.Pairing.Store.{resolve}
use lanclip.Pairing.Changes.{approve, reject}
use lanclip.Control
use lanclip.Control.{Request, Response, Codec, CallIo, serve, received, call}
use lanclip.Daemon.Conns.{safe_error}
use lanclip.Daemon.Control.{
  Fixed, Service, Turn, Failure, Payload, unknown_command, result, pair, pair_result, fail,
  unpair_peer, handle_control, close_conn,
}

-- encoding/json reads back this request and this response.
pub record ReadsBack (j : Codec Payload) (r : Request) (a : Response Payload) : Type 0 where
  pub request : j.decode_request (j.encode_request r) ≡ ok r
  pub bytes : Text
  pub encodes : j.encode_response a ≡ some bytes
  pub decodes : j.decode_response bytes ≡ some a

-- A response that says either that all went well, or what went wrong.
abbrev IsAnswer : Response Payload → Type 0
IsAnswer r = (not r.okay && text_eq r.error []) ≡ false

safe_error-nonempty : (e : Text) → text_eq e [] ≡ false → text_eq (safe_error e) [] ≡ false
unfolding safe_error text_eq
safe_error-nonempty [] h = h
safe_error-nonempty (c ∷ e) h = elim (Bool-cases (ltb 300 (suc (length e)))) [
  | inl x ↦ rw x refl
  | inr x ↦ rw x refl
]

module _ (f : Fixed) (h : (e : Failure) → text_eq (f.say e) [] ≡ false) where
  fail-IsAnswer : (e : Failure) → IsAnswer (fail f e)
  unfolding fail
  fail-IsAnswer e = safe_error-nonempty (f.say e) (h e)

  result-IsAnswer : (d : Service) (r : Store × Result Error (Unit {0})) → IsAnswer (result f d r).1
  result-IsAnswer d (s, ok x) = refl
  result-IsAnswer d (s, err e) = fail-IsAnswer _

  pair_result-IsAnswer : (r : Service × Result Failure Peer) → IsAnswer (pair_result f r).1
  pair_result-IsAnswer (d, ok x) = refl
  pair_result-IsAnswer (d, err e) = fail-IsAnswer _

  unpair_peer-IsAnswer :
      (t : Turn f.net) (query : Text) (d : Service) → IsAnswer (unpair_peer f t query d).1
  unfolding unpair_peer
  unpair_peer-IsAnswer t query d =
      elim (Result-cases (resolve f.unicode t.call query (trusted ∷ []) d.store).1) [
        | inr (e, x) ↦ rw (x, unpair_peer) (fail-IsAnswer _)
        | inl ((id, p), x) ↦
            rw (x, unpair_peer)
              (result-IsAnswer
                (record d { registry = close_conn (lookup id d.registry.conns) d.registry }) _)
      ]

  handle_control-IsAnswer :
      (t : Turn f.net) (d : Service) (r : Request) → IsAnswer (handle_control f t d r).1
  unfolding handle_control
  handle_control-IsAnswer t d r =
      let paired = pair_result-IsAnswer (pair f t r.argument d) in
      let approved =
        result-IsAnswer d
          (approve f.unicode f.json t.call r.argument r.pair_token r.fingerprint r.code d.store) in
      let rejected = result-IsAnswer d (reject f.unicode f.json t.call r.argument d.store) in
      let unpaired = unpair_peer-IsAnswer t r.argument d in
      let unknown = fail-IsAnswer (unknown_command r.command) in
      ground (arith, paired, approved, rejected, unpaired, unknown)

  received-ok :
      (j : Codec Payload) (q : Request) (r : Response Payload) (rb : ReadsBack j q r)
      → IsAnswer r
      → received j (j.encode_response r) ≡ ok r
  unfolding received
  received-ok j q r rb a = rw (rb.encodes, received, rb.decodes, a) refl

  -- A command over the socket: if the request goes out and the response arrives, the command line gets
  -- just what the service answered, and never takes it for an invalid response; if the request does not
  -- go out, nothing has happened and the call fails; and if only the response is lost, the call fails
  -- though the command was carried out. The request and the response read back, and no error has an empty message.
  pub call_answers :
      (j : Codec Payload) (io : CallIo) (t : Turn f.net) (d : Service) (r : Request)
      → ReadsBack j r (handle_control f t d r).1
      → let out = handle_control f t d r in
        let c = call j io (serve j (handle_control f t)) d r in
        (((io.dial && io.send && io.receive) ≡ true) × (c ≡ (out.0, ok out.1)))
        ⊎ ((((io.dial && io.send) ≡ false) × (c.0 ≡ d) × (is_ok c.1 ≡ false))
            ⊎ (((io.dial && io.send && not io.receive) ≡ true)
                × (c ≡ (out.0, err Control.no_response))))
  unfolding call serve
  call_answers j io t d r rb =
      let back = received-ok j r (handle_control f t d r).1 rb (handle_control-IsAnswer t d r) in
      elim (Bool-cases io.dial) [
        | inr x ↦ inr (inl (ground (arith, x), rw x refl, rw x refl))
        | inl x ↦ elim (Bool-cases io.send) [
          | inr y ↦ inr (inl (ground (arith, x, y), rw (x, y) refl, rw (x, y) refl))
          | inl y ↦ elim (Bool-cases io.receive) [
            | inl z ↦ inl (ground (arith, x, y, z), rw (x, y, z, serve, rb.request, back) refl)
            | inr z ↦ inr (inr (ground (arith, x, y, z), rw (x, y, z, serve, rb.request) refl))
          ]
        ]
      ]
