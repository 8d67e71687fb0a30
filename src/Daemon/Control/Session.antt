-- ===== src/Daemon/Control/Session.antt =====
-- cmd/lanclip/cli.go with internal/daemon/daemon.go: what the calls of a run of the command line do to the service.
use mathlib.Core.Path.{subst}
use lanclip.Base.{
  ℕ, ◌≡◌, ◌≢◌, refl, sym, ◌⊎◌, inl, inr, Bool, true, false, ◌&&◌, Option, some, List, [], ◌∷◌, Text,
  codes, text_eq, text_eq_iff, any, all, arith, Bool-cases, Result, ok,
}
use lanclip.Base.Unicode.{Unicode}
use lanclip.Protocol.Utf8.{utf8_valid}
use lanclip.Pairing.Runs.{approve_of}
use lanclip.Pairing.Changes.Trust.{TrustedAs, Approval}
use lanclip.Pairing.Valid.{IsValid}
use lanclip.Control
use lanclip.Control.{Request, Response, Codec, CallIo, call, serve}
use lanclip.Daemon.Status.{PeerStatus}
use lanclip.Daemon.Control.{Fixed, Service, Turn, Payload, handle_control}
use lanclip.Daemon.Control.Quiet.{ran-IsValid}
use lanclip.Daemon.Control.Trust.{handle_control-Ran, commands_need-Approval}
use lanclip.Cli.{Read, request_of, interact, sends}
use lanclip.Cli.Consent.{agrees}
use lanclip.Cli.Report.{decode_peers}
use lanclip.Cli.Dispatch.{is_report, action, control_task, request_result}
use lanclip.Cli.Session.{Decoder, bare}

-- Valid UTF-8 throughout, as encoding/json needs it to read a request back.
abbrev pub is_utf8 : Request → Bool
is_utf8 r =
    utf8_valid r.command
    && utf8_valid r.argument
    && utf8_valid r.pair_token
    && utf8_valid r.fingerprint
    && utf8_valid r.code

abbrev pub is_utf8_peer : PeerStatus → Bool
is_utf8_peer p =
    utf8_valid p.peer.id
    && utf8_valid p.peer.approval_token
    && utf8_valid p.peer.fingerprint
    && utf8_valid p.peer.comparison_code

-- What encoding/json does: a request of valid UTF-8 reads back, and what it reads is valid UTF-8.
pub record JsonLaws (j : Codec Payload) (decoder : Decoder Payload) : Type 0 where
  pub reads_back : (r : Request) → is_utf8 r ≡ true → j.decode_request (j.encode_request r) ≡ ok r
  pub reads_utf8 :
      (x : Option Payload) (ps : List PeerStatus)
      → decoder.peers x ≡ some ps
      → all is_utf8_peer ps ≡ true

pub report_is_utf8 : (c : Text) → is_report c ≡ true → is_utf8 (bare c) ≡ true
unfolding is_report utf8_valid
report_is_utf8 c h = elim (Bool-cases (text_eq c (codes "status"))) [
  | inl x ↦ subst (λ w. is_utf8 (bare w) ≡ true) (sym ((text_eq_iff c (codes "status")).0 x)) refl
  | inr x ↦ elim (Bool-cases (text_eq c (codes "peers"))) [
    | inl y ↦ subst (λ w. is_utf8 (bare w) ≡ true) (sym ((text_eq_iff c (codes "peers")).0 y)) refl
    | inr y ↦ elim (Bool-cases (text_eq c (codes "doctor"))) [
      | inl z ↦
          subst (λ w. is_utf8 (bare w) ≡ true) (sym ((text_eq_iff c (codes "doctor")).0 z)) refl
      | inr z ↦ absurd (ground (arith, h, x, y, z))
    ]
  ]
]

pub report_approves_nothing : (c : Text) → is_report c ≡ true → c ≢ codes "approve"
unfolding is_report
report_approves_nothing c h e = absurd (cc (h, subst (λ w. is_report w ≡ false) (sym e) refl))

pub decoded_is_utf8 :
    (u : Unicode) (ps : List PeerStatus)
    → all is_utf8_peer ps ≡ true
    → all is_utf8_peer (decode_peers u ps) ≡ true
unfolding all decode_peers
decoded_is_utf8 u [] h = refl
decoded_is_utf8 u (p ∷ ps) h = ground (arith, h, decoded_is_utf8 u ps)

empty_is_utf8 : utf8_valid [] ≡ true
unfolding utf8_valid
empty_is_utf8 = refl

pub request_is_utf8 :
    (command : Text) (p : PeerStatus)
    → utf8_valid command ≡ true
    → is_utf8_peer p ≡ true
    → is_utf8 (request_of command p) ≡ true
unfolding request_of
request_is_utf8 command p h g = elim (Bool-cases (text_eq command (codes "approve"))) [
  | inl x ↦ rw (x, request_of) (ground (arith, h, g))
  | inr x ↦ rw (x, request_of) (ground (arith, h, g, empty_is_utf8))
]

pub request_names : (command : Text) (p : PeerStatus) → (request_of command p).command ≡ command
unfolding request_of
request_names command p = ground arith

-- The user approved: the word of the command; a line of the input that said yes; the request that the menu
-- and the questions gave, from the list that the service had answered with; and its arguments, which
-- are those of a request that is pending in the service then. `answer` is what `peers` brought.
pub record Consent (f : Fixed) (t : Turn f.net) (decoder : Decoder Payload) (atoi : Text → Option ℕ)
    (command : Text) (args : List Text) (typed : List Read)
    (answer : Service × Result Control.Error (Response Payload)) (id fp : Text) : Type 0 where
  pub says_approve : command ≡ codes "approve"
  pub said_yes : any (agrees f.unicode) typed ≡ true
  pub device : Option Text
  pub named : control_task command args ≡ action command device
  pub response : Response Payload
  pub answered : request_result answer.1 ≡ ok response
  pub listed : List PeerStatus
  pub decoded : decoder.peers response.payload ≡ some listed
  pub request : Request
  pub sent :
      interact f.unicode atoi command device typed (decode_peers f.unicode listed) ≡ sends request
  pub approval :
      Approval answer.0.store t.call
        (approve_of request.argument request.pair_token request.fingerprint request.code)
        id
        fp

module _ (f : Fixed) (j : Codec Payload) where
  abbrev pub over :
      CallIo → Turn f.net → Service → Request → Service × Result Control.Error (Response Payload)
  over io t = call j io (serve j (handle_control f t))

  -- A call either does not reach the service, or is answered by it.
  call-service :
      (io : CallIo) (t : Turn f.net) (d : Service) (r : Request)
      → j.decode_request (j.encode_request r) ≡ ok r
      → ((over io t d r).0 ≡ d) ⊎ ((over io t d r).0 ≡ (handle_control f t d r).0)
  unfolding call serve
  call-service io t d r e = elim (Bool-cases io.dial) [
    | inr x ↦ inl (rw x refl)
    | inl x ↦ elim (Bool-cases io.send) [
      | inr y ↦ inl (rw (x, y) refl)
      | inl y ↦ elim (Bool-cases io.receive) [
        | inl z ↦ inr (rw (x, y, z, serve, e) refl)
        | inr z ↦ inr (rw (x, y, z, serve, e) refl)
      ]
    ]
  ]

  pub call-IsValid :
      (io : CallIo) (t : Turn f.net) (d : Service) (r : Request)
      → j.decode_request (j.encode_request r) ≡ ok r
      → IsValid d.store
      → IsValid (over io t d r).0.store
  call-IsValid io t d r e v = elim (call-service io t d r e) [
    | inl same ↦ subst (λ s. IsValid s.store) (sym same) v
    | inr done ↦
        subst (λ s. IsValid s.store) (sym done)
          (ran-IsValid f d.store _ _ (handle_control-Ran f t d r) v)
  ]

  pub call-TrustedAs :
      (io : CallIo) (t : Turn f.net) (d : Service) (r : Request) (id fp : Text)
      → j.decode_request (j.encode_request r) ≡ ok r
      → IsValid d.store
      → TrustedAs (over io t d r).0.store.peers id fp
      → TrustedAs d.store.peers id fp
        ⊎ ((r.command ≡ codes "approve")
            × Approval d.store t.call
                (approve_of r.argument r.pair_token r.fingerprint r.code)
                id
                fp)
  call-TrustedAs io t d r id fp e v w = elim (call-service io t d r e) [
    | inl same ↦ inl (subst (λ s. TrustedAs s.store.peers id fp) same w)
    | inr done ↦
        commands_need-Approval f t d r id fp v (subst (λ s. TrustedAs s.store.peers id fp) done w)
  ]
