-- ===== src/Daemon/Control/Consent.antt =====
-- cmd/lanclip/cli.go with internal/daemon/daemon.go: a whole run of the command line against the service.
use mathlib.Core.Path.{subst}
use lanclip.Base.{
  ℕ, ◌≡◌, refl, sym, ap, ◌∙◌, ◌⊎◌, inl, inr, Bool, true, not, ◌||◌, Option, List, Text, codes,
  Result, ok, some, text_eq, text_eq_iff, arith, Bool-cases, Option-cases, Result-cases,
}
use lanclip.Protocol.Utf8.{utf8_valid}
use lanclip.Pairing.Changes.Trust.{TrustedAs}
use lanclip.Pairing.Valid.{IsValid}
use lanclip.Control
use lanclip.Control.{Codec, CallIo, Response}
use lanclip.Daemon.Status.{PeerStatus}
use lanclip.Daemon.Control.{Fixed, Service, Turn, Payload}
use lanclip.Cli.{Read, Outcome, fails, cancelled, sends, interact, asks}
use lanclip.Cli.Consent.{interact-Agreed}
use lanclip.Cli.Report.{decode_peers}
use lanclip.Cli.Dispatch.{
  Task, report, action, help, usage_error, version, invalid_callback, daemon, clipboard_event,
  control_task, is_report, is_action, control_task-report, control_task-action, request_result,
}
use lanclip.Cli.Session.{Decoder, bare, sent_on, run_action, run_task, run_control}
use lanclip.Daemon.Control.Session.{
  is_utf8, is_utf8_peer, JsonLaws, Consent, over, call-IsValid, call-TrustedAs, report_is_utf8,
  report_approves_nothing, decoded_is_utf8, request_is_utf8, request_names,
}

action_is_utf8 : (c : Text) → is_action c ≡ true → utf8_valid c ≡ true
unfolding is_action utf8_valid
action_is_utf8 c h = elim (Bool-cases (text_eq c (codes "pair"))) [
  | inl x ↦ subst (λ w. utf8_valid w ≡ true) (sym ((text_eq_iff c (codes "pair")).0 x)) refl
  | inr x ↦ elim (Bool-cases (text_eq c (codes "approve"))) [
    | inl y ↦ subst (λ w. utf8_valid w ≡ true) (sym ((text_eq_iff c (codes "approve")).0 y)) refl
    | inr y ↦ elim (Bool-cases (text_eq c (codes "reject"))) [
      | inl z ↦ subst (λ w. utf8_valid w ≡ true) (sym ((text_eq_iff c (codes "reject")).0 z)) refl
      | inr z ↦ elim (Bool-cases (text_eq c (codes "unpair"))) [
        | inl k ↦ subst (λ w. utf8_valid w ≡ true) (sym ((text_eq_iff c (codes "unpair")).0 k)) refl
        | inr k ↦ absurd (ground (arith, h, x, y, z, k))
      ]
    ]
  ]
]

asks_approve : (c : Text) (b : Bool) → c ≡ codes "approve" → (not (asks c) || b) ≡ true → b ≡ true
unfolding text_eq
asks_approve c b e h = subst (λ w. (not (asks w) || b) ≡ true) e h

module _ (f : Fixed) (j : Codec Payload) (decoder : Decoder Payload) (atoi : Text → Option ℕ)
    (laws : JsonLaws j decoder) (io io' : CallIo) (t t' : Turn f.net) (command : Text)
    (args : List Text) (typed : List Read) (d : Service) (id fp : Text) (v : IsValid d.store) where
  abbrev Trusting : Service → Type 0
  Trusting s = TrustedAs s.store.peers id fp

  abbrev listing : Service × Result Control.Error (Response Payload)
  listing = over f j io t d (bare (codes "peers"))

  abbrev asked : Service
  asked = listing.0

  -- A report brings no trust.
  bare_keeps : (c : Text) → is_report c ≡ true → Trusting (over f j io t d (bare c)).0 → Trusting d
  bare_keeps c r w =
      elim (call-TrustedAs f j io t d (bare c) id fp (laws.reads_back _ (report_is_utf8 c r)) v w) [
        | inl old ↦ old
        | inr (named, a) ↦ absurd (report_approves_nothing c r named)
      ]

  peers_is_report : is_report (codes "peers") ≡ true
  unfolding is_report
  peers_is_report = refl

  sent_needs-Consent :
      (device : Option Text) (a : Response Payload) (ps : List PeerStatus)
      → control_task command args ≡ action command device
      → request_result listing.1 ≡ ok a
      → decoder.peers a.payload ≡ some ps
      → is_action command ≡ true
      → Trusting
          (sent_on f.unicode atoi decoder
            (over f j io' t')
            command
            asked
            (interact f.unicode atoi command device typed (decode_peers f.unicode ps))).0
      → Trusting asked ⊎ Consent f t' decoder atoi command args typed listing id fp
  sent_needs-Consent device a ps named e found word w = go _ refl w
    where
      go :
          (o : Outcome)
          → interact f.unicode atoi command device typed (decode_peers f.unicode ps) ≡ o
          → Trusting (sent_on f.unicode atoi decoder (over f j io' t') command asked o).0
          → Trusting asked ⊎ Consent f t' decoder atoi command args typed listing id fp
      go (fails e) x w = inl w
      go cancelled x w = inl w
      go (sends req) x w =
          let well = decoded_is_utf8 f.unicode ps (laws.reads_utf8 a.payload ps found) in
          let g =
            interact-Agreed f.unicode is_utf8_peer command atoi device typed
              (decode_peers f.unicode ps) req well x in
          let good =
            subst (λ r. is_utf8 r ≡ true) (sym g.built)
              (request_is_utf8 command g.device (action_is_utf8 command word) g.listed) in
          let before =
            call-IsValid f j io t d (bare (codes "peers"))
              (laws.reads_back _ (report_is_utf8 (codes "peers") peers_is_report)) v in
          elim (call-TrustedAs f j io' t' asked req id fp (laws.reads_back req good) before w) [
            | inl old ↦ inl old
            | inr (approves, b) ↦
                let is_approve =
                  sym (request_names command g.device)
                  ∙ ap (λ r. r.command) (sym g.built)
                  ∙ approves in
                inr (record {
                  says_approve = is_approve;
                  said_yes = asks_approve command _ is_approve g.agreed;
                  device = device;
                  named = named;
                  response = a;
                  answered = e;
                  listed = ps;
                  decoded = found;
                  request = req;
                  sent = x;
                  approval = b;
                })
          ]

  run_action_needs-Consent :
      (device : Option Text)
      → control_task command args ≡ action command device
      → is_action command ≡ true
      → Trusting
          (run_action f.unicode atoi decoder
            (over f j io t)
            (over f j io' t')
            command
            device
            typed
            d).0
      → Trusting d ⊎ Consent f t' decoder atoi command args typed listing id fp
  unfolding run_action
  run_action_needs-Consent device named word w =
      let r = over f j io t d (bare (codes "peers")) in
      let back = bare_keeps (codes "peers") peers_is_report in
      elim (Result-cases (request_result r.1)) [
        | inr (e, x) ↦ inl (back (rw (x, run_action) at w))
        | inl (a, x) ↦ elim (Option-cases (decoder.peers a.payload)) [
          | inl y ↦ inl (back (rw (x, y, run_action) at w))
          | inr (ps, y) ↦
              elim (sent_needs-Consent device a ps named x y word (rw (x, y, run_action) at w)) [
                | inl old ↦ inl (back old)
                | inr c ↦ inr c
              ]
        ]
      ]

  -- No run of the command line lets a peer be trusted without consent: after a run with any arguments and any
  -- input, on a valid store, a peer is trusted with a fingerprint only if it was before, or the command is
  -- "approve", a line of the input said yes, and the request that the menu and the questions gave, from
  -- the list that the service answered with, has the token, this fingerprint and the code of a request
  -- that was pending in the service, under the peer's ID and not expired. The calls may fail anywhere, and the service answers them at different times; requests of
  -- valid UTF-8 read back, and what is read is valid UTF-8.
  pub run_control_needs-Consent :
      Trusting
        (run_control f.unicode atoi decoder
          (over f j io t)
          (over f j io' t')
          command
          args
          typed
          d).0
      → Trusting d ⊎ Consent f t' decoder atoi command args typed listing id fp
  unfolding run_control run_task
  run_control_needs-Consent w = go (control_task command args) refl w
    where
      go :
          (k : Task)
          → control_task command args ≡ k
          → Trusting (run_task f.unicode atoi decoder (over f j io t) (over f j io' t') k typed d).0
          → Trusting d ⊎ Consent f t' decoder atoi command args typed listing id fp
      go (report c) x w = inl (bare_keeps c (control_task-report command args c x) w)
      go (action c device) x w =
          let (same, word) = control_task-action command args c device x in
          run_action_needs-Consent device (x ∙ ap (λ c. action c device) (sym same)) word (
            subst
              (λ c.
                Trusting
                  (run_action f.unicode atoi decoder (over f j io t) (over f j io' t') c device
                    typed d).0)
              (sym same) w)
      go help x w = inl w
      go usage_error x w = inl w
      go version x w = inl w
      go invalid_callback x w = inl w
      go daemon x w = inl w
      go (clipboard_event path) x w = inl w
