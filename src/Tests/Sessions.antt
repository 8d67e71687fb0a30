-- ===== src/Tests/Sessions.antt =====
-- cmd/lanclip/cli.go: a run of "approve" against the service.
use mathlib.Core.Path.{subst}
use lanclip.Base.{
  ◌≡◌, refl, ◌⊎◌, ap, ◌∙◌, true, Option, none, some, List, [], ◌∷◌, ◌++◌, Text, codes, ok, err,
  Result, length, take, drop, take-append, drop-append, all,
}
use lanclip.Base.Dict.{lookup}
use lanclip.Protocol.Utf8.{utf8_valid}
use lanclip.Pairing.Changes.Trust.{TrustedAs}
use lanclip.Control.{Request, Codec, CallIo}
use lanclip.Daemon.Control.{Payload, Service}
use lanclip.Cli.Session.{Decoder, bare, run_control}
use lanclip.Daemon.Control.Session.{is_utf8_peer, JsonLaws, Consent, over}
use lanclip.Daemon.Control.Consent.{run_control_needs-Consent}
use lanclip.Tests.Samples.{ascii, bob_id, pin, friend, store}
use lanclip.Tests.Stores.{store-IsValid}
use lanclip.Tests.Commands.{waiting, only_one, typed}
use lanclip.Tests.Services.{fixed, turn, service}

-- A codec that writes the length before each of the five fields.
abbrev put : Text → Text → Text
put s rest = length s ∷ (s ++ rest)

abbrev got : Text → Text × Text
got [] = ([], [])
got (n ∷ rest) = (take n rest, drop n rest)

abbrev write_request : Request → Text
write_request r =
    put r.command (put r.argument (put r.pair_token (put r.fingerprint (put r.code []))))

abbrev read_request : Text → Result Text Request
read_request b =
    let (command, more) = got b in
    let (argument, more) = got more in
    let (token, more) = got more in
    let (fp, more) = got more in
    let (code, more) = got more in
    ok (record {
      command = command;
      argument = argument;
      pair_token = token;
      fingerprint = fp;
      code = code;
    })

read_request-write_request : (r : Request) → read_request (write_request r) ≡ ok r
read_request-write_request r = simp (take-append, drop-append)

abbrev json : Codec Payload
json = record {
  encode_request = write_request;
  decode_request = read_request;
  encode_response = λ r. some (codes "response");
  decode_response = λ b. some (record { okay = true; error = []; payload = none });
}

abbrev decoder : Decoder Payload
decoder = record {
  status = λ x. none;
  peers = λ x. some (waiting ∷ []);
  checks = λ x. none;
  peer = λ x. none;
}

bob_is_utf8 : all is_utf8_peer (waiting ∷ []) ≡ true
unfolding all utf8_valid
bob_is_utf8 = refl

json_laws : JsonLaws json decoder
json_laws = record {
  reads_back = λ r h. read_request-write_request r;
  reads_utf8 = λ x ps e. subst (λ ps. all is_utf8_peer ps ≡ true) (cc e) bob_is_utf8;
}

abbrev well : CallIo
well = record { dial = true; send = true; receive = true }

abbrev after : Service
after =
    (run_control ascii only_one decoder (over fixed json well turn) (over fixed json well turn)
      (codes "approve") [] typed (service store)).0

trusts_bob_now : TrustedAs after.store.peers bob_id pin
unfolding lookup run_control lanclip.Cli.Dispatch.control_task lanclip.Cli.Dispatch.request_result
    lanclip.Control.call lanclip.Control.serve lanclip.Cli.interact lanclip.Base.retain
    lanclip.Base.Unicode.trim_space lanclip.Daemon.Control.handle_control
    lanclip.Pairing.Changes.approve lanclip.Pairing.Store.resolve_locked
    lanclip.Pairing.Store.prune_pending_locked lanclip.Base.Dict.keep_values
    lanclip.Pairing.Store.list lanclip.Pairing.Store.allowed lanclip.Pairing.Disk.save_locked
    lanclip.Base.Dict.insert lanclip.Cli.Report.decode_peers
trusts_bob_now = record {
  peer = record friend { updated_at = 201 };
  found = refl;
  is_trusted = refl;
  pinned = refl;
}

run_control_needs-Consent_example :
    TrustedAs store.peers bob_id pin
    ⊎ Consent fixed turn decoder only_one
        (codes "approve")
        []
        typed
        (over fixed json well turn (service store) (bare (codes "peers")))
        bob_id
        pin
run_control_needs-Consent_example =
    run_control_needs-Consent fixed json decoder only_one json_laws well well turn turn
      (codes "approve") [] typed (service store) bob_id pin store-IsValid trusts_bob_now
