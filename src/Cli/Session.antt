-- ===== src/Cli/Session.antt =====
-- cmd/lanclip/cli.go: `runControl`, with the calls of the service that it makes. A call takes the service's state;
-- the JSON in `Data` is read by parameters.
use lanclip.Base.{
  ℕ, Option, none, some, List, [], Text, codes, text_eq, if◌then◌else◌, Result, ok, err,
}
use lanclip.Base.Unicode.{Unicode}
use lanclip.Pairing.Types.{Peer}
use lanclip.Control
use lanclip.Control.{Request, Response}
use lanclip.Daemon.Status.{PeerStatus, Status, DoctorCheck}
use lanclip.Cli
use lanclip.Cli.{Read, Outcome, fails, cancelled, sends, interact}
use lanclip.Cli.Report.{safe_device_name, decode_peers}
use lanclip.Cli.Dispatch.{Task, report, action, control_task, RequestError, request_result}

-- `decode` at the four types.
pub record Decoder {ℓ} (D : Type ℓ) : Type ℓ where
  pub status : Option D → Option Status
  pub peers : Option D → Option (List PeerStatus)
  pub checks : Option D → Option (List DoctorCheck)
  pub peer : Option D → Option Peer

pub data Failure : Type 0 where
  usage unreadable : Failure
  of_request : RequestError Control.Error → Failure
  of_choice : Cli.Error → Failure

-- What the command shows at its end.
pub data Shown : Type 0 where
  shows_status : Status → Shown
  shows_peers : List PeerStatus → Shown
  shows_checks : List DoctorCheck → Shown
  shows_pairing : Peer → Shown
  shows_cancelled : Shown
  shows_done : Request → Shown

-- control.Request{Command: command}
abbrev pub bare : Text → Request
bare command = record {
  command = command;
  argument = [];
  pair_token = [];
  fingerprint = [];
  code = [];
}

abbrev pub or_unreadable {ℓ} : {A : Type ℓ} → (A → Shown) → Option A → Result Failure Shown
or_unreadable show none = err unreadable
or_unreadable show (some a) = ok (show a)

module _ {ℓ} {D : Type ℓ} (u : Unicode) (decoder : Decoder D) where
  -- The switch of the reports.
  unfoldable pub shown_report : Text → Option D → Result Failure Shown
  unfolding decode_peers
  shown_report command payload =
      if text_eq command (codes "status")
      then or_unreadable shows_status (decoder.status payload)
      else if text_eq command (codes "peers")
      then or_unreadable (λ ps. shows_peers (decode_peers u ps)) (decoder.peers payload)
      else or_unreadable shows_checks (decoder.checks payload)

  -- After the request for an action was answered.
  unfoldable pub shown_action : Text → Request → Option D → Result Failure Shown
  unfolding safe_device_name
  shown_action command req payload =
      if text_eq command (codes "pair")
      then or_unreadable (λ p. shows_pairing (record p { name = safe_device_name u p.name }))
          (decoder.peer payload)
      else ok (shows_done req)

module _ {ℓ κ} {D : Type ℓ} {S : Type κ} where
  abbrev pub answered :
      (Option D → Result Failure Shown)
      → S × Result Control.Error (Response D)
      → S × Result Failure Shown
  answered show (s, r) =
      (s, elim (request_result r) [ err e ↦ err (of_request e) | ok a ↦ show a.payload ])

module _ {ℓ κ} {D : Type ℓ} {S : Type κ} (u : Unicode) (atoi : Text → Option ℕ)
    (decoder : Decoder D) where
  -- After the menu and the questions: `call` sends the request.
  abbrev pub sent_on :
      (S → Request → S × Result Control.Error (Response D))
      → Text
      → S
      → Outcome
      → S × Result Failure Shown
  sent_on call command s (fails e) = (s, err (of_choice e))
  sent_on call command s cancelled = (s, ok shows_cancelled)
  sent_on call command s (sends req) = answered (shown_action u decoder command req) (call s req)

  module _ (first second : S → Request → S × Result Control.Error (Response D)) where
    -- An action: `peers` first, and then its own request.
    unfoldable pub run_action : Text → Option Text → List Read → S → S × Result Failure Shown
    unfolding shown_action
    run_action command device typed s =
        let (s', r) = first s (bare (codes "peers")) in
        elim (request_result r) [
          | err e ↦ (s', err (of_request e))
          | ok a ↦ elim (decoder.peers a.payload) [
            | none ↦ (s', err unreadable)
            | some ps ↦
                sent_on second command s' (interact u atoi command device typed (decode_peers u ps))
          ]
        ]

    unfoldable pub run_task : Task → List Read → S → S × Result Failure Shown
    unfolding shown_report run_action
    run_task (report command) typed s =
        answered (shown_report u decoder command) (first s (bare command))
    run_task (action command device) typed s = run_action command device typed s
    run_task _ typed s = (s, err usage)

    unfoldable pub run_control : Text → List Text → List Read → S → S × Result Failure Shown
    unfolding run_task
    run_control command args typed s = run_task (control_task command args) typed s
