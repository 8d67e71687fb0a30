-- ===== src/Cli.antt =====
-- cmd/lanclip/cli.go: how a command that concerns one device picks it, asks for consent and becomes a
-- request to the service. What is printed is left out.
pub mod Consent
pub mod Report
pub mod Dispatch
pub mod Session
use lanclip.Base.{
  ℕ, ◌-◌, Bool, true, false, not, ◌&&◌, ◌||◌, Option, none, some, List, [], ◌∷◌, Text, codes,
  text_eq, text_lt, has_prefix, leb, if◌then◌else◌, length, get_elem?, retain, Result, ok, err,
}
use lanclip.Base.Unicode.{Unicode, trim_space}
use lanclip.Base.Sorting.{sort_by}
use lanclip.Pairing.Types.{state_eq, pending, trusted, rejected}
use lanclip.Control.{Request}
use lanclip.Daemon.Status.{PeerStatus, unpaired}

-- The switch of eligiblePeers.
unfoldable pub is_eligible : Text → PeerStatus → Bool
unfolding state_eq
is_eligible command p =
    if text_eq command (codes "pair")
    then (state_eq p.peer.state unpaired || state_eq p.peer.state rejected)
      && not (leb (length p.addresses) 0)
    else if text_eq command (codes "approve") || text_eq command (codes "reject")
    then state_eq p.peer.state pending
    else if text_eq command (codes "unpair")
    then state_eq p.peer.state trusted
    else false

-- sort.Slice by the lower-case name.
abbrev pub has_lower_name : Unicode → PeerStatus → PeerStatus → Bool
has_lower_name u p q = text_lt (u.to_lower p.peer.name) (u.to_lower q.peer.name)

unfoldable pub eligible_peers : Unicode → Text → List PeerStatus → List PeerStatus
unfolding is_eligible sort_by
eligible_peers u command peers = sort_by (has_lower_name u) (retain (is_eligible command) peers)

abbrev pub is_named : Unicode → Text → PeerStatus → Bool
is_named u query p = u.equal_fold p.peer.name query || has_prefix p.peer.id query

abbrev pub the_one : List PeerStatus → Option PeerStatus
the_one (p ∷ []) = some p
the_one _ = none

unfoldable pub find_peer : Unicode → List PeerStatus → Text → Option PeerStatus
find_peer u peers query = the_one (retain (is_named u (trim_space u query)) peers)

-- What input.ReadString answers: a line, the last line together with the end of the input, or an error.
-- After the list of answers the input is at its end.
pub data Read : Type 0 where
  line last : Text → Read
  broken : Read

pub data Error : Type 0 where
  none_available read_failed no_selection no_confirmation not_available : Error

-- The number typed, if strconv.Atoi takes it and it is not negative, is `atoi` of the line.
abbrev pub picked : (Text → Option ℕ) → List PeerStatus → Text → Option PeerStatus
picked atoi [] s = none
picked atoi (p ∷ ps) s = if text_eq s [] && leb (length ps) 0 then some p else elim (atoi s) [
  | none ↦ none
  | some n ↦ if leb 1 n then get_elem? (p ∷ ps) (n - 1) else none
]

-- The loop of choosePeer, with the answers that are left.
unfoldable pub choose_loop :
    Unicode → (Text → Option ℕ) → List PeerStatus → List Read → List Read × Result Error PeerStatus
choose_loop u atoi ps [] = elim (picked atoi ps []) [
  | some p ↦ ([], ok p)
  | none ↦ ([], err no_selection)
]
choose_loop u atoi ps (broken ∷ rs) = (rs, err read_failed)
choose_loop u atoi ps (last s ∷ rs) = elim (picked atoi ps (trim_space u s)) [
  | some p ↦ (rs, ok p)
  | none ↦ (rs, err no_selection)
]
choose_loop u atoi ps (line s ∷ rs) =
    let again = choose_loop u atoi ps rs in
    elim (picked atoi ps (trim_space u s)) [ some p ↦ (rs, ok p) | none ↦ again ]

unfoldable pub choose_peer :
    Unicode → (Text → Option ℕ) → List PeerStatus → List Read → List Read × Result Error PeerStatus
unfolding choose_loop
choose_peer u atoi [] rs = (rs, err none_available)
choose_peer u atoi (p ∷ ps) rs = choose_loop u atoi (p ∷ ps) rs

-- The answer to a question, if the line is one.
abbrev pub answer_of : Bool → Text → Option Bool
answer_of default s =
    if text_eq s []
    then some default
    else if text_eq s (codes "y") || text_eq s (codes "yes")
    then some true
    else if text_eq s (codes "n") || text_eq s (codes "no")
    then some false
    else none

unfoldable pub confirm : Unicode → Bool → List Read → List Read × Result Error Bool
confirm u default [] = ([], ok default)
confirm u default (broken ∷ rs) = (rs, err read_failed)
confirm u default (last s ∷ rs) = elim (answer_of default (u.to_lower (trim_space u s))) [
  | some b ↦ (rs, ok b)
  | none ↦ (rs, err no_confirmation)
]
confirm u default (line s ∷ rs) =
    let again = confirm u default rs in
    elim (answer_of default (u.to_lower (trim_space u s))) [ some b ↦ (rs, ok b) | none ↦ again ]

pub data Outcome : Type 0 where
  fails : Error → Outcome
  cancelled : Outcome
  sends : Request → Outcome

unfoldable pub request_of : Text → PeerStatus → Request
request_of command p =
    if text_eq command (codes "approve")
    then record {
      command = command;
      argument = p.peer.id;
      pair_token = p.peer.approval_token;
      fingerprint = p.peer.fingerprint;
      code = p.peer.comparison_code;
    }
    else record {
      command = command;
      argument = p.peer.id;
      pair_token = [];
      fingerprint = [];
      code = [];
    }

-- approve, reject and unpair ask first.
abbrev pub asks : Text → Bool
asks command =
    text_eq command (codes "approve")
    || (text_eq command (codes "reject") || text_eq command (codes "unpair"))

abbrev pub consented : Text → PeerStatus → Result Error Bool → Outcome
consented command p (ok true) = sends (request_of command p)
consented command p (ok false) = cancelled
consented command p (err e) = fails e

unfoldable pub ask_then_send : Unicode → Text → PeerStatus → List Read → Outcome
unfolding confirm request_of
ask_then_send u command p rs =
    if asks command
    then (let (rs', r) = confirm u false rs in consented command p r)
    else sends (request_of command p)

-- From the answer to "peers" to the request: `argument` is the device's name, if one was given.
unfoldable pub interact :
    Unicode → (Text → Option ℕ) → Text → Option Text → List Read → List PeerStatus → Outcome
unfolding eligible_peers find_peer choose_peer ask_then_send
interact u atoi command argument rs peers =
    let candidates = eligible_peers u command peers in
    elim argument [
      | some query ↦ elim (find_peer u candidates query) [
        | none ↦ fails not_available
        | some p ↦ ask_then_send u command p rs
      ]
      | none ↦
          let (rs', r) = choose_peer u atoi candidates rs in
          elim r [ err e ↦ fails e | ok p ↦ ask_then_send u command p rs' ]
    ]
