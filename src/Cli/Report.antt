-- ===== src/Cli/Report.antt =====
-- cmd/lanclip/cli.go: `decodePeers`, and what `peers` and `doctor` print. The strconv.Quote of a name is a
-- parameter.
pub mod Status
use lanclip.Base.{
  ℕ, ◌≡◌, refl, ◌+◌, ◌≤◌, Bool, true, not, ◌==◌, List, [], ◌∷◌, ◌++◌, map, Text, codes, text_eq,
  if◌then◌else◌, length, retain, all, arith, ◌↔◌,
}
use lanclip.Base.Decimal.{decimal}
use lanclip.Base.Unicode.{Unicode}
use lanclip.Pairing.Name.{normalize_device_name}
use lanclip.Pairing.Types.{state_eq, pending, trusted, rejected, other}
use lanclip.Daemon.Status.{PeerStatus, DoctorCheck, ternary}

unfoldable pub safe_device_name : Unicode → Text → Text
safe_device_name u name =
    let clean = normalize_device_name u name in
    if text_eq clean [] then codes "Unknown device" else clean

-- The loop of decodePeers over the peers that encoding/json has read.
abbrev pub with_safe_name : Unicode → PeerStatus → PeerStatus
with_safe_name u p = record p { peer = record p.peer { name = safe_device_name u p.peer.name } }

unfoldable pub decode_peers : Unicode → List PeerStatus → List PeerStatus
unfolding safe_device_name
decode_peers u ps = map (with_safe_name u) ps

-- Groups of four characters, with a space between two of them.
unfoldable pub grouped_fingerprint : Text → Text
grouped_fingerprint (a ∷ b ∷ c ∷ d ∷ e ∷ rest) =
    a ∷ b ∷ c ∷ d ∷ b' ' ∷ grouped_fingerprint (e ∷ rest)
grouped_fingerprint s = s

unfoldable pub human_peer_state : PeerStatus → Text
human_peer_state p = elim p.peer.state [
  | trusted ↦
      if p.stats.connected then codes "paired and connected" else codes "paired, currently offline"
  | pending ↦ codes "waiting for approval"
  | rejected ↦ codes "rejected"
  | other s ↦ codes "available to pair"
]

abbrev newline : Text
newline = b'\n' ∷ []

abbrev first_address : List Text → Text
first_address [] = []
first_address (a ∷ more) = codes "    Address:     " ++ a ++ newline

-- The lines of printPeers below a peer's name.
unfoldable pub peer_details : (Text → Text) → PeerStatus → Text
unfolding grouped_fingerprint state_eq
peer_details quote p =
    if state_eq p.peer.state pending
    then codes "    Code:        "
      ++ p.peer.comparison_code
      ++ newline
      ++ codes "    Fingerprint: "
      ++ grouped_fingerprint p.peer.fingerprint
      ++ newline
      ++ codes "    Next:        lanclip approve "
      ++ quote p.peer.name
      ++ newline
    else if not (text_eq p.stats.address [])
    then codes "    Address:     " ++ p.stats.address ++ newline
    else first_address p.addresses

unfoldable pub peer_lines : Unicode → (Text → Text) → List PeerStatus → Text
unfolding peer_details human_peer_state safe_device_name
peer_lines u quote [] = []
peer_lines u quote (p ∷ ps) =
    codes "  "
    ++ safe_device_name u p.peer.name
    ++ codes " — "
    ++ human_peer_state p
    ++ newline
    ++ peer_details quote p
    ++ peer_lines u quote ps

unfoldable pub print_peers : Unicode → (Text → Text) → List PeerStatus → Text
unfolding peer_lines
print_peers u quote [] =
    codes "Devices:\n  No devices found. Make sure Lanclip is running on the other device.\n"
print_peers u quote (p ∷ ps) = codes "Devices:\n" ++ peer_lines u quote (p ∷ ps)

-- printPairingIdentity
unfoldable pub print_pairing_identity : PeerStatus → Text
unfolding grouped_fingerprint
print_pairing_identity p =
    codes "Compare these on both devices:\n  Code:        "
    ++ p.peer.comparison_code
    ++ codes "\n  Fingerprint: "
    ++ grouped_fingerprint p.peer.fingerprint
    ++ codes "\n\n"

abbrev detail_text : Text → Text
detail_text s = if text_eq s [] then [] else codes " — " ++ s

unfoldable pub check_lines : List DoctorCheck → Text
check_lines [] = []
check_lines (c ∷ cs) =
    codes "  "
    ++ ternary c.okay (codes "[ok]") (codes "[!!]")
    ++ codes " "
    ++ c.name
    ++ detail_text c.detail
    ++ newline
    ++ check_lines cs

-- `passed`
unfoldable pub passed : List DoctorCheck → ℕ
passed [] = 0
passed (c ∷ cs) = if c.okay then passed cs + 1 else passed cs

unfoldable pub doctor_summary : List DoctorCheck → Text
unfolding passed decimal
doctor_summary cs =
    if passed cs == length cs
    then codes "\nAll " ++ decimal (passed cs) ++ codes " checks passed.\n"
    else codes "\n"
      ++ decimal (passed cs)
      ++ codes " of "
      ++ decimal (length cs)
      ++ codes " checks passed; review the items marked [!!].\n"

unfoldable pub print_doctor : List DoctorCheck → Text
unfolding check_lines doctor_summary
print_doctor cs = codes "Lanclip doctor:\n" ++ check_lines cs ++ doctor_summary cs

abbrev is_solid : ℕ → Bool
is_solid c = not (c == 32)

-- Without its spaces, a grouped fingerprint is the fingerprint.
grouped_fingerprint_lem :
    (s : Text) → all is_solid s ≡ true → retain is_solid (grouped_fingerprint s) ≡ s
unfolding grouped_fingerprint retain all
grouped_fingerprint_lem [] h = refl
grouped_fingerprint_lem (a ∷ []) h = ground (arith, h)
grouped_fingerprint_lem (a ∷ b ∷ []) h = ground (arith, h)
grouped_fingerprint_lem (a ∷ b ∷ c ∷ []) h = ground (arith, h)
grouped_fingerprint_lem (a ∷ b ∷ c ∷ d ∷ []) h = ground (arith, h)
grouped_fingerprint_lem (a ∷ b ∷ c ∷ d ∷ e ∷ rest) h =
    ground (arith, h, grouped_fingerprint_lem (e ∷ rest))

passed-length-le : (cs : List DoctorCheck) → passed cs ≤ length cs
unfolding passed
passed-length-le [] = omega arith
passed-length-le (c ∷ cs) = ground (arith, passed-length-le cs)

-- All checks count as passed exactly if each one is.
passed-all : (cs : List DoctorCheck) → (passed cs ≡ length cs) ↔ (all (λ c. c.okay) cs ≡ true)
unfolding passed all
passed-all [] = (λ e. refl, λ e. refl)
passed-all (c ∷ cs) = ground (arith, passed-all cs, passed-length-le cs)
