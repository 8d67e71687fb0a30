-- ===== src/Cli/Report/Status.antt =====
-- cmd/lanclip/cli.go: `printStatus`, with `friendlyTime`, `plural` and the reads of the discovery's map.
use lanclip.Base.{
  ℕ, ◌/◌, ◌*◌, ◌≤◌, ◌<◌, Bool, not, ◌&&◌, ◌==◌, Option, none, some, List, [], ◌∷◌, ◌++◌, Text,
  codes, text_eq, ltb, if◌then◌else◌, retain, arith, Bool-cases, inl, inr,
}
use lanclip.Base.Dict.{Dict, lookup}
use lanclip.Base.Decimal.{decimal}
use lanclip.Base.Integers.{ℤ, pos, negsuc}
use lanclip.Base.Unicode.{Unicode}
use lanclip.Pairing.Types.{state_eq, trusted}
use lanclip.Clipboard.{Health}
use lanclip.Daemon.Status.{PeerStatus, Browsing, Status, ternary}
use lanclip.Cli.Report.{safe_device_name}

-- A value of the map that JSON was read into. A number is not negative here.
pub data Any : Type 0 where
  of_text : Text → Any
  of_number : ℕ → Any
  of_other : Any

abbrev as_text : Option Any → Text
as_text (some (of_text s)) = s
as_text _ = []

abbrev as_number : Option Any → ℕ
as_number (some (of_number n)) = n
as_number _ = 0

unfoldable pub map_string : Dict Any → Text → Text
map_string values key = as_text (lookup key values)

unfoldable pub map_number : Dict Any → Text → ℕ
map_number values key = as_number (lookup key values)

-- time.Since of a text that time.Parse reads, the local date of one, time.Format in RFC 3339, and the
-- map that the JSON of the discovery's state is read into.
pub record Clock : Type 0 where
  pub since : Text → Option ℤ
  pub local_date : Text → Text
  pub format : ℕ → Text
  pub as_map : Browsing → Dict Any

-- The cases of friendlyTime.
pub data Ago : Type 0 where
  just_now on_date : Ago
  seconds_ago minutes_ago hours_ago : ℕ → Ago

abbrev pub second : ℕ
second = 1_000_000_000

unfoldable pub ago : ℕ → Ago
ago d =
    if ltb d (10 * second)
    then just_now
    else if ltb d (60 * second)
    then seconds_ago (d / second)
    else if ltb d (3600 * second)
    then minutes_ago (d / (60 * second))
    else if ltb d (86400 * second)
    then hours_ago (d / (3600 * second))
    else on_date

-- `if d < 0 { d = 0 }`
abbrev pub not_negative : ℤ → ℕ
not_negative (pos n) = n
not_negative (negsuc n) = 0

abbrev pub say_ago : Text → Ago → Text
say_ago date just_now = codes "just now"
say_ago date on_date = date
say_ago date (seconds_ago n) = decimal n ++ codes " seconds ago"
say_ago date (minutes_ago n) = decimal n ++ codes " minutes ago"
say_ago date (hours_ago n) = decimal n ++ codes " hours ago"

unfoldable pub friendly_time : Clock → Text → Text
unfolding ago decimal
friendly_time c value = elim (c.since value) [
  | none ↦ value
  | some d ↦ say_ago (c.local_date value) (ago (not_negative d))
]

unfoldable pub plural : ℕ → Text → Text → Text
unfolding decimal
plural n singular many = decimal n ++ codes " " ++ (if n == 1 then singular else many)

unfoldable pub byte_count : ℕ → Text
unfolding plural
byte_count n = plural n (codes "byte") (codes "bytes")

abbrev line : Text → Text → Text
line label value = label ++ value ++ codes "\n"

abbrev unless_empty : Text → Text → Text
unless_empty s t = if text_eq s [] then [] else t

unfoldable pub clipboard_line : Clock → Health → Text
unfolding friendly_time
clipboard_line c h =
    codes "Clipboard:    "
    ++ ternary h.running (codes "ready") (codes "needs attention")
    ++ unless_empty h.last_error (codes " — " ++ h.last_error)
    ++ unless_empty h.last_event
        (codes " (last activity " ++ friendly_time c h.last_event ++ codes ")")
    ++ codes "\n"

unfoldable pub discovery_line : Clock → Dict Any → Text
unfolding friendly_time plural map_string map_number
discovery_line c values =
    let e = map_string values (codes "last_error") in
    let checked = map_string values (codes "last_browse") in
    codes "Discovery:    "
    ++ (if text_eq e [] then codes "healthy" else codes "needs attention — " ++ e)
    ++ codes " ("
    ++ plural (map_number values (codes "peers_seen")) (codes "device") (codes "devices")
    ++ codes " found"
    ++ unless_empty checked (codes ", checked " ++ friendly_time c checked)
    ++ codes ")\n"

abbrev address_line : Text → List Text → Text
address_line [] [] = []
address_line [] (a ∷ more) = line (codes "    Address:       ") a
address_line (b ∷ s) addresses = line (codes "    Address:       ") (b ∷ s)

-- The time and the size of the last text, if there was one.
abbrev traffic_line : Clock → Text → ℕ → ℕ → Text
traffic_line c label at bytes =
    if at == 0
    then []
    else line label (friendly_time c (c.format at) ++ codes " (" ++ byte_count bytes ++ codes ")")

unfoldable pub paired_lines : Unicode → Clock → PeerStatus → Text
unfolding safe_device_name friendly_time byte_count decimal
paired_lines u c p =
    codes "  "
    ++ safe_device_name u p.peer.name
    ++ codes " — "
    ++ ternary p.stats.connected (codes "connected\n") (codes "offline\n")
    ++ address_line p.stats.address p.addresses
    ++ traffic_line c (codes "    Last sent:     ") p.stats.last_sent p.stats.sent_bytes
    ++ traffic_line c (codes "    Last received: ") p.stats.last_received p.stats.received_bytes
    ++ line (codes "    Reconnects:    ") (decimal p.stats.reconnects)
    ++ (if not (text_eq p.stats.last_error []) && not p.stats.connected
        then line (codes "    Last error:    ") p.stats.last_error
        else [])

abbrev pub is_trusted : PeerStatus → Bool
is_trusted p = state_eq p.peer.state trusted

unfoldable pub all_paired_lines : Unicode → Clock → List PeerStatus → Text
unfolding paired_lines
all_paired_lines u c [] = []
all_paired_lines u c (p ∷ ps) = paired_lines u c p ++ all_paired_lines u c ps

abbrev paired_section : Unicode → Clock → List PeerStatus → Text
paired_section u c [] = codes "  None. Run 'lanclip pair' to add one.\n"
paired_section u c (p ∷ ps) = all_paired_lines u c (p ∷ ps)

unfoldable pub print_status : Unicode → Clock → Status → Text
unfolding clipboard_line discovery_line all_paired_lines safe_device_name
print_status u c s =
    codes "Lanclip "
    ++ s.version
    ++ codes "\n\n"
    ++ line (codes "This device:  ") (safe_device_name u s.name)
    ++ line (codes "Service:      running for ") s.uptime
    ++ clipboard_line c s.clipboard
    ++ discovery_line c (c.as_map s.discovery)
    ++ codes "\nPaired devices:\n"
    ++ paired_section u c (retain is_trusted s.peers)

-- The number that is shown fits its unit.
abbrev IsFit : ℕ → Ago → Type 0
IsFit d just_now = d < 10 * second
IsFit d (seconds_ago n) = (10 ≤ n) × (n < 60)
IsFit d (minutes_ago n) = (1 ≤ n) × (n < 60)
IsFit d (hours_ago n) = (1 ≤ n) × (n < 24)
IsFit d on_date = 86400 * second ≤ d

ago-IsFit : (d : ℕ) → IsFit d (ago d)
unfolding ago
ago-IsFit d = elim (Bool-cases (ltb d (10 * second))) [
  | inl x ↦ rw (x, ago) (ground (arith, x))
  | inr x ↦ elim (Bool-cases (ltb d (60 * second))) [
    | inl y ↦ rw (x, y, ago) (ground (arith, x, y), ground (arith, x, y))
    | inr y ↦ elim (Bool-cases (ltb d (3600 * second))) [
      | inl z ↦ rw (x, y, z, ago) (ground (arith, y, z), ground (arith, y, z))
      | inr z ↦ elim (Bool-cases (ltb d (86400 * second))) [
        | inl w ↦ rw (x, y, z, w, ago) (ground (arith, z, w), ground (arith, z, w))
        | inr w ↦ rw (x, y, z, w, ago) (ground (arith, w))
      ]
    ]
  ]
]
