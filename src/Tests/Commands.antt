-- ===== src/Tests/Commands.antt =====
-- cmd/lanclip/cli.go: an approval at the prompt.
use lanclip.Base.{
  ℕ, ◌≡◌, refl, Bool, true, Option, some, none, List, [], ◌∷◌, Text, codes, all, text_eq,
}
use lanclip.Control.{Request}
use lanclip.Daemon.Status.{PeerStatus}
use lanclip.Daemon.Conns.{no_stats}
use lanclip.Cli.{Read, line, last, sends, cancelled, fails, no_confirmation, interact}
use lanclip.Cli.Consent.{Agreed, interact-Agreed}
use lanclip.Tests.Samples.{ascii, bob_id, pin, asking}

abbrev pub waiting : PeerStatus
waiting = record { peer = asking; addresses = []; stats = no_stats }

abbrev pub only_one : Text → Option ℕ
only_one s = some 1

abbrev pub approve_bob : Request
approve_bob = record {
  command = codes "approve";
  argument = bob_id;
  pair_token = codes "t1";
  fingerprint = pin;
  code = codes "amber apple";
}

abbrev pub typed : List Read
typed = line (codes "1") ∷ line (codes "what") ∷ line (codes "yes") ∷ []

approves : interact ascii only_one (codes "approve") none typed (waiting ∷ []) ≡ sends approve_bob
unfolding interact lanclip.Base.retain lanclip.Base.Unicode.trim_space
approves = refl

-- An empty line is no consent, and other words at the end of the input are an error.
declines :
    interact ascii only_one (codes "approve") (some (codes "Bob")) (line [] ∷ []) (waiting ∷ [])
    ≡ cancelled
unfolding interact lanclip.Base.retain lanclip.Base.Unicode.trim_space
declines = refl

unclear :
    interact ascii only_one
      (codes "approve")
      (some (codes "Bob"))
      (last (codes "ok") ∷ [])
      (waiting ∷ [])
    ≡ fails no_confirmation
unfolding interact lanclip.Base.retain lanclip.Base.Unicode.trim_space
unclear = refl

abbrev is_bob : PeerStatus → Bool
is_bob p = text_eq p.peer.id bob_id

all_bob : all is_bob (waiting ∷ []) ≡ true
unfolding all text_eq
all_bob = refl

interact-Agreed_example : Agreed ascii is_bob (codes "approve") typed approve_bob
interact-Agreed_example =
    interact-Agreed ascii is_bob (codes "approve") only_one none typed (waiting ∷ []) approve_bob
      all_bob approves
