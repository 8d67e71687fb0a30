-- ===== src/Tests/Files.antt =====
-- internal/pairing/store.go: peers.json, and the comparison code.
use lanclip.Base.{
  ◌≡◌, refl, sym, ap, ◌∙◌, ◌⊎◌, Bool, true, false, some, none, [], ◌∷◌, Text, codes, Result, ok,
  err, arith, text_eq,
}
use lanclip.Base.Dict.{lookup}
use lanclip.Pairing.Types.{Store, Error}
use lanclip.Pairing.Mirror.{Mirrors}
use lanclip.Pairing.Valid.{IsValid}
use lanclip.Pairing.Load.{load, new_store}
use lanclip.Pairing.Load.Restart.{ReadsBack, Restarted, load-restart}
use lanclip.Pairing.Code.{Side}
use lanclip.Tests.Samples.{bob_id, amy_id, friend, name_json, all_well, paired}

loads_friend :
    (load name_json all_well true paired.disk).1
    ≡ ok (new_store ((bob_id, friend) ∷ []) paired.disk)
unfolding load lanclip.Base.any lanclip.Pairing.Types.state_eq lanclip.Pairing.Load.session_free
loads_friend = refl

pub paired-IsValid : IsValid paired
unfolding lookup
paired-IsValid = record {
  peers_nodup = (refl, tt);
  pending_nodup = tt;
  decided = ((λ e. absurd (cc e), refl, refl), tt);
  requests = tt;
  bounded = omega arith;
}

paired-Mirrors : Mirrors name_json paired
unfolding lookup text_eq
paired-Mirrors = record { bytes = codes "Bob"; encoded = refl; written = refl }

friend-ReadsBack : ReadsBack name_json paired.peers
unfolding lookup
friend-ReadsBack b e = ((bob_id, friend) ∷ [], refl, (refl, tt), λ k. refl)

load-restart_example : Restarted name_json all_well paired
load-restart_example =
    load-restart name_json all_well paired paired-IsValid paired-Mirrors friend-ReadsBack

abbrev amy_side : Side
amy_side = record { id = amy_id; fingerprint = codes "aa"; nonce = codes "n1" }

abbrev bob_side : Side
bob_side = record { id = bob_id; fingerprint = codes "bb"; nonce = codes "n2" }
