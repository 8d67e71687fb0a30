-- ===== src/Tests/Stores.antt =====
-- internal/pairing/store.go: the store at work.
use lanclip.Pairing.Name.{normalize_device_name, max_device_name_runes}
use lanclip.Pairing.Name.Clean.{is_shown, normalize_device_name_clean}
use lanclip.Base.{
  true, length, ◌≤◌, all, ◌≡◌, refl, ◌⊎◌, ap, false, some, [], ◌∷◌, codes, ok, arith, text_eq,
  retain,
}
use lanclip.Base.Dict.{lookup, insert, keep_values}
use lanclip.Base.Unicode.{trim_space}
use lanclip.Pairing.Disk.{save_locked}
use lanclip.Pairing.Store.{Call, prune_pending_locked, resolve_locked, resolve, get, list}
use lanclip.Pairing.Changes.{approve}
use lanclip.Pairing.Changes.Trust.{TrustedAs, Approval}
use lanclip.Pairing.Changes.Approval.{trust_needs-Approval}
use lanclip.Pairing.Changes.Outcome.{Unchanged}
use lanclip.Pairing.Changes.Atomic.{entered, perform_failed, perform-Mirrors}
use lanclip.Pairing.Changes.Invariant.{run-IsValid}
use lanclip.Pairing.Mirror.{Mirrors, IsOrdered}
use lanclip.Pairing.Valid.{IsValid}
use lanclip.Pairing.Runs.{Method, approve_of, unpair_of, perform, run}
use lanclip.Tests.Samples.{
  ascii, bob_id, pin, asking, friend, name_at, name_json, call, full_disk, store,
}

abbrev approval : Method
approval = approve_of bob_id (codes "t1") pin (codes "amber apple")

pub store-IsValid : IsValid store
unfolding lookup
store-IsValid = record {
  peers_nodup = tt;
  pending_nodup = (refl, tt);
  decided = tt;
  requests = ((refl, refl), tt);
  bounded = omega arith;
}

becomes_trusted : TrustedAs (perform ascii name_json store (call, approval)).0.peers bob_id pin
unfolding perform approve lookup resolve_locked prune_pending_locked keep_values text_eq trim_space
    lanclip.Pairing.Store.allowed save_locked insert
becomes_trusted = record {
  peer = record friend { updated_at = 201 };
  found = refl;
  is_trusted = refl;
  pinned = refl;
}

-- A wrong code, an expired request and a failed save grant nothing.
wrong_code :
    (approve ascii name_json call bob_id (codes "t1") pin (codes "amber") store).0.peers ≡ []
unfolding approve lookup resolve_locked prune_pending_locked keep_values text_eq trim_space
    lanclip.Pairing.Store.allowed
wrong_code = refl

expired :
    (approve ascii name_json
      (record call { prune_time = 1100 })
      bob_id
      (codes "t1")
      pin
      (codes "amber apple")
      store).0.pending_peers
    ≡ []
unfolding approve lookup resolve_locked prune_pending_locked keep_values
    lanclip.Pairing.Store.matches retain
expired = refl

trust_needs-Approval_example :
    TrustedAs store.peers bob_id pin ⊎ Approval store call approval bob_id pin
trust_needs-Approval_example =
    trust_needs-Approval ascii name_json store call approval bob_id pin store-IsValid
      becomes_trusted

disk_is_full : (perform ascii name_json store (full_disk, approval)).1 ≡ false
unfolding perform approve lookup resolve_locked prune_pending_locked keep_values text_eq trim_space
    lanclip.Pairing.Store.allowed save_locked
disk_is_full = refl

perform_failed_example :
    Unchanged
      (entered store (full_disk, approval))
      (perform ascii name_json store (full_disk, approval)).0
perform_failed_example =
    perform_failed ascii name_json full_disk store approval store-IsValid disk_is_full

name_json-IsOrdered : IsOrdered name_json
unfolding lookup
name_json-IsOrdered m n um un same = ap (λ o. some (name_at o)) (same bob_id)

store-Mirrors : Mirrors name_json store
unfolding lookup
store-Mirrors = record { bytes = []; encoded = refl; written = refl }

perform-Mirrors_example : Mirrors name_json (perform ascii name_json store (call, approval)).0
perform-Mirrors_example =
    perform-Mirrors ascii name_json call name_json-IsOrdered store approval store-IsValid
      store-Mirrors

bob_is_pending : lookup (trim_space ascii bob_id) store.pending_peers ≡ some asking
unfolding trim_space lookup text_eq
bob_is_pending = refl

run-IsValid_example : IsValid (
    run ascii name_json store
      ((full_disk, approval) ∷ (call, approval) ∷ (call, unpair_of bob_id) ∷ []))
run-IsValid_example =
    run-IsValid ascii name_json store
      ((full_disk, approval) ∷ (call, approval) ∷ (call, unpair_of bob_id) ∷ []) store-IsValid

found_by_name : resolve_locked ascii store (codes "Bob") [] ≡ ok (bob_id, asking)
unfolding resolve_locked lookup text_eq trim_space lanclip.Pairing.Store.matches retain
    lanclip.Pairing.Store.allowed
found_by_name = refl

-- A name with a line break and spaces around it.
trimmed_name : normalize_device_name ascii (codes " Bo\nb ") ≡ codes "Bob"
unfolding normalize_device_name
trimmed_name = refl

normalize_device_name_clean_example :
    (length (normalize_device_name ascii (codes " Bo\nb ")) ≤ max_device_name_runes)
    × (all (is_shown ascii) (normalize_device_name ascii (codes " Bo\nb ")) ≡ true)
normalize_device_name_clean_example = normalize_device_name_clean ascii (codes " Bo\nb ")
