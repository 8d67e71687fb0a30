-- ===== src/Pairing/Disk.antt =====
-- internal/pairing/store.go: `saveLocked`, which replaces peers.json by way of a temporary file.
use lanclip.Base.{
  ◌≡◌, refl, ◌⊎◌, inl, inr, true, arith, Option-cases, Bool-cases, ◌+◌, Bool, ◌&&◌, Option, none,
  some, ◌∷◌, [], ◌++◌, Text, if◌then◌else◌, Result, ok, err,
}
use lanclip.Base.Dict.{Dict}
use lanclip.Pairing.Types.{
  Peer, Disk, Error, encode_failed, create_failed, write_failed, rename_failed,
}

-- json.MarshalIndent and json.Unmarshal at `map[string]Peer`.
pub record PeersJson : Type 0 where
  pub marshal : Dict Peer → Option Text
  pub unmarshal : Text → Option (Dict Peer)

-- Which of the system's steps succeed in one call.
pub record SaveIo : Type 0 where
  pub create_temp : Bool
  pub chmod : Bool
  pub write : Bool
  pub sync : Bool
  pub close : Bool
  pub rename : Bool
  pub remove : Bool

-- The deferred `os.Remove` of the temporary file, whose own failure is ignored.
cleanup : SaveIo → Disk → Disk
cleanup io d = if io.remove then d else record d { temp_files = d.temp_files + 1 }

unfoldable pub save_locked : PeersJson → SaveIo → Dict Peer → Disk → Disk × Result Error (Unit {0})
unfolding cleanup
save_locked json io peers d = elim (json.marshal peers) [
  | none ↦ (d, err encode_failed)
  | some b ↦
      if io.create_temp
      then (if io.chmod && io.write && io.sync && io.close
          then (if io.rename
              then (record d { file = some (b ++ (b'\n' ∷ [])) }, ok tt)
              else (cleanup io d, err rename_failed))
          else (cleanup io d, err write_failed))
      else (d, err create_failed)
]

-- The contents that a successful save writes.
abbrev pub file_of : Text → Text
file_of b = b ++ (b'\n' ∷ [])

-- A save either succeeds, and then the file is the encoding of the peers and no temporary file is
-- left, or it reports an error and leaves the file as it was, and no temporary file either if removing
-- it does not fail.
pub save_locked_cases :
    (json : PeersJson) (io : SaveIo) (peers : Dict Peer) (d : Disk)
    → let r = save_locked json io peers d in
      ((b : Text) × (r.1 ≡ ok tt)
        × (json.marshal peers ≡ some b)
        × (r.0.file ≡ some (file_of b))
        × (r.0.temp_files ≡ d.temp_files))
      ⊎ ((e : Error) × (r.1 ≡ err e)
          × (r.0.file ≡ d.file)
          × ((io.remove ≡ true) → r.0.temp_files ≡ d.temp_files))
unfolding save_locked
save_locked_cases json io peers d = elim (Option-cases (json.marshal peers)) [
  | inl e ↦
      inr (encode_failed, rw (e, save_locked), rw (e, save_locked), rw (e, save_locked) (λ _. refl))
  | inr (b, e) ↦ elim (Bool-cases io.create_temp) [
    | inr f ↦ inr (create_failed, ground arith, ground arith, ground arith)
    | inl c ↦ elim (Bool-cases (io.chmod && io.write && io.sync && io.close)) [
      | inr f ↦ inr (write_failed, ground arith, ground arith, ground arith)
      | inl f ↦ elim (Bool-cases io.rename) [
        | inr g ↦ inr (rename_failed, ground arith, ground arith, ground arith)
        | inl g ↦ inl (b, ground arith, e, ground arith, ground arith)
      ]
    ]
  ]
]
