-- ===== src/Pairing/Mirror.antt =====
-- internal/pairing/store.go: what the file of peers holds between two calls.
use lanclip.Base.{◌≡◌, some, ◌∙◌, Text}
use lanclip.Base.Dict.{Dict, NodupKeys, SameMap}
use lanclip.Pairing.Types.{Peer, Store}
use lanclip.Pairing.Disk.{PeersJson, file_of}

-- The file is the encoding of the peers in memory.
pub record Mirrors (json : PeersJson) (s : Store) : Type 0 where
  pub bytes : Text
  pub encoded : json.marshal s.peers ≡ some bytes
  pub written : s.disk.file ≡ some (file_of bytes)

-- encoding/json writes the keys of a map in sorted order, so the order of the map does not show.
abbrev pub IsOrdered : PeersJson → Type 0
IsOrdered json =
    (m n : Dict Peer) → NodupKeys m → NodupKeys n → SameMap m n → json.marshal m ≡ json.marshal n

pub moved :
    (json : PeersJson) (s t : Store)
    → json.marshal t.peers ≡ json.marshal s.peers
    → t.disk.file ≡ s.disk.file
    → Mirrors json s
    → Mirrors json t
moved json s t same_code same_file m = record {
  bytes = m.bytes;
  encoded = same_code ∙ m.encoded;
  written = same_file ∙ m.written;
}
