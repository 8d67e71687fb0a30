-- ===== src/Tests/Samples.antt =====
-- The values that the tests share: plain ASCII tables, a constant digest, an encoder of one entry.
use lanclip.Base.{refl, true, false, Option, none, some, [], ◌∷◌, Text, codes, text_eq, ltb, ◌==◌}
use lanclip.Base.Dict.{lookup}
use lanclip.Base.Unicode.{Unicode}
use lanclip.Identity.Hex.{Sha256}
use lanclip.Identity.Certificate.{Certificate}
use lanclip.Pairing.Types.{Peer, Store, pending, trusted}
use lanclip.Pairing.Disk.{PeersJson, SaveIo}
use lanclip.Pairing.Store.{Call}

abbrev pub ascii : Unicode
ascii = record {
  is_space = λ c. c == 32;
  is_control = λ c. ltb c 32;
  is_format = λ c. false;
  equal_fold = text_eq;
  to_lower = λ s. s;
}

abbrev pub bob_id : Text
bob_id = codes "0b0b0b0b-0b0b-4b0b-8b0b-0b0b0b0b0b0b"

abbrev pub amy_id : Text
amy_id = codes "0a0a0a0a-0a0a-4a0a-8a0a-0a0a0a0a0a0a"

abbrev pub pin : Text
pin = codes "00112233445566778899aabbccddeeff"

abbrev pub asking : Peer
asking = record {
  id = bob_id;
  name = codes "Bob";
  fingerprint = pin;
  state = pending;
  comparison_code = codes "amber apple";
  approval_token = codes "t1";
  updated_at = 100;
}

abbrev pub friend : Peer
friend = record {
  id = bob_id;
  name = codes "Bob";
  fingerprint = pin;
  state = trusted;
  comparison_code = [];
  approval_token = [];
  updated_at = 100;
}

-- The encoding is the name under one key, so the order of a map does not show.
abbrev pub name_at : Option Peer → Text
name_at none = []
name_at (some p) = p.name

abbrev pub name_json : PeersJson
name_json = record {
  marshal = λ m. some (name_at (lookup bob_id m));
  unmarshal = λ b. some ((bob_id, friend) ∷ []);
}

abbrev pub all_well : SaveIo
all_well = record {
  create_temp = true;
  chmod = true;
  write = true;
  sync = true;
  close = true;
  rename = true;
  remove = true;
}

abbrev pub call : Call
call = record { prune_time = 200; stamp_time = 201; nonce = some (codes "t2"); io = all_well }

abbrev pub full_disk : Call
full_disk = record call { io = record all_well { write = false } }

abbrev pub store : Store
store = record {
  disk = record { file = some (10 ∷ []); temp_files = 0 };
  peers = [];
  pending_peers = (bob_id, asking) ∷ [];
  pending_ttl = 1000;
  max_pending = 2;
}

abbrev pub paired : Store
paired = record {
  disk = record { file = some (codes "Bob\n"); temp_files = 0 };
  peers = (bob_id, friend) ∷ [];
  pending_peers = [];
  pending_ttl = 1000;
  max_pending = 2;
}

abbrev pub zeros : Text
zeros =
    0 ∷ 0 ∷ 0 ∷ 0 ∷ 0 ∷ 0 ∷ 0 ∷ 0 ∷ 0 ∷ 0 ∷ 0 ∷ 0 ∷ 0 ∷ 0 ∷ 0 ∷ 0 ∷ 0 ∷ 0 ∷ 0 ∷ 0 ∷ 0 ∷ 0 ∷ 0 ∷ 0
    ∷ 0 ∷ 0 ∷ 0 ∷ 0 ∷ 0 ∷ 0 ∷ 0 ∷ 0 ∷ []

abbrev pub digest : Sha256
digest = record { sum = λ t. zeros; length_sum = λ t. refl }

abbrev pub amy_cert : Certificate
amy_cert = record {
  raw = [];
  common_name = codes "lanclip:0a0a0a0a-0a0a-4a0a-8a0a-0a0a0a0a0a0a";
  is_ed25519 = true;
  public_key = codes "key";
  not_before = 0;
  not_after = 1000;
  self_signed = true;
}

abbrev pub bob_cert : Certificate
bob_cert = record amy_cert { common_name = codes "lanclip:0b0b0b0b-0b0b-4b0b-8b0b-0b0b0b0b0b0b" }
