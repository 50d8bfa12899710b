-- ===== src/Tests/Checkpoints.antt =====
-- Checkpoints of files: samples and examples for agent/tools/checkpoint.py.
use minicode_agent_runtime.Prelude.{true, ◌≡◌, refl, [], ◌∷◌, some, strip}
use minicode_agent_runtime.Prelude.Dict.{get, put}
use minicode_agent_runtime.Tools.Checkpoint.{
  file, Disk, CheckpointLib, CheckpointMeta, FileCheckpoint, create, restore,
  validate_checkpoint_id,
}
use minicode_agent_runtime.Tools.Checkpoint.Restored.{restore-create}

abbrev old_meta : CheckpointMeta
old_meta = record {
  checkpoint_id = "c1";
  path = "a.txt";
  existed = true;
  content_file = "c1.bin";
  sha256 = "old";
}

-- A payload is its own digest, and there is one dict.
abbrev lib : CheckpointLib
lib = record {
  resolve = λ p. p;
  digest = λ t. t;
  dump = λ m. "{}";
  load = λ t. some old_meta;
  checkpoint_dir = "ck";
  inside = λ p. true;
}

abbrev disk : Disk
disk = ("a.txt", file "old") ∷ []

abbrev created : Disk
created = ("a.txt", file "old") ∷ ("ck/c1.bin", file "old") ∷ ("ck/c1.json", file "{}") ∷ []

abbrev later : Disk
later = ("a.txt", file "new") ∷ ("ck/c1.bin", file "old") ∷ ("ck/c1.json", file "{}") ∷ []

abbrev checkpoint : FileCheckpoint
checkpoint = record {
  checkpoint_id = "c1";
  path = "a.txt";
  existed = true;
  content_path = some "ck/c1.bin";
  sha256 = "old";
}

restore-create_example : get (restore lib "c1" later).1 "a.txt" ≡ get disk "a.txt"
unfolding create validate_checkpoint_id strip get put
restore-create_example =
    restore-create lib "c1" "a.txt" disk created later checkpoint refl refl refl refl refl refl refl
      tt
