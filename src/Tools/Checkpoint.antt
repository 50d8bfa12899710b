-- ===== src/Tools/Checkpoint.antt =====
-- agent/tools/checkpoint.py: snapshots of files before they are changed, and their restoring.
pub mod Restored
use Prim.Native.Char.{code}
use Prim.Native.String.{◌++◌ as str_append}
use minicode_agent_runtime.Prelude.{
  ℕ, String, Bool, true, false, ◌≡◌, leb, ◌==◌, if◌then◌else◌, Option, none, some, str_eq, truthy,
  or_text, strip, ◌&&◌, ◌||◌,
}
use minicode_agent_runtime.Prelude.Dict.{Dict, get, put, pop}

-- What a resolved path holds; payloads are texts of bytes.
pub data Node : Type 0 where
  file : String → Node
  directory : Node

-- The file system; directories are there when a file is written into them.
abbrev pub Disk : Type 0
Disk = Dict Node

-- The dict that `create` writes, without the size and the instant, which nothing reads
pub record CheckpointMeta : Type 0 where
  pub checkpoint_id : String
  pub path : String
  pub existed : Bool
  pub content_file : String
  pub sha256 : String

-- `FileCheckpoint`
pub record FileCheckpoint : Type 0 where
  pub checkpoint_id : String
  pub path : String
  pub existed : Bool
  pub content_path : Option String
  pub sha256 : String

-- `expanduser().resolve()`, the digest, json on the dict (none is an exception), the directory of the
-- checkpoints, and the test of the allowed directory, which is true without one
pub record CheckpointLib : Type 0 where
  pub resolve : String → String
  pub digest : String → String
  pub dump : CheckpointMeta → String
  pub load : String → Option CheckpointMeta
  pub checkpoint_dir : String
  pub inside : String → Bool

-- The characters of `_CHECKPOINT_ID_RE`
is_id_char : ℕ → Bool
is_id_char c =
    (leb 65 c && leb c 90)
    || (leb 97 c && leb c 122)
    || (leb 48 c && leb c 57)
    || c == 95
    || c == 45
    || c == 46

all_id_chars : String → Bool
all_id_chars String.[] = true
all_id_chars (String.◌∷◌ c s) = is_id_char (code c) && all_id_chars s

-- `_validate_checkpoint_id`; none is its exception.
unfoldable pub validate_checkpoint_id : String → Option String
unfolding all_id_chars is_id_char
validate_checkpoint_id checkpoint_id =
    let clean_id = strip checkpoint_id in
    if truthy clean_id && all_id_chars clean_id then some clean_id else none

-- How `create` and the tool end
pub data Restore : Type 0 where
  outside content_missing checksum_mismatch not_a_file already_restored : Restore
  restored removed : String → Restore
  failed : Restore

module _ (lib : CheckpointLib) where
  abbrev pub content_path_of : String → String
  content_path_of id = str_append lib.checkpoint_dir (str_append "/" (str_append id ".bin"))

  abbrev pub meta_path : String → String
  meta_path id = str_append lib.checkpoint_dir (str_append "/" (str_append id ".json"))

  -- The dict of a target that there is, and of one that there is not
  abbrev pub meta_of : String → String → Bool → String → CheckpointMeta
  meta_of id target existed payload = record {
    checkpoint_id = id;
    path = target;
    existed = existed;
    content_file = if existed then str_append id ".bin" else "";
    sha256 = lib.digest payload;
  }

  snapshot : String → String → Option Node → Disk → Option (FileCheckpoint × Disk)
  snapshot id target (some directory) disk = none
  snapshot id target (some (file payload)) disk = some (
    record {
      checkpoint_id = id;
      path = target;
      existed = true;
      content_path = some (content_path_of id);
      sha256 = lib.digest payload;
    },
    put (put disk (content_path_of id) (file payload)) (meta_path id)
        (file (lib.dump (meta_of id target true payload))),
  )
  snapshot id target none disk = some (
    record {
      checkpoint_id = id;
      path = target;
      existed = false;
      content_path = none;
      sha256 = lib.digest "";
    },
    put disk (meta_path id) (file (lib.dump (meta_of id target false ""))),
  )

  -- `create`, with the new id; none is the exception for a directory.
  unfoldable pub create : String → String → Disk → Option (FileCheckpoint × Disk)
  unfolding snapshot
  create id path disk = let target = lib.resolve path in snapshot id target (get disk target) disk

  abbrev content_of : String → Option String
  content_of content_file =
      if truthy content_file
      then some (str_append lib.checkpoint_dir (str_append "/" content_file))
      else none

  from_meta : Option CheckpointMeta → Option FileCheckpoint
  from_meta none = none
  from_meta (some m) = some (record {
    checkpoint_id = m.checkpoint_id;
    path = lib.resolve m.path;
    existed = m.existed;
    content_path = content_of m.content_file;
    sha256 = m.sha256;
  })

  from_node : Option Node → Option FileCheckpoint
  from_node none = none
  from_node (some directory) = none
  from_node (some (file text)) = from_meta (lib.load text)

  load_id : Option String → Disk → Option FileCheckpoint
  load_id none disk = none
  load_id (some id) disk = from_node (get disk (meta_path id))

  -- `load`; none is an exception.
  unfoldable pub load : String → Disk → Option FileCheckpoint
  unfolding from_meta from_node load_id
  load checkpoint_id disk = load_id (validate_checkpoint_id checkpoint_id) disk

  write_back : FileCheckpoint → Option Node → Disk → Restore × Disk
  write_back c none disk = (content_missing, disk)
  write_back c (some directory) disk = (failed, disk)
  write_back c (some (file payload)) disk =
      if (if str_eq (lib.digest payload) c.sha256 then false else truthy c.sha256)
      then (checksum_mismatch, disk)
      else (restored c.path, put disk c.path (file payload))

  remove_new : FileCheckpoint → Option Node → Disk → Restore × Disk
  remove_new c none disk = (already_restored, disk)
  remove_new c (some directory) disk = (not_a_file, disk)
  remove_new c (some (file payload)) disk = (removed c.path, pop disk c.path)

  content_node : Option String → Disk → Option Node
  content_node none disk = none
  content_node (some path) disk = get disk path

  restore_from : Option FileCheckpoint → Disk → Restore × Disk
  restore_from none disk = (failed, disk)
  restore_from (some c) disk =
      if lib.inside c.path
      then (if c.existed
          then write_back c (content_node c.content_path disk) disk
          else remove_new c (get disk c.path) disk)
      else (outside, disk)

  -- `RestoreCheckpointTool.execute`
  unfoldable pub restore : String → Disk → Restore × Disk
  unfolding write_back remove_new content_node restore_from
  restore checkpoint_id disk = restore_from (load checkpoint_id disk) disk
