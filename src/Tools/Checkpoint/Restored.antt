-- ===== src/Tools/Checkpoint/Restored.antt =====
-- agent/tools/checkpoint.py: a checkpoint gives back what there was.
use Prim.Native.String.{◌++◌ as str_append}
use text.Mathlib.TextLemmas.{append_cancel_left, append-eq-nil_iff}
use minicode_agent_runtime.Prelude.{
  String, true, false, ◌≡◌, refl, sym, ap, ◌∙◌, Option, none, some, str_eq, eq_iff, eq_refl, truthy,
  Bool-cases, inl, inr,
}
use minicode_agent_runtime.Prelude.Dict.{get, put, get-put, get-pop}
use minicode_agent_runtime.Tools.Checkpoint.{
  Node, file, directory, Disk, CheckpointLib, CheckpointMeta, FileCheckpoint, create, load, restore,
  snapshot, content_path_of, meta_path, meta_of, validate_checkpoint_id, write_back, remove_new,
  content_node, restore_from, from_meta, from_node, load_id,
}

paths_differ :
    (lib : CheckpointLib) (id : String) → str_eq (meta_path lib id) (content_path_of lib id) ≡ false
paths_differ lib id = elim (Bool-cases (str_eq (meta_path lib id) (content_path_of lib id))) [
  | inl e ↦
      let same = (eq_iff (meta_path lib id) (content_path_of lib id)).0 e in
      let names =
        append_cancel_left lib.checkpoint_dir (str_append "/" (str_append id ".json"))
          (str_append "/" (str_append id ".bin")) same in
      let ids = append_cancel_left "/" (str_append id ".json") (str_append id ".bin") names in
      absurd (cc (endings_differ (append_cancel_left id ".json" ".bin" ids)))
  | inr e ↦ e
]
  where
    endings_differ : ◌≡◌ {A = String} ".json" ".bin" → true ≡ false
    endings_differ e = ap (λ t. str_eq t ".json") e

ends_truthy : (id : String) → truthy (str_append id ".bin") ≡ true
ends_truthy id = elim (Bool-cases (str_eq (str_append id ".bin") "")) [
  | inl e ↦
      let nil = append-eq-nil_iff.0 ((eq_iff (str_append id ".bin") "").0 e) in
      absurd (cc (bin_ne nil.1))
  | inr e ↦ rw e refl
]
  where
    bin_ne : ◌≡◌ {A = String} ".bin" "" → true ≡ false
    bin_ne e = ap (λ t. str_eq t ".bin") e

-- Nothing, or a file
abbrev pub NoDirectory : Option Node → Type 0
NoDirectory none = Unit
NoDirectory (some (file payload)) = Unit
NoDirectory (some directory) = true ≡ false

module _ (lib : CheckpointLib) (id target : String) where
  -- json gives back the dict that a checkpoint of this content writes.
  abbrev pub MetaKept : Option Node → Type 0
  MetaKept none =
      lib.load (lib.dump (meta_of lib id target false "")) ≡ some (meta_of lib id target false "")
  MetaKept (some (file payload)) =
      lib.load (lib.dump (meta_of lib id target true payload))
      ≡ some (meta_of lib id target true payload)
  MetaKept (some directory) = Unit

  load_of :
      (m : CheckpointMeta) (later : Disk)
      → validate_checkpoint_id id ≡ some id
      → lib.load (lib.dump m) ≡ some m
      → get later (meta_path lib id) ≡ some (file (lib.dump m))
      → load lib id later ≡ from_meta lib (some m)
  unfolding load load_id from_node
  load_of m later valid same kept = rw (valid, kept, same) refl

  restore_present :
      (payload : String) (later : Disk)
      → validate_checkpoint_id id ≡ some id
      → lib.resolve target ≡ target
      → lib.inside target ≡ true
      → MetaKept (some (file payload))
      → get later (meta_path lib id) ≡ some (file (lib.dump (meta_of lib id target true payload)))
      → get later (content_path_of lib id) ≡ some (file payload)
      → get (restore lib id later).1 target ≡ some (file payload)
  unfolding restore restore_from write_back content_node from_meta
  restore_present payload later valid resolved allowed same kept content =
      rw
        (
          load_of (meta_of lib id target true payload) later valid same kept,
          resolved,
          allowed,
          ends_truthy id,
          content,
          eq_refl (lib.digest payload),
        )
        (get-put later target target (file payload) ∙ rw (eq_refl target) refl)

  restore_absent :
      (later : Disk)
      → validate_checkpoint_id id ≡ some id
      → lib.resolve target ≡ target
      → lib.inside target ≡ true
      → MetaKept none
      → get later (meta_path lib id) ≡ some (file (lib.dump (meta_of lib id target false "")))
      → NoDirectory (get later target)
      → get (restore lib id later).1 target ≡ none
  unfolding restore restore_from from_meta remove_new
  restore_absent later valid resolved allowed same kept no_directory =
      rw (load_of (meta_of lib id target false "") later valid same kept, resolved, allowed)
        (after_remove (get later target) refl no_directory)
    where
      after_remove :
          (node : Option Node)
          → get later target ≡ node
          → NoDirectory node
          → get
              (remove_new lib
                (record {
                  checkpoint_id = id;
                  path = target;
                  existed = false;
                  content_path = none;
                  sha256 = lib.digest "";
                })
                node
                later).1
              target
            ≡ none
      after_remove none e h = e
      after_remove (some directory) e h = absurd (cc h)
      after_remove (some (file payload)) e h =
          get-pop later target target ∙ rw (eq_refl target) refl

  disk_of : Option (FileCheckpoint × Disk) → Disk → Disk
  disk_of none disk = disk
  disk_of (some (c, disk')) disk = disk'

  snapshot-restore :
      (node : Option Node) (disk created later : Disk) (c : FileCheckpoint)
      → snapshot lib id target node disk ≡ some (c, created)
      → validate_checkpoint_id id ≡ some id
      → lib.resolve target ≡ target
      → lib.inside target ≡ true
      → MetaKept node
      → get later (meta_path lib id) ≡ get created (meta_path lib id)
      → get later (content_path_of lib id) ≡ get created (content_path_of lib id)
      → NoDirectory (get later target)
      → get (restore lib id later).1 target ≡ node
  unfolding snapshot disk_of
  snapshot-restore none disk created later c e valid resolved allowed same meta content
        no_directory =
      let text = file (lib.dump (meta_of lib id target false "")) in
      let made : put disk (meta_path lib id) text ≡ created = ap (λ o. disk_of o disk) e in
      restore_absent later valid resolved allowed same
        (meta
          ∙ ap (λ d. get d (meta_path lib id)) (sym made)
          ∙ get-put disk (meta_path lib id) (meta_path lib id) text
          ∙ rw (eq_refl (meta_path lib id)) refl)
        no_directory
  snapshot-restore (some directory) disk created later c e valid resolved allowed same meta content
        no_directory =
      absurd (cc e)
  snapshot-restore (some (file payload)) disk created later c e valid resolved allowed same meta
        content no_directory =
      let text = file (lib.dump (meta_of lib id target true payload)) in
      let first = put disk (content_path_of lib id) (file payload) in
      let made : put first (meta_path lib id) text ≡ created = ap (λ o. disk_of o disk) e in
      restore_present payload later valid resolved allowed same
        (meta
          ∙ ap (λ d. get d (meta_path lib id)) (sym made)
          ∙ get-put first (meta_path lib id) (meta_path lib id) text
          ∙ rw (eq_refl (meta_path lib id)) refl)
        (content
          ∙ ap (λ d. get d (content_path_of lib id)) (sym made)
          ∙ get-put first (meta_path lib id) (content_path_of lib id) text
          ∙ rw (paths_differ lib id) (
              get-put disk (content_path_of lib id) (content_path_of lib id) (file payload)
              ∙ rw (eq_refl (content_path_of lib id)) refl))

-- After create of a checkpoint, restore with its id gives back at the target what create found
-- there, a file with its content or nothing, on every later disk that has kept the two files of
-- the checkpoint and has no directory at the target; the id is valid, the resolved target resolves
-- to itself and is in the allowed directory, and json gives back the dict that create writes.
pub restore-create :
    (lib : CheckpointLib) (id path : String) (disk created later : Disk) (c : FileCheckpoint)
    → create lib id path disk ≡ some (c, created)
    → validate_checkpoint_id id ≡ some id
    → lib.resolve (lib.resolve path) ≡ lib.resolve path
    → lib.inside (lib.resolve path) ≡ true
    → MetaKept lib id (lib.resolve path) (get disk (lib.resolve path))
    → get later (meta_path lib id) ≡ get created (meta_path lib id)
    → get later (content_path_of lib id) ≡ get created (content_path_of lib id)
    → NoDirectory (get later (lib.resolve path))
    → get (restore lib id later).1 (lib.resolve path) ≡ get disk (lib.resolve path)
unfolding create
restore-create lib id path disk created later c e valid resolved allowed same meta content
      no_directory =
    snapshot-restore lib id (lib.resolve path) (get disk (lib.resolve path)) disk created later c e
      valid resolved allowed same meta content no_directory
