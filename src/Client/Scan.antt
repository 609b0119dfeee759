-- ===== src/Client/Scan.antt =====
-- internal/client/scanner.go: handleList, which walks the client's directory and sends what it finds in
-- batches.
pub mod Sends
use backuper.Prelude.{
  ℕ, Bool, true, false, not, ◌&&◌, ◌||◌, Option, none, some, Bytes, utf8, bytes_eq, List, [], ◌∷◌,
  ◌++◌, length, leb, if◌then◌else◌,
}
use backuper.Prelude.Int.{ℤ}
use backuper.Prelude.Steps.{Done, stopped, went, Steps, ◌>>=◌, pure}
use backuper.Protocol.Msg
use backuper.Protocol.Frame.{IoError, Message}
use backuper.Protocol.Messages.{ListReq}
use backuper.Protocol.Messages.Lists.{FileEntry, ListBatch, encode_list_batch}
use backuper.Protocol.Paths.{Joined, safe_join, clean_rel}
use backuper.Client.{ClientConfig, Ended, returned, write_msg, path_or_error}

abbrev pub list_batch_size : ℕ
list_batch_size = 10000

-- The masks of Config, with filepath.Match (which path.Match is, on a system whose separator is the
-- slash; false for a bad pattern) and filepath.Rel (none where it fails).
pub record ScanConfig : Type 0 where
  pub include_masks : List Bytes
  pub exclude_masks : List Bytes
  pub matches : Bytes → Bytes → Bool
  pub to_rel : Bytes → Bytes → Option Bytes

-- What d.Type() tells apart, for an entry that is no directory.
pub data EntryType : Type 0 where
  regular symlink irregular : EntryType

pub record Found : Type 0 where
  pub size : ℕ
  pub mtime : ℤ

-- An entry that is no directory; `info` is none where d.Info fails.
pub record Entry : Type 0 where
  pub path : Bytes
  pub name : Bytes
  pub entry_type : EntryType
  pub info : Option Found

pub record Directory : Type 0 where
  pub path : Bytes
  pub name : Bytes
  pub is_readable : Bool

-- What filepath.WalkDir visits in one directory, in its order: a directory has its own entries
-- and is followed by the others. `lost` is a root that Lstat refuses, for which the function is
-- called with that error and no entry.
pub data Tree : Type 0 where
  nothing : Tree
  lost : Bytes → Tree
  leaf : Entry → Tree → Tree
  node : Directory → Tree → Tree → Tree

-- The state of a walk: the connection, and the batch that is being filled.
pub record Walk (W : Type 0) : Type 0 where
  pub conn : W
  pub batch : List FileEntry

-- `len(masks) > 0`
abbrev pub has_masks : List Bytes → Bool
has_masks [] = false
has_masks (p ∷ patterns) = true

module _ (scan : ScanConfig) where
  unfoldable pub match_any : List Bytes → Bytes → Bytes → Bool
  match_any [] name rel = false
  match_any (p ∷ patterns) name rel =
      if scan.matches p name || scan.matches p rel then true else match_any patterns name rel

  unfoldable pub included : Bytes → Bytes → Bool
  unfolding match_any
  included rel name =
      if has_masks scan.include_masks && not (match_any scan.include_masks name rel)
      then false
      else not (has_masks scan.exclude_masks && match_any scan.exclude_masks name rel)

module _ {W : Type 0} (send : Message → W → W × Option IoError) (cfg : ClientConfig)
    (scan : ScanConfig) where
  abbrev pub after_flush : List FileEntry → Done Ended Unit × W → Done Ended Unit × Walk W
  after_flush batch (stopped e, w) = (stopped e, record { conn = w; batch = batch })
  after_flush batch (went u, w) = (went u, record { conn = w; batch = [] })

  unfoldable pub flush : Bool → Steps (Walk W) Ended Unit
  flush last s = after_flush s.batch (
      write_msg send Msg.list_batch
        (encode_list_batch (record { is_last = last; entries = s.batch })) s.conn)

  -- `batch = append(...)`, and a flush of a full batch
  unfoldable pub add_entry : FileEntry → Steps (Walk W) Ended Unit
  unfolding flush
  add_entry e s =
      let s' = record s { batch = s.batch ++ e ∷ [] } in
      if leb list_batch_size (length s'.batch) then flush false s' else (went tt, s')

  unfoldable pub add_regular : Entry → Option Bytes → Steps (Walk W) Ended Unit
  unfolding included add_entry
  add_regular e none = pure tt
  add_regular e (some rel) =
      if included scan rel e.name
      then (elim e.info [
        | none ↦ pure tt
        | some i ↦ add_entry (record { path = clean_rel rel; size = i.size; mtime = i.mtime })
      ])
      else pure tt

  -- the function of the walk, for an entry that is no directory
  unfoldable pub visit_entry : Entry → Steps (Walk W) Ended Unit
  unfolding add_regular
  visit_entry e = elim e.entry_type [
    | symlink ↦ pure tt
    | irregular ↦ pure tt
    | regular ↦ add_regular e (scan.to_rel cfg.backup_dir e.path)
  ]

  unfoldable pub is_excluded : Directory → Option Bytes → Bool
  unfolding match_any
  is_excluded d none = false
  is_excluded d (some rel) =
      not (bytes_eq rel (utf8 "."))
      && (has_masks scan.exclude_masks && match_any scan scan.exclude_masks d.name rel)

  -- The entries of a directory are visited unless the function says fs.SkipDir for it: it is
  -- excluded, or cannot be read.
  unfoldable pub enters : Directory → Bool
  unfolding is_excluded
  enters d = d.is_readable && not (is_excluded d (scan.to_rel cfg.backup_dir d.path))

  -- The function of the walk, for an error: it is logged and the walk goes on. A directory whose
  -- ReadDir has failed is skipped, an entry that is not there passed over; both come to nothing.
  unfoldable pub visit_error : Steps (Walk W) Ended Unit
  visit_error = pure tt

  -- filepath.WalkDir with the function of handleList
  unfoldable pub walk : Tree → Steps (Walk W) Ended Unit
  unfolding ◌>>=◌ visit_entry enters visit_error
  walk nothing = pure tt
  walk (lost p) = visit_error
  walk (leaf e rest) = do u ← visit_entry e; walk rest
  walk (node d inside rest) = do
    u ← (let entries = walk inside in elim (enters d) [ true ↦ entries | false ↦ visit_error ])
    walk rest

  abbrev pub ended : {S : Type 0} → Done Ended Unit × Walk W → Done Ended S × W
  ended (stopped e, s) = (stopped e, s.conn)
  ended (went u, s) = (stopped (returned none), s.conn)

  -- the walk from the root, and the last batch
  unfoldable pub scan_tree : Tree → Steps W Ended Unit
  unfolding walk flush ◌>>=◌
  scan_tree tree w = ended ((walk tree >>= λ u. flush true) (record { conn = w; batch = [] }))

  unfoldable pub list_root : Bytes → Steps W Ended Bytes
  list_root root =
      if bytes_eq root []
      then pure cfg.backup_dir
      else path_or_error send cfg.join_text (utf8 "LIST root: ")
          (safe_join cfg.cwd cfg.backup_dir root)

  -- `trees` is the file system as a walk from a root finds it.
  unfoldable pub handle_list : (Bytes → Tree) → ListReq → Steps W Ended Unit
  unfolding ◌>>=◌ list_root scan_tree
  handle_list trees req = do root ← list_root req.root; scan_tree (trees root)
