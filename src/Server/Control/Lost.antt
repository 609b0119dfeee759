-- ===== src/Server/Control/Lost.antt =====
-- A source that the client does not find: the list is empty, and is taken for the client's list.
use backuper.Prelude.{
  ℕ, ◌≡◌, refl, false, true, bytes_eq, ap, sym, ◌∙◌, subst, Bytes, length, List, [], ◌∷◌, map, take,
  All, where_rows, none,
}
use backuper.Prelude.Steps.{stopped, went, ◌>>=◌, pure}
use backuper.Protocol.Frame.{IoError}
use backuper.Protocol.Messages.Lists.{encode_list_batch}
use backuper.Protocol.Messages.Lists.RoundTrip.{FileEntryIsValid}
use backuper.Store.{FileRow}
use backuper.Store.Diff.{is_gone, to_candidate, select_trash_batch}
use backuper.Client.{ClientConfig, returned, write_msg, append_message}
use backuper.Client.Scan.{
  ScanConfig, Directory, Tree, nothing, lost, node, flush, visit_error, enters, walk, scan_tree,
  list_root, handle_list,
}
use backuper.Client.Scan.Sends.{batch_message, listed}
use backuper.Server.Control.{Control, load_list}
use backuper.Server.Control.Loads.{loaded, client_rows, load_list-handle_list}

where_rows-gone : (files : List FileRow) → where_rows (is_gone []) files ≡ files
where_rows-gone [] = refl
where_rows-gone (f ∷ files) = ap (λ l. f ∷ l) (where_rows-gone files)

-- A root that Lstat refuses, or a directory whose entries ReadDir refuses.
pub data IsLost : Tree → Type 0 where
  no_root : (p : Bytes) → IsLost (lost p)
  no_entries :
      (d : Directory) (inside : Tree) → d.is_readable ≡ false → IsLost (node d inside nothing)

lost-listed :
    (ccfg : ClientConfig) (scan : ScanConfig) (t : Tree) → IsLost t → listed ccfg scan t ≡ []
unfolding enters
lost-listed ccfg scan _ (no_root p) = refl
lost-listed ccfg scan _ (no_entries d inside h) = rw h refl

-- a walk that finds nothing: its one batch
lost-sends :
    (ccfg : ClientConfig) (scan : ScanConfig) (t : Tree)
    → IsLost t
    → walk append_message ccfg scan t (record { conn = []; batch = [] })
      ≡ (went tt, record { conn = []; batch = [] })
unfolding walk visit_error enters pure ◌>>=◌
lost-sends ccfg scan _ (no_root p) = refl
lost-sends ccfg scan _ (no_entries d inside h) = rw h refl

handle_list-lost :
    (ccfg : ClientConfig) (scan : ScanConfig) (trees : Bytes → Tree)
    → IsLost (trees ccfg.backup_dir)
    → handle_list append_message ccfg scan trees (record { root = [] }) []
      ≡ (stopped (returned none), batch_message true [] ∷ [])
unfolding handle_list scan_tree list_root flush write_msg append_message ◌>>=◌ pure bytes_eq
    encode_list_batch
handle_list-lost ccfg scan trees h = rw (lost-sends ccfg scan (trees ccfg.backup_dir) h) refl

-- A source that is not found, or cannot be read, empties the server's copy. When the root of the client's
-- SOURCE_DIR is refused by Lstat, or its entries by ReadDir, handleList returns no error and sends one
-- batch that is empty and marked as the last; loadList succeeds with a list of no files, and
-- SelectTrashBatch then takes every file of the index, in its order, for deleted by the client. No
-- message is refused.
pub load_list-lost_source :
    (closed : IoError) (lower : Bytes → Bytes) (ccfg : ClientConfig) (scan : ScanConfig)
    (trees : Bytes → Tree) (s : Control) (limit : ℕ) (files : List FileRow)
    → IsLost (trees ccfg.backup_dir)
    → s.incoming ≡ (handle_list append_message ccfg scan trees (record { root = [] }) []).1
    → (handle_list append_message ccfg scan trees (record { root = [] }) []
        ≡ (stopped (returned none), batch_message true [] ∷ []))
      × ((load_list closed none lower [] s ≡ (went 0, loaded closed lower ccfg scan [] s))
          × (select_trash_batch limit files (loaded closed lower ccfg scan [] s).client
              ≡ map to_candidate (take limit files)))
unfolding select_trash_batch
load_list-lost_source closed lower ccfg scan trees s limit files is_lost answer =
    let none_listed = lost-listed ccfg scan (trees ccfg.backup_dir) is_lost in
    let loads =
      load_list-handle_list closed lower ccfg scan trees s
        (subst (All FileEntryIsValid) (sym none_listed) tt) answer in
    (
      handle_list-lost ccfg scan trees is_lost,
      (
        loads
            ∙ ap
                (λ es. (
                  went (length (client_rows closed none lower es)),
                  loaded closed lower ccfg scan (client_rows closed none lower es) s,
                ))
                none_listed,
        ap (λ l. map to_candidate (take limit l)) (where_rows-gone files),
      ),
    )
