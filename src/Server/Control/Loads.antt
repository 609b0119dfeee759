-- ===== src/Server/Control/Loads.antt =====
-- loadList against handleList: the table client_files is the client's list.
use backuper.Prelude.{
  All-append-left, All-append-right, ◌≡◌, ◌<◌, ◌^◌, refl, sym, ap, ◌∙◌, subst, Bool, true, false,
  not, Option, none, Bytes, bytes_eq, List, [], ◌∷◌, ◌++◌, map, length, All, where_rows, arith,
  Bool-cases, inl, inr, if◌then◌else◌, append_assoc, append-nil,
}
use backuper.Prelude.Steps.{went, ◌>>=◌}
use backuper.Protocol.Msg
use backuper.Protocol.Frame.{IoError, Message}
use backuper.Protocol.Conn.{expect}
use backuper.Protocol.Messages.{encode_list_req}
use backuper.Protocol.Messages.Lists.{FileEntry, ListBatch, encode_list_batch, parse_list_batch}
use backuper.Protocol.Messages.Lists.RoundTrip.{FileEntryIsValid, parse_list_batch-encode}
use backuper.Protocol.Paths.{clean_rel}
use backuper.Store.{ClientRow}
use backuper.Store.Writers.{
  Writer, append_row, begin_rows, add_row, add_rows, add_client_row, commit_rows, count_rows,
}
use backuper.Store.Writers.Laws.{insert_all, add_rows-commit-rollback}
use backuper.Client.{ClientConfig, append_message}
use backuper.Client.Scan.{list_batch_size, ScanConfig, Tree, handle_list}
use backuper.Client.Scan.Sends.{batch_message, joined_batches, IsBatch, listed, handle_list-sends}
use backuper.Server.Control.{
  Control, client_row, add_entries, batch_of, load_batches, load_list, write_msg,
}

insert_all-append_row : (rs rows : List ClientRow) → insert_all append_row rs rows ≡ rows ++ rs
insert_all-append_row [] rows = sym (append-nil rows)
insert_all-append_row (r ∷ rs) rows =
    insert_all-append_row rs (rows ++ r ∷ []) ∙ append_assoc rows (r ∷ []) rs

module _ (closed : IoError) (refused : Option IoError) (lower : Bytes → Bytes) where
  batch_of-batch_message :
      (last : Bool) (entries : List FileEntry)
      → length entries < 2 ^ 32
      → All FileEntryIsValid entries
      → batch_of closed refused lower (batch_message last entries)
        ≡ went (record { is_last = last; entries = entries })
  unfolding batch_of expect
  batch_of-batch_message last entries small valid =
      let b : ListBatch = record { is_last = last; entries = entries } in
      rw
        (ap parse_list_batch (sym (append-nil (encode_list_batch b)))
          ∙ parse_list_batch-encode b [] (record { count_fits = small; entries_fit = valid }))
        refl

  -- an entry whose path is not empty
  abbrev pub is_named : FileEntry → Bool
  is_named e = not (bytes_eq (clean_rel e.path) [])

  abbrev pub client_rows : List FileEntry → List ClientRow
  client_rows es = map (client_row closed refused lower) (where_rows is_named es)

  add_entries-add_rows :
      (es : List FileEntry) (w : Writer ClientRow)
      → add_entries closed refused lower es w ≡ add_rows append_row (client_rows es) w
  unfolding add_entries add_rows add_client_row
  add_entries-add_rows [] w = refl
  add_entries-add_rows (e ∷ es) w = elim (Bool-cases (bytes_eq (clean_rel e.path) [])) [
    | inl empty ↦ rw empty (add_entries-add_rows es w)
    | inr named ↦
        rw named
          (add_entries-add_rows es (add_row append_row (client_row closed refused lower e) w))
  ]

  add_entries-append :
      (es fs : List FileEntry) (w : Writer ClientRow)
      → add_entries closed refused lower (es ++ fs) w
        ≡ add_entries closed refused lower fs (add_entries closed refused lower es w)
  unfolding add_entries
  add_entries-append [] fs w = refl
  add_entries-append (e ∷ es) fs w = add_entries-append es fs (
      if bytes_eq (clean_rel e.path) []
      then w
      else add_client_row (client_row closed refused lower e) w)

  load_batches-last :
      (m : Message) (ms : List Message) (entries : List FileEntry) (w : Writer ClientRow)
      (s : Control)
      → batch_of closed refused lower m ≡ went (record { is_last = true; entries = entries })
      → load_batches closed refused lower (m ∷ ms) w s ≡ (
        went (count_rows (add_entries closed refused lower entries w)),
        record s {
          incoming = ms;
          client = commit_rows (add_entries closed refused lower entries w);
        },
      )
  unfolding load_batches
  load_batches-last m ms entries w s h = rw (h, load_batches) refl

  load_batches-next :
      (m : Message) (ms : List Message) (entries : List FileEntry) (w : Writer ClientRow)
      (s : Control)
      → batch_of closed refused lower m ≡ went (record { is_last = false; entries = entries })
      → load_batches closed refused lower (m ∷ ms) w s
        ≡ load_batches closed refused lower ms (add_entries closed refused lower entries w) s
  unfolding load_batches
  load_batches-next m ms entries w s h = rw (h, load_batches) refl

  -- The batches are loaded to the last one.
  load_batches-loads :
      (batches : List (List FileEntry)) (last : List FileEntry) (rest : List Message)
      (w : Writer ClientRow) (s : Control)
      → All IsBatch batches
      → length last < list_batch_size
      → All FileEntryIsValid (joined_batches batches ++ last)
      → let w' = add_entries closed refused lower (joined_batches batches ++ last) w in
        load_batches closed refused lower
          (map (batch_message false) batches ++ batch_message true last ∷ rest)
          w
          s
        ≡ (went (count_rows w'), record s { incoming = rest; client = commit_rows w' })
  load_batches-loads [] last rest w s full small valid =
      load_batches-last (batch_message true last) rest last w s
        (batch_of-batch_message true last (omega arith) valid)
  load_batches-loads (b ∷ batches) last rest w s full small valid =
      let grouped = append_assoc b (joined_batches batches) last in
      let all : All FileEntryIsValid (b ++ (joined_batches batches ++ last)) =
        subst (λ l. All FileEntryIsValid l) grouped valid in
      let few : length b < 2 ^ 32 = omega (arith, full.0) in
      let ms = map (batch_message false) batches ++ batch_message true last ∷ rest in
      let w1 = add_entries closed refused lower b w in
      let added =
        ap (λ l. add_entries closed refused lower l w) grouped
        ∙ add_entries-append b (joined_batches batches ++ last) w in
      load_batches-next (batch_message false b) ms b w s
        (batch_of-batch_message false b few (All-append-left FileEntryIsValid b _ all))
      ∙ load_batches-loads batches last rest w1 s full.1 small
          (All-append-right FileEntryIsValid b _ all)
      ∙ ap (λ v. (went (count_rows v), record s { incoming = rest; client = commit_rows v }))
          (sym added)

  add_entries-begin :
      (es : List FileEntry)
      → let w = add_entries closed refused lower es (begin_rows []) in
        (commit_rows w ≡ client_rows es) × (count_rows w ≡ length (client_rows es))
  add_entries-begin es =
      let laws = add_rows-commit-rollback append_row (client_rows es) [] in
      (
        ap commit_rows (add_entries-add_rows es (begin_rows []))
            ∙ laws.0
            ∙ insert_all-append_row (client_rows es) [],
        ap count_rows (add_entries-add_rows es (begin_rows [])) ∙ laws.1,
      )

module _ (closed : IoError) (lower : Bytes → Bytes) (ccfg : ClientConfig) (scan : ScanConfig) where
  -- the request for the list of the whole source
  abbrev pub list_request : Message
  list_request = record {
    msg_type = Msg.list_req;
    payload = encode_list_req (record { root = [] });
  }

  -- the state once the list is loaded
  abbrev pub loaded : List ClientRow → Control → Control
  loaded rows s = record { incoming = []; sent = s.sent ++ list_request ∷ []; client = rows }

  -- After loadList, client_files is the list that the client's handleList makes. When the client
  -- answers with handleList and nothing is refused, the table holds one row for each regular file
  -- that the walk of the source finds in directories that are entered, whose path Rel can make
  -- relative, which the masks let through and for which Info gives a size and a time, in the order of
  -- the walk and whatever the batches and the transactions, nothing that was in it before, and the
  -- result is the number of its rows. The paths, sizes and times fit their fields; entries whose path
  -- CleanRel makes empty are left out.
  pub load_list-handle_list :
      (trees : Bytes → Tree) (s : Control)
      → All FileEntryIsValid (listed ccfg scan (trees ccfg.backup_dir))
      → s.incoming ≡ (handle_list append_message ccfg scan trees (record { root = [] }) []).1
      → let rows = client_rows closed none lower (listed ccfg scan (trees ccfg.backup_dir)) in
        load_list closed none lower [] s ≡ (went (length rows), loaded rows s)
  unfolding load_list ◌>>=◌ write_msg
  load_list-handle_list trees s valid answer =
      let (batches, (last, (sent, (complete, (full, small))))) =
        handle_list-sends ccfg scan trees in
      let files = listed ccfg scan (trees ccfg.backup_dir) in
      let s1 : Control = record {
        incoming = s.incoming;
        sent = s.sent ++ list_request ∷ [];
        client = [];
      } in
      let laws = add_entries-begin closed none lower files in
      ap (λ ms. load_batches closed none lower ms (begin_rows []) s1) (answer ∙ ap (λ q. q.1) sent)
      ∙ load_batches-loads closed none lower batches last [] (begin_rows []) s1 full small
          (subst (λ l. All FileEntryIsValid l) (sym complete) valid)
      ∙ ap
          (λ l. (
            went (count_rows (add_entries closed none lower l (begin_rows []))),
            loaded (commit_rows (add_entries closed none lower l (begin_rows []))) s,
          ))
          complete
      ∙ ap
          (λ n.
            (went n, loaded (commit_rows (add_entries closed none lower files (begin_rows []))) s))
          laws.1
      ∙ ap (λ rows. (went (length (client_rows closed none lower files)), loaded rows s)) laws.0
