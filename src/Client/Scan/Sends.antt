-- ===== src/Client/Scan/Sends.antt =====
-- What handleList sends: the files that can be listed, once and in order, in batches.
use backuper.Prelude.{
  ◌+◌, ◌≡◌, ◌<◌, refl, sym, ap, ◌∙◌, Bool, true, false, Option, none, some, Bytes, bytes_eq, List,
  [], ◌∷◌, ◌++◌, map, map-append, length, length-append, leb, All, All-append, arith, Bool-cases,
  inl, inr, if◌then◌else◌, append_assoc, append-nil,
}
use backuper.Prelude.Steps.{stopped, went, Steps, ◌>>=◌, pure, step-went}
use backuper.Protocol.Msg
use backuper.Protocol.Frame.{Message}
use backuper.Protocol.Messages.Lists.{FileEntry, encode_list_batch}
use backuper.Protocol.Paths.{clean_rel}
use backuper.Client.{ClientConfig, Ended, returned, write_msg, append_message}
use backuper.Client.Scan.{
  list_batch_size, ScanConfig, EntryType, regular, symlink, irregular, Found, Entry, visit_error,
  Tree, nothing, lost, leaf, node, Walk, included, flush, add_entry, add_regular, visit_entry,
  enters, walk, scan_tree, list_root, handle_list,
}

abbrev pub batch_message : Bool → List FileEntry → Message
batch_message last entries = record {
  msg_type = Msg.list_batch;
  payload = encode_list_batch (record { is_last = last; entries = entries });
}

abbrev pub joined_batches : List (List FileEntry) → List FileEntry
joined_batches [] = []
joined_batches (b ∷ bs) = b ++ joined_batches bs

joined_batches-append :
    (bs cs : List (List FileEntry))
    → joined_batches (bs ++ cs) ≡ joined_batches bs ++ joined_batches cs
joined_batches-append [] cs = refl
joined_batches-append (b ∷ bs) cs =
    ap (λ l. b ++ l) (joined_batches-append bs cs)
    ∙ sym (append_assoc b (joined_batches bs) (joined_batches cs))

abbrev pub IsBatch : List FileEntry → Type 0
IsBatch b = length b ≡ list_batch_size

module _ (cfg : ClientConfig) (scan : ScanConfig) where
  -- what an entry adds to the list
  abbrev listed_info : Bytes → Option Found → List FileEntry
  listed_info rel none = []
  listed_info rel (some i) = record { path = clean_rel rel; size = i.size; mtime = i.mtime } ∷ []

  abbrev listed_rel : Entry → Option Bytes → List FileEntry
  listed_rel e none = []
  listed_rel e (some rel) = if included scan rel e.name then listed_info rel e.info else []

  abbrev listed_entry : Entry → EntryType → List FileEntry
  listed_entry e regular = listed_rel e (scan.to_rel cfg.backup_dir e.path)
  listed_entry e symlink = []
  listed_entry e irregular = []

  -- The files of a tree: the regular files below directories that are entered, whose path Rel can make
  -- relative, which the masks let through, and for which Info gives the size and the time.
  abbrev pub listed : Tree → List FileEntry
  listed nothing = []
  listed (lost p) = []
  listed (leaf e rest) = listed_entry e e.entry_type ++ listed rest
  listed (node d inside rest) =
      (if enters append_message cfg scan d then listed inside else []) ++ listed rest

  -- A step that adds `more` to the list, in batches of which the last is not full.
  record Adds (m : Steps (Walk (List Message)) Ended Unit) (more : List FileEntry)
      (s : Walk (List Message)) : Type 0 where
    batches : List (List FileEntry)
    last : List FileEntry
    run :
        m s ≡ (went tt, record { conn = s.conn ++ map (batch_message false) batches; batch = last })
    complete : joined_batches batches ++ last ≡ s.batch ++ more
    all_full : All IsBatch batches
    not_full : length last < list_batch_size

  Adds-none : (s : Walk (List Message)) → length s.batch < list_batch_size → Adds (pure tt) [] s
  unfolding pure
  Adds-none s small = record {
    batches = [];
    last = s.batch;
    run = ap (λ l. (went tt, record { conn = l; batch = s.batch })) (sym (append-nil s.conn));
    complete = sym (append-nil s.batch);
    all_full = tt;
    not_full = small;
  }

  -- A step and the rest of the walk, which starts where the step has ended.
  Adds-then :
      (m rest : Steps (Walk (List Message)) Ended Unit) (more others : List FileEntry)
      (s : Walk (List Message))
      → Adds m more s
      → ((s' : Walk (List Message)) → length s'.batch < list_batch_size → Adds rest others s')
      → Adds (m >>= λ u. rest) (more ++ others) s
  Adds-then m rest more others s a next =
      let s' : Walk (List Message) = record {
        conn = s.conn ++ map (batch_message false) a.batches;
        batch = a.last;
      } in
      let b = next s' a.not_full in
      record {
        batches = a.batches ++ b.batches;
        last = b.last;
        run =
            step-went m (λ u. rest) s s' tt a.run
            ∙ b.run
            ∙ ap (λ l. (went tt, record { conn = l; batch = b.last }))
                (append_assoc s.conn (map (batch_message false) a.batches)
                    (map (batch_message false) b.batches)
                  ∙ ap (λ l. s.conn ++ l)
                      (sym (map-append (batch_message false) a.batches b.batches)));
        complete =
            ap (λ l. l ++ b.last) (joined_batches-append a.batches b.batches)
            ∙ append_assoc (joined_batches a.batches) (joined_batches b.batches) b.last
            ∙ ap (λ l. joined_batches a.batches ++ l) b.complete
            ∙ sym (append_assoc (joined_batches a.batches) a.last others)
            ∙ ap (λ l. l ++ others) a.complete
            ∙ append_assoc s.batch more others;
        all_full = All-append IsBatch a.batches b.batches a.all_full b.all_full;
        not_full = b.not_full;
      }

  add_entry-Adds :
      (e : FileEntry) (s : Walk (List Message))
      → length s.batch < list_batch_size
      → Adds (add_entry append_message cfg scan e) (e ∷ []) s
  unfolding add_entry flush write_msg append_message
  add_entry-Adds e s small =
      let batch : List FileEntry = s.batch ++ e ∷ [] in
      let grown : length batch ≡ length s.batch + 1 = length-append s.batch (e ∷ []) in
      elim (Bool-cases (leb list_batch_size (length batch))) [
        | inl full ↦ record {
          batches = batch ∷ [];
          last = [];
          run = rw full refl;
          complete = append-nil (batch ++ []) ∙ append-nil batch;
          all_full = (ground arith, tt);
          not_full = omega arith;
        }
        | inr open_ ↦ record {
          batches = [];
          last = batch;
          run = rw (open_, append-nil s.conn) refl;
          complete = refl;
          all_full = tt;
          not_full = ground arith;
        }
      ]

  add_regular-Adds :
      (e : Entry) (rel : Option Bytes) (s : Walk (List Message))
      → length s.batch < list_batch_size
      → Adds (add_regular append_message cfg scan e rel) (listed_rel e rel) s
  unfolding add_regular
  add_regular-Adds e none s small = Adds-none s small
  add_regular-Adds e (some rel) s small = elim (Bool-cases (included scan rel e.name)) [
    | inl let_in ↦ rw let_in (by_info e.info)
    | inr out ↦ rw out (Adds-none s small)
  ]
    where
      by_info :
          (i : Option Found)
          → Adds
              (elim i [
                | none ↦ pure tt
                | some i ↦
                    add_entry append_message cfg scan
                      (record { path = clean_rel rel; size = i.size; mtime = i.mtime })
              ])
              (listed_info rel i)
              s
      by_info none = Adds-none s small
      by_info (some i) =
          add_entry-Adds (record { path = clean_rel rel; size = i.size; mtime = i.mtime }) s small

  visit_entry-Adds :
      (e : Entry) (s : Walk (List Message))
      → length s.batch < list_batch_size
      → Adds (visit_entry append_message cfg scan e) (listed_entry e e.entry_type) s
  unfolding visit_entry
  visit_entry-Adds e s small = by_type e.entry_type
    where
      by_type :
          (k : EntryType)
          → Adds
              (elim k [
                | symlink ↦ pure tt
                | irregular ↦ pure tt
                | regular ↦
                    add_regular append_message cfg scan e (scan.to_rel cfg.backup_dir e.path)
              ])
              (listed_entry e k)
              s
      by_type symlink = Adds-none s small
      by_type irregular = Adds-none s small
      by_type regular = add_regular-Adds e (scan.to_rel cfg.backup_dir e.path) s small

  walk-Adds :
      (tree : Tree) (s : Walk (List Message))
      → length s.batch < list_batch_size
      → Adds (walk append_message cfg scan tree) (listed tree) s
  unfolding walk visit_error
  walk-Adds nothing s small = Adds-none s small
  walk-Adds (lost p) s small = Adds-none s small
  walk-Adds (leaf e rest) s small =
      Adds-then (visit_entry append_message cfg scan e) (walk append_message cfg scan rest)
        (listed_entry e e.entry_type) (listed rest) s (visit_entry-Adds e s small) (walk-Adds rest)
  walk-Adds (node d inside rest) s small =
      Adds-then _ (walk append_message cfg scan rest)
        (if enters append_message cfg scan d then listed inside else []) (listed rest) s
        (entered (enters append_message cfg scan d) (walk-Adds inside s small)) (walk-Adds rest)
    where
      entered :
          (b : Bool)
          → Adds (walk append_message cfg scan inside) (listed inside) s
          → Adds
              (elim b [
                | true ↦ walk append_message cfg scan inside
                | false ↦ visit_error append_message cfg scan
              ])
              (if b then listed inside else [])
              s
      entered true a = a
      entered false a = Adds-none s small

  -- The answer to LIST_REQ for the whole source lists, once each and in the order of the walk, the
  -- regular files below the directories that are entered (readable, and not excluded), whose path Rel
  -- can make relative, which the masks let through, and for which Info gives a size and a time; a file
  -- without one of these is left out. It is sent in batches of exactly 10000 entries, and one last
  -- batch of fewer, which alone has the mark of the last. No message is refused.
  pub handle_list-sends :
      (trees : Bytes → Tree)
      → (batches : List (List FileEntry)) × ((last : List FileEntry) × ((handle_list append_message
                cfg scan trees
                (record { root = [] })
                []
              ≡ (
                stopped (returned none),
                map (batch_message false) batches ++ batch_message true last ∷ [],
              ))
            × ((joined_batches batches ++ last ≡ listed (trees cfg.backup_dir))
                × (All IsBatch batches × (length last < list_batch_size)))))
  unfolding handle_list scan_tree list_root flush write_msg append_message ◌>>=◌ pure bytes_eq
      encode_list_batch
  handle_list-sends trees =
      let a = walk-Adds (trees cfg.backup_dir) (record { conn = []; batch = [] }) (omega arith) in
      (a.batches, (a.last, (rw a.run refl, (a.complete, (a.all_full, a.not_full)))))
