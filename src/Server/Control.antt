-- ===== src/Server/Control.antt =====
-- internal/server/control.go: the control connection. The lock around each method makes them one
-- after another.
pub mod Loads
pub mod Lost
pub mod Session
mod Tests
use backuper.Prelude.{
  ℕ, Bool, true, false, Option, none, some, Bytes, utf8, ◌++◌, bytes_eq, List, [], ◌∷◌,
  if◌then◌else◌,
}
use backuper.Prelude.Int.{ℤ, of_word}
use backuper.Prelude.Steps.{Done, stopped, went, Steps, ◌>>=◌, pure}
use backuper.Protocol.Msg
use backuper.Protocol.Err.{ProtoError}
use backuper.Protocol.Frame.{IoError, proto, FrameRead, Message}
use backuper.Protocol.Conn.{Expected, refused_with, got, expect}
use backuper.Protocol.Messages.{ListReq, encode_list_req}
use backuper.Protocol.Messages.Lists.{
  FileEntry, ListBatch, parse_list_batch, MountInfo, DiskResp, parse_disk_resp,
}
use backuper.Protocol.Paths.{clean_rel, norm_key}
use backuper.Store.{ClientRow}
use backuper.Store.Writers.{
  Writer, begin_rows, add_client_row, commit_rows, rollback_rows, count_rows,
}

-- The messages of the connection, and the table client_files.
pub record Control : Type 0 where
  pub incoming : List Message
  pub sent : List Message
  pub client : List ClientRow

-- alert.Disk
pub record Disk : Type 0 where
  pub name : Bytes
  pub total : ℕ
  pub free : ℕ

-- `closed` is the error of a connection with nothing more to read, `refused` the one of a write, if
-- it fails; `lower` is strings.ToLower.
module _ (closed : IoError) (refused : Option IoError) (lower : Bytes → Bytes) where
  abbrev write_outcome : Option IoError → Message → Steps Control IoError Unit
  write_outcome none m s = (went tt, record s { sent = s.sent ++ m ∷ [] })
  write_outcome (some e) m s = (stopped e, s)

  -- conn.WriteMsg
  unfoldable pub write_msg : ℕ → Bytes → Steps Control IoError Unit
  write_msg msg_type payload =
      write_outcome refused (record { msg_type = msg_type; payload = payload })

  abbrev frame : Message → FrameRead
  frame m = record { msg_type = m.msg_type; payload = m.payload; err = none; left = [] }

  abbrev outcome : Expected → Done IoError Bytes
  outcome (refused_with e) = stopped e
  outcome (got payload) = went payload

  -- conn.ReadExpect
  unfoldable pub read_expect : ℕ → Steps Control IoError Bytes
  unfolding expect
  read_expect expected s = elim s.incoming [
    | [] ↦ (stopped closed, s)
    | m ∷ ms ↦ (outcome (expect expected (frame m)), record s { incoming = ms })
  ]

  unfoldable pub ping : Steps Control IoError Unit
  unfolding ◌>>=◌ write_msg read_expect
  ping = do a ← write_msg Msg.ping []; payload ← read_expect Msg.pong; pure tt

  abbrev parsed : {A : Type 0} → A × Option ProtoError → Steps Control IoError A
  parsed (x, none) s = (went x, s)
  parsed (x, some e) s = (stopped (proto e), s)

  -- the first disk of the answer
  unfoldable pub first_disk : List MountInfo → Disk
  first_disk [] = record { name = utf8 "клиент"; total = 0; free = 0 }
  first_disk (m ∷ ms) = record { name = utf8 "клиент:" ++ m.mount; total = m.total; free = m.free }

  unfoldable pub disk : Steps Control IoError Disk
  unfolding ◌>>=◌ write_msg read_expect first_disk
  disk = do
    a ← write_msg Msg.disk_req []
    payload ← read_expect Msg.disk_resp
    resp ← parsed (parse_disk_resp payload)
    pure (first_disk resp.mounts)

  -- the row of an entry
  unfoldable pub client_row : FileEntry → ClientRow
  client_row e = record {
    relpath = clean_rel e.path;
    relpath_norm = norm_key lower (clean_rel e.path);
    size = of_word e.size;
    mtime = e.mtime;
  }

  -- the entries of a batch
  unfoldable pub add_entries : List FileEntry → Writer ClientRow → Writer ClientRow
  unfolding client_row add_client_row
  add_entries [] w = w
  add_entries (e ∷ es) w =
      add_entries es (if bytes_eq (clean_rel e.path) [] then w else add_client_row (client_row e) w)

  -- the next batch, from the message that has come
  abbrev parsed_batch : ListBatch × Option ProtoError → Done IoError ListBatch
  parsed_batch (b, none) = went b
  parsed_batch (b, some e) = stopped (proto e)

  abbrev payload_batch : Expected → Done IoError ListBatch
  payload_batch (refused_with e) = stopped e
  payload_batch (got payload) = parsed_batch (parse_list_batch payload)

  unfoldable pub batch_of : Message → Done IoError ListBatch
  unfolding expect
  batch_of m = payload_batch (expect Msg.list_batch (frame m))

  -- The loop, and the end of the writer: Commit after the last batch, Rollback on an error. The
  -- result is Count.
  unfoldable pub load_batches : List Message → Writer ClientRow → Steps Control IoError ℕ
  load_batches [] w s = (stopped closed, record s { incoming = []; client = rollback_rows w })
  load_batches (m ∷ ms) w s = elim (batch_of m) [
    | stopped e ↦ (stopped e, record s { incoming = ms; client = rollback_rows w })
    | went b ↦
        let w' = add_entries b.entries w in
        let rest = load_batches ms w' s in
        elim b.is_last [
          | true ↦ (went (count_rows w'), record s { incoming = ms; client = commit_rows w' })
          | false ↦ rest
        ]
  ]

  abbrev load_all : Steps Control IoError ℕ
  load_all s = load_batches s.incoming (begin_rows []) s

  -- ResetClientFiles empties the table once the request is sent.
  unfoldable pub load_list : Bytes → Steps Control IoError ℕ
  unfolding ◌>>=◌ write_msg load_batches
  load_list root = do
    a ← write_msg Msg.list_req (encode_list_req (record { root = root }))
    b ← (λ s. (went tt, record s { client = [] }))
    load_all
