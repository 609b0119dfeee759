-- ===== src/Client/Keeps.antt =====
-- What the handlers of GET, GET_DELTA and LIST (internal/client/fileserver.go, scanner.go) leave as it
-- is: they only send messages.
use Prim.Native.Nat.{zero, suc}
use backuper.Prelude.{
  ℕ, ◌+◌, leb, ◌++◌, ◌*◌, Bool, true, false, Option, none, some, Bytes, ltb, List, [], ◌∷◌, length,
  get_elem?, if◌then◌else◌,
}
use backuper.Prelude.Steps.{Done, stopped, went, Steps, ◌>>=◌, pure, stop, check, Ends, Ends-then}
use backuper.Protocol.Frame.{IoError, Message}
use backuper.Protocol.Messages.{ListReq, GetReq}
use backuper.Protocol.Messages.Lists.{DeltaReq, Hash, FileEntry}
use backuper.Protocol.Paths.{JoinError, Joined, ok, err}
use backuper.Blocks.{block_len}
use backuper.Chunks.{chunk_loop, send_read, after_read}
use backuper.Client.{
  ClientConfig, OpenError, FileStat, OpenFile, Opens, ReadError, at_eof, read_failed, Ended,
  out_of_fuel, after_send, write_msg, finish_with, finish_error, fail_error, path_or_error,
  file_or_error, stat_or_error, finish_if,
}
use backuper.Client.Get.{wait_for, send_data, get_loop, seek_to, handle_get}
use backuper.Client.Delta.{send_block, whole_block, delta_blocks, handle_delta}
use backuper.Client.Scan.{
  ScanConfig, Tree, nothing, lost, visit_error, leaf, node, list_batch_size, EntryType, Entry,
  regular, symlink, irregular, Walk, after_flush, flush, add_entry, add_regular, visit_entry,
  enters, walk, ended, scan_tree, list_root, handle_list,
}

-- A step after which P holds if it held before.
pub record Keeps {S E A : Type 0} (P : S → Type 0) (m : Steps S E A) : Type 0 where
  pub holds : (s : S) → P s → Ends P P (m s)

pub then-Keeps :
    {S E A B : Type 0} (P : S → Type 0) (m : Steps S E A) (f : A → Steps S E B)
    → Keeps P m
    → ((a : A) → Keeps P (f a))
    → Keeps P (m >>= f)
then-Keeps P m f h next = record {
  holds = λ s p. Ends-then P P P m f s (h.holds s p) (λ a. (next a).holds);
}

pub pure-Keeps :
    {S E A : Type 0} (P : S → Type 0) (a : A) → Keeps {S = S} {E = E} {A = A} P (pure a)
unfolding pure
pure-Keeps P a = record { holds = λ s p. p }

pub check-Keeps : {S E X : Type 0} (P : S → Type 0) (x : Option X) (f : X → E) → Keeps P (check x f)
unfolding check
check-Keeps P none f = record { holds = λ s p. p }
check-Keeps P (some x) f = record { holds = λ s p. p }

pub if-Keeps :
    {S E A : Type 0} (P : S → Type 0) (b : Bool) (m n : Steps S E A)
    → Keeps P m
    → Keeps P n
    → Keeps P (if b then m else n)
if-Keeps P true m n h k = h
if-Keeps P false m n h k = k

pub if-Ends :
    {S E A : Type 0} (P : S → Type 0) (b : Bool) (q r : Done E A × S)
    → Ends P P q
    → Ends P P r
    → Ends P P (if b then q else r)
if-Ends P true q r h k = h
if-Ends P false q r h k = k

pub cases-Keeps :
    {S E A : Type 0} (P : S → Type 0) (b : Bool) (m n : Steps S E A)
    → Keeps P m
    → Keeps P n
    → Keeps P (elim b [ false ↦ m | true ↦ n ])
cases-Keeps P false m n h k = h
cases-Keeps P true m n h k = k

pub option-Keeps :
    {S E A X : Type 0} (P : S → Type 0) (x : Option X) (m : Steps S E A) (f : X → Steps S E A)
    → Keeps P m
    → ((a : X) → Keeps P (f a))
    → Keeps P (elim x [ none ↦ m | some a ↦ f a ])
option-Keeps P none m f h k = h
option-Keeps P (some a) m f h k = k a

module _ {W : Type 0} (send : Message → W → W × Option IoError) (P : W → Type 0)
    (on_send : (m : Message) (w : W) → P w → P (send m w).0) where
  after_send-Keeps : (q : W × Option IoError) → P q.0 → Ends P P (after_send send q)
  after_send-Keeps (w, none) p = p
  after_send-Keeps (w, some e) p = p

  pub write_msg-Keeps : (t : ℕ) (b : Bytes) → Keeps P (write_msg send t b)
  unfolding write_msg
  write_msg-Keeps t b = record { holds = λ w p. after_send-Keeps _ (on_send _ w p) }

  pub finish_with-Keeps : {A : Type 0} (t : ℕ) (b : Bytes) → Keeps P (finish_with send {A = A} t b)
  unfolding finish_with
  finish_with-Keeps t b = record { holds = λ w p. on_send _ w p }

  pub finish_error-Keeps :
      {A : Type 0} (code : ℕ) (text : Bytes) → Keeps P (finish_error send {A = A} code text)
  unfolding finish_error
  finish_error-Keeps code text = finish_with-Keeps _ _

  fail_error-Keeps :
      {A : Type 0} (code : ℕ) (text : Bytes) (e : IoError)
      → Keeps P (fail_error send {A = A} code text e)
  unfolding fail_error
  fail_error-Keeps code text e = record { holds = λ w p. on_send _ w p }

  pub path_or_error-Keeps :
      (text : JoinError → Bytes) (label : Bytes) (j : Joined)
      → Keeps P (path_or_error send text label j)
  unfolding path_or_error pure
  path_or_error-Keeps text label (ok full) = record { holds = λ w p. p }
  path_or_error-Keeps text label (err e) = finish_error-Keeps _ _

  file_or_error-Keeps :
      (name : Bytes) (f : Done OpenError OpenFile) → Keeps P (file_or_error send name f)
  unfolding file_or_error pure
  file_or_error-Keeps name (went f) = record { holds = λ w p. p }
  file_or_error-Keeps name (stopped e) = finish_error-Keeps _ _

  stat_or_error-Keeps :
      (name : Bytes) (st : Done Bytes FileStat) → Keeps P (stat_or_error send name st)
  unfolding stat_or_error pure
  stat_or_error-Keeps name (went st) = record { holds = λ w p. p }
  stat_or_error-Keeps name (stopped t) = finish_error-Keeps _ _

  finish_if-Keeps : (b : Bool) (code : ℕ) (text : Bytes) → Keeps P (finish_if send b code text)
  unfolding finish_if
  finish_if-Keeps b code text = if-Keeps P b _ _ (finish_error-Keeps code text) (pure-Keeps P tt)

  module _ (cfg : ClientConfig) (opens : Opens) (wait : ℕ → ℕ → Option IoError) where
    send_data-Keeps :
        (position : ℕ) (b : Bytes) → Keeps P (send_data send cfg opens wait position b)
    unfolding send_data wait_for
    send_data-Keeps position b = then-Keeps P _ _ (check-Keeps P _ _) (λ u. write_msg-Keeps _ _)

    after_read-Keeps :
        (e : Option ReadError) (next : Steps W Ended Unit) (on_error : Bytes → Steps W Ended Unit)
        (send_part : ℕ → Bytes → Steps W Ended Unit)
        → Keeps P next
        → ((t : Bytes) → Keeps P (on_error t))
        → Keeps P (after_read cfg.chunk_size out_of_fuel send_part on_error e next)
    unfolding after_read
    after_read-Keeps none next on_error send_part h k = h
    after_read-Keeps (some at_eof) next on_error send_part h k = pure-Keeps P tt
    after_read-Keeps (some (read_failed t)) next on_error send_part h k = k t

    get_loop-Keeps :
        (fuel : ℕ) (name : Bytes) (f : OpenFile) (remaining position : ℕ)
        → Keeps P (get_loop send cfg opens wait fuel name f remaining position)
    unfolding get_loop chunk_loop send_read stop
    get_loop-Keeps zero name f remaining position = record { holds = λ w p. p }
    get_loop-Keeps (suc fuel) name f remaining position =
        cases-Keeps P (ltb 0 remaining) _ _ (pure-Keeps P tt) (
          then-Keeps P _ _ (if-Keeps P _ _ _ (send_data-Keeps _ _) (pure-Keeps P tt)) (λ u.
            after_read-Keeps _ _ _ (send_data send cfg opens wait) (get_loop-Keeps fuel name f _ _)
              (λ t. fail_error-Keeps _ _ _)))

    seek_to-Keeps : (f : OpenFile) (offset : ℕ) → Keeps P (seek_to send cfg opens wait f offset)
    unfolding seek_to
    seek_to-Keeps f offset =
        cases-Keeps P (ltb 0 offset) _ _ (pure-Keeps P tt)
          (option-Keeps P (f.seek offset) _ _ (pure-Keeps P tt) (λ t. fail_error-Keeps _ _ _))

    pub handle_get-Keeps :
        (fuel : ℕ) (req : GetReq) → Keeps P (handle_get send cfg opens wait fuel req)
    unfolding handle_get
    handle_get-Keeps fuel req = then-Keeps P _ _ (path_or_error-Keeps _ _ _) (λ full.
        then-Keeps P _ _ (file_or_error-Keeps _ _) (λ f.
          then-Keeps P _ _ (stat_or_error-Keeps _ _) (λ st.
            then-Keeps P _ _ (finish_if-Keeps _ _ _) (λ u.
              then-Keeps P _ _ (finish_if-Keeps _ _ _) (λ v.
                then-Keeps P _ _ (write_msg-Keeps _ _) (λ x.
                  then-Keeps P _ _ (seek_to-Keeps f _) (λ y.
                    then-Keeps P _ _ (get_loop-Keeps fuel _ f _ _)
                      (λ z. finish_with-Keeps _ _))))))))

    module _ (sha256 : Bytes → Hash) where
      send_block-Keeps :
          (position : ℕ) (h : Option Hash) (b : Bytes)
          → Keeps P (send_block send cfg opens wait sha256 position h b)
      unfolding send_block
      send_block-Keeps position h b =
          if-Keeps P _ _ _ (write_msg-Keeps _ _)
            (then-Keeps P _ _ (check-Keeps P _ _) (λ u. write_msg-Keeps _ _))

      whole_block-Keeps :
          (name : Bytes) (bl : ℕ) (b : Bytes) (e : Option ReadError)
          → Keeps P (whole_block send cfg opens wait sha256 name bl (b, e))
      unfolding whole_block
      whole_block-Keeps name bl b e = if-Keeps P _ _ _ (pure-Keeps P b) (fail_error-Keeps _ _ _)

      delta_blocks-Keeps :
          (req : DeltaReq) (f : OpenFile) (size left i : ℕ)
          → Keeps P (delta_blocks send cfg opens wait sha256 req f size left i)
      unfolding delta_blocks
      delta_blocks-Keeps req f size zero i = pure-Keeps P tt
      delta_blocks-Keeps req f size (suc left) i =
          let bl = block_len req.block_size size i in
          let (b, e) = f.read (i * req.block_size) bl in
          then-Keeps P _ _ (whole_block-Keeps req.path bl b e) (λ bytes.
            then-Keeps P _ _ (send_block-Keeps (i * req.block_size) (get_elem? req.hashes i) bytes)
              (λ u. delta_blocks-Keeps req f size left (i + 1)))

      pub handle_delta-Keeps :
          (req : DeltaReq) → Keeps P (handle_delta send cfg opens wait sha256 req)
      unfolding handle_delta
      handle_delta-Keeps req = then-Keeps P _ _ (path_or_error-Keeps _ _ _) (λ full.
          then-Keeps P _ _ (finish_if-Keeps _ _ _) (λ a.
            then-Keeps P _ _ (file_or_error-Keeps _ _) (λ f.
              then-Keeps P _ _ (stat_or_error-Keeps _ _) (λ st.
                then-Keeps P _ _ (finish_if-Keeps _ _ _) (λ b.
                  then-Keeps P _ _ (write_msg-Keeps _ _) (λ c.
                    then-Keeps P _ _ (delta_blocks-Keeps req f _ _ _)
                      (λ d. finish_with-Keeps _ _)))))))

  module _ (cfg : ClientConfig) (scan : ScanConfig) where
    abbrev OfConn : Walk W → Type 0
    OfConn s = P s.conn

    after_flush-Keeps :
        (batch : List FileEntry) (q : Done Ended Unit × W)
        → Ends P P q
        → Ends OfConn OfConn (after_flush send cfg scan batch q)
    after_flush-Keeps batch (stopped e, w) p = p
    after_flush-Keeps batch (went u, w) p = p

    flush-Keeps : (last : Bool) → Keeps OfConn (flush send cfg scan last)
    unfolding flush
    flush-Keeps last = record {
      holds = λ s p. after_flush-Keeps s.batch _ ((write_msg-Keeps _ _).holds s.conn p);
    }

    add_entry-Keeps : (e : FileEntry) → Keeps OfConn (add_entry send cfg scan e)
    unfolding add_entry
    add_entry-Keeps e = record {
      holds = λ s p.
          let s' = record s { batch = s.batch ++ e ∷ [] } in
          if-Ends OfConn (leb list_batch_size (length s'.batch)) (flush send cfg scan Bool.false s')
            (went tt, s') ((flush-Keeps Bool.false).holds s' p) p;
    }

    add_regular-Keeps :
        (e : Entry) (rel : Option Bytes) → Keeps OfConn (add_regular send cfg scan e rel)
    unfolding add_regular
    add_regular-Keeps e none = pure-Keeps OfConn tt
    add_regular-Keeps e (some rel) =
        if-Keeps OfConn _ _ _
          (option-Keeps OfConn e.info _ _ (pure-Keeps OfConn tt) (λ i. add_entry-Keeps _))
          (pure-Keeps OfConn tt)

    type-Keeps :
        (t : EntryType) (m : Steps (Walk W) Ended Unit)
        → Keeps OfConn m
        → Keeps OfConn (elim t [ symlink ↦ pure tt | irregular ↦ pure tt | regular ↦ m ])
    type-Keeps symlink m h = pure-Keeps OfConn tt
    type-Keeps irregular m h = pure-Keeps OfConn tt
    type-Keeps regular m h = h

    visit_entry-Keeps : (e : Entry) → Keeps OfConn (visit_entry send cfg scan e)
    unfolding visit_entry
    visit_entry-Keeps e =
        type-Keeps e.entry_type _ (add_regular-Keeps e (scan.to_rel cfg.backup_dir e.path))

    walk-Keeps : (t : Tree) → Keeps OfConn (walk send cfg scan t)
    unfolding walk visit_error
    walk-Keeps nothing = pure-Keeps OfConn tt
    walk-Keeps (lost p) = pure-Keeps OfConn tt
    walk-Keeps (leaf e rest) = then-Keeps OfConn _ _ (visit_entry-Keeps e) (λ u. walk-Keeps rest)
    walk-Keeps (node d inside rest) =
        then-Keeps OfConn _ _
          (cases-Keeps OfConn (enters send cfg scan d) _ _ (pure-Keeps OfConn tt)
            (walk-Keeps inside))
          (λ u. walk-Keeps rest)

    ended-Keeps :
        (q : Done Ended Unit × Walk W)
        → Ends OfConn OfConn q
        → Ends P P (ended send cfg scan {S = Unit} q)
    ended-Keeps (stopped e, s) p = p
    ended-Keeps (went u, s) p = p

    scan_tree-Keeps : (t : Tree) → Keeps P (scan_tree send cfg scan t)
    unfolding scan_tree
    scan_tree-Keeps t = record {
      holds = λ w p.
          ended-Keeps _
            ((then-Keeps OfConn _ _ (walk-Keeps t) (λ u. flush-Keeps Bool.true)).holds _ p);
    }

    list_root-Keeps : (root : Bytes) → Keeps P (list_root send cfg scan root)
    unfolding list_root
    list_root-Keeps root = if-Keeps P _ _ _ (pure-Keeps P _) (path_or_error-Keeps _ _ _)

    pub handle_list-Keeps :
        (trees : Bytes → Tree) (req : ListReq) → Keeps P (handle_list send cfg scan trees req)
    unfolding handle_list
    handle_list-Keeps trees req = then-Keeps P _ _ (list_root-Keeps _) (λ root. scan_tree-Keeps _)
