-- ===== src/Transfer/Delta/Rebuilds.antt =====
-- A delta rebuilds the client's file from the old copy.
use Prim.Native.Nat.{zero, suc}
use backuper.Prelude.{
  ℕ, ◌+◌, ◌*◌, ◌≡◌, refl, sym, ap, ◌∙◌, false, none, some, Bytes, List, [], ◌∷◌, ◌++◌, length, take,
  drop, drop_all, ==_iff, arith, bytes_eq, Bool-cases, inl, inr, append_assoc, append-nil,
}
use backuper.Prelude.Int.{ℤ}
use backuper.Prelude.Steps.{went, ◌>>=◌, pure, step-went}
use backuper.Protocol.Frame.{IoError, Message, FrameRead}
use backuper.Protocol.Messages.Lists.{Hash}
use backuper.Store.{Task}
use backuper.Blocks.{block_len, read_block}
use backuper.Blocks.Laws.{Rounds, Rounds-next, Rounds-over, length-read_block, read_block-drop}
use backuper.Client.Delta.Answers.{
  payload_bytes, HashesOld, NoCollision, kept, block_message, answers, kept-same,
}
use backuper.Files.{put, put-same, put-other}
use backuper.Transfer.Local.{Local, TransferConfig, Faults, no_faults, read_msg}
use backuper.Transfer.Download.{contents_of, set_part, write_part}
use backuper.Transfer.Download.Completes.{part}
use backuper.Transfer.Delta.{keep_block, literal_block, take_block, take_blocks}

module _ (closed : IoError) (cfg : TransferConfig) (now : ℤ) (t : Task) (old new : Bytes) where
  abbrev pub faults : Faults
  faults = no_faults closed

  abbrev pub bs : ℕ
  bs = cfg.delta_block_size

  -- the part with the bytes of a block behind it
  abbrev grown : Bytes → Local → Local
  grown bytes s = record s {
    files =
        put (part closed cfg now t)
          (some (record {
            contents = contents_of faults cfg now t (s.files (part closed cfg now t)) ++ bytes;
            mtime = now;
          }))
          s.files;
  }

  keep_block-grown :
      (i position : ℕ) (s : Local)
      → read_block bs (length new) i new ≡ read_block bs (length old) i old
      → keep_block faults cfg now t old (length new) i position s
        ≡ (went 0, grown (read_block bs (length new) i new) s)
  unfolding keep_block write_part set_part ◌>>=◌ pure
  keep_block-grown i position s same =
      let lengths : block_len bs (length new) i ≡ block_len bs (length old) i =
        sym (length-read_block bs i new) ∙ ap length same ∙ length-read_block bs i old in
      let bytes : take (block_len bs (length new) i) (drop (i * bs) old)
          ≡ read_block bs (length new) i new =
        unfold read_block in ap (λ n. take n (drop (i * bs) old)) lengths ∙ sym same in
      let whole = (==_iff _ (block_len bs (length new) i)).1 (length-read_block bs i new) in
      rw (bytes, whole) refl

  literal_block-grown :
      (i position : ℕ) (s : Local)
      → literal_block faults cfg now t (length new) i position (read_block bs (length new) i new) s
        ≡ (
          went (length (read_block bs (length new) i new)),
          grown (read_block bs (length new) i new) s,
        )
  unfolding literal_block write_part set_part ◌>>=◌ pure
  literal_block-grown i position s =
      let whole = (==_iff _ (block_len bs (length new) i)).1 (length-read_block bs i new) in
      rw whole refl

  -- the message for block i, as read
  abbrev read_frame_of : Message → FrameRead
  read_frame_of m = record { msg_type = m.msg_type; payload = m.payload; err = none; left = [] }

  take_block-grown :
      (hashes : List Hash) (i : ℕ) (s : Local)
      → HashesOld cfg.sha256 bs old new hashes
      → NoCollision cfg.sha256 bs old new
      → take_block faults cfg now t old
          (length new)
          i
          (read_frame_of (block_message cfg.sha256 bs old new hashes i))
          s
        ≡ (
          went (length (block_message cfg.sha256 bs old new hashes i).payload),
          grown (read_block bs (length new) i new) s,
        )
  unfolding take_block
  take_block-grown hashes i s from_old apart =
      elim (Bool-cases (kept cfg.sha256 bs old new hashes i)) [
        | inl e ↦ rw e (
            keep_block-grown i (i * bs) s
              (kept-same cfg.sha256 bs old new hashes i from_old apart e))
        | inr e ↦ rw e (literal_block-grown i (i * bs) s)
      ]

  -- What the loop over the blocks leaves, when the part held `before`.
  pub record Rebuilt (before : Bytes) (rest : List Message) (s s' : Local) : Type 0 where
    pub in_part : contents_of faults cfg now t (s'.files (part closed cfg now t)) ≡ before
    pub other_files :
        (q : Bytes) → bytes_eq q (part closed cfg now t) ≡ false → s'.files q ≡ s.files q
    pub same_metas : s'.metas ≡ s.metas
    pub same_index : s'.index ≡ s.index
    pub same_tasks : s'.tasks ≡ s.tasks
    pub same_sent : s'.sent ≡ s.sent
    pub rest_left : s'.incoming ≡ rest

  read_msg-next :
      (m : Message) (ms : List Message) (s : Local)
      → s.incoming ≡ m ∷ ms
      → read_msg faults s ≡ (went (read_frame_of m), record s { incoming = ms })
  unfolding read_msg
  read_msg-next m ms s e = rw (e, read_msg) refl

  pub take_blocks-Rebuilt :
      (hashes : List Hash) (rest : List Message) (left i literal : ℕ) (before : Bytes) (s : Local)
      → HashesOld cfg.sha256 bs old new hashes
      → NoCollision cfg.sha256 bs old new
      → Rounds bs (length new) left i
      → s.incoming ≡ answers cfg.sha256 bs old new hashes left i ++ rest
      → contents_of faults cfg now t (s.files (part closed cfg now t)) ≡ before
      → (s' : Local) × ((take_blocks faults cfg now t old (length new) left i literal s
            ≡ (went (literal + payload_bytes (answers cfg.sha256 bs old new hashes left i)), s'))
          × Rebuilt (before ++ drop (i * bs) new) rest s s')
  unfolding take_blocks pure
  take_blocks-Rebuilt hashes rest zero i literal before s from_old apart r e b = (
    s,
    (
      ap (λ n. (went n, s)) (omega arith),
      record {
        in_part =
            b
            ∙ sym (append-nil before)
            ∙ ap (λ x. before ++ x) (sym (drop_all (i * bs) new (Rounds-over bs (length new) i r)));
        other_files = λ q h. refl;
        same_metas = refl;
        same_index = refl;
        same_tasks = refl;
        same_sent = refl;
        rest_left = e;
      },
    ),
  )
  take_blocks-Rebuilt hashes rest (suc left) i literal before s from_old apart r e b =
      let m = block_message cfg.sha256 bs old new hashes i in
      let ms = answers cfg.sha256 bs old new hashes left (i + 1) ++ rest in
      let bytes = read_block bs (length new) i new in
      let s1 : Local = record s { incoming = ms } in
      let s2 = grown bytes s1 in
      let there : contents_of faults cfg now t (s2.files (part closed cfg now t))
          ≡ before ++ bytes =
        ap (contents_of faults cfg now t) (put-same (part closed cfg now t) _ s.files)
        ∙ ap (λ x. x ++ bytes) b in
      let (s', (run, w)) =
        take_blocks-Rebuilt hashes rest left (i + 1) (literal + length m.payload) (before ++ bytes)
          s2 from_old apart (Rounds-next bs (length new) left i r) refl there in
      (
        s',
        (
          step-went (read_msg faults)
                (λ f. take_block faults cfg now t old (length new) i f >>= λ n.
                  take_blocks faults cfg now t old (length new) left (i + 1) (literal + n))
                s s1 (read_frame_of m) (read_msg-next m ms s e)
              ∙ step-went (take_block faults cfg now t old (length new) i (read_frame_of m))
                  (λ n. take_blocks faults cfg now t old (length new) left (i + 1) (literal + n)) s1
                  s2 (length m.payload) (take_block-grown hashes i s1 from_old apart)
              ∙ run
              ∙ ap (λ n. (went n, s')) (omega arith),
          record {
            in_part =
                w.in_part
                ∙ append_assoc before bytes (drop ((i + 1) * bs) new)
                ∙ ap (λ x. before ++ x) (read_block-drop bs i new);
            other_files =
                λ q h. w.other_files q h ∙ put-other (part closed cfg now t) q _ s.files h;
            same_metas = w.same_metas;
            same_index = w.same_index;
            same_tasks = w.same_tasks;
            same_sent = w.same_sent;
            rest_left = w.rest_left;
          },
        ),
      )
