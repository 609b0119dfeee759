-- ===== src/Client/Delta/Answers.antt =====
-- What handleDelta sends of a file that it can read: a message for each block.
use Prim.Native.Nat.{zero, suc}
use backuper.Prelude.{
  ℕ, ◌+◌, ◌*◌, ◌≡◌, ◌<◌, refl, sym, ap, ◌∙◌, Bool, true, false, Option, none, some, Bytes, List, [],
  ◌∷◌, ◌++◌, length, take, drop, get_elem?, ◌==◌, ==_iff, arith, bytes_eq, bytes_eq→eq, Bool-cases,
  inl, inr, if◌then◌else◌, append_assoc, append-nil,
}
use backuper.Prelude.Int.{ℤ}
use backuper.Prelude.Steps.{stopped, went, ◌>>=◌, pure, check, step-went}
use backuper.Protocol.Msg
use backuper.Protocol.Frame.{Message}
use backuper.Protocol.Messages.Lists.{DeltaReq, Hash}
use backuper.Protocol.Messages.{encode_delta_resp}
use backuper.Protocol.Paths.{ok, safe_join}
use backuper.Blocks.{block_count, block_len, read_block}
use backuper.Blocks.Laws.{length-read_block}
use backuper.Client.{
  ClientConfig, Opens, plain_file, returned, append_message, write_msg, finish_with, path_or_error,
  file_or_error, stat_or_error, finish_if,
}
use backuper.Chunks.Laws.{data_message}
use backuper.Client.Get.Sends.{no_wait, end_message}
use backuper.Client.Delta.{keeps, send_block, whole_block, delta_blocks, handle_delta}

-- BLOCK_KEEP
abbrev pub keep_message : Message
keep_message = record { msg_type = Msg.block_keep; payload = [] }

-- the bytes that messages carry
abbrev pub payload_bytes : List Message → ℕ
payload_bytes [] = 0
payload_bytes (m ∷ ms) = length m.payload + payload_bytes ms

module _ (sha256 : Bytes → Hash) (bs : ℕ) (old new : Bytes) where
  -- the hashes of the old copy's blocks
  abbrev pub hash_list : ℕ → ℕ → List Hash
  hash_list zero i = []
  hash_list (suc left) i = sha256 (read_block bs (length old) i old) ∷ hash_list left (i + 1)

  pub get_elem?-hash_list :
      (left i k : ℕ) (h : Hash)
      → get_elem? (hash_list left i) k ≡ some h
      → h ≡ sha256 (read_block bs (length old) (i + k) old)
  get_elem?-hash_list zero i k h e = cc
  get_elem?-hash_list (suc left) i zero h e =
      let same : i ≡ i + 0 = omega arith in
      sym (cc e) ∙ ap (λ j. sha256 (read_block bs (length old) j old)) same
  get_elem?-hash_list (suc left) i (suc k) h e =
      let same : i + 1 + k ≡ i + suc k = omega arith in
      get_elem?-hash_list left (i + 1) k h e
      ∙ ap (λ j. sha256 (read_block bs (length old) j old)) same

  -- every hash that is sent for a block i is the hash of the old copy's block i
  abbrev pub HashesOld : List Hash → Type 0
  HashesOld hashes =
      (i : ℕ) (h : Hash)
      → get_elem? hashes i ≡ some h
      → h ≡ sha256 (read_block bs (length old) i old)

  -- SHA-256 gives a block of the new file and the old copy's block at its place the same hash only if
  -- they are the same.
  abbrev pub NoCollision : Type 0
  NoCollision =
      (i : ℕ)
      → sha256 (read_block bs (length new) i new) ≡ sha256 (read_block bs (length old) i old)
      → read_block bs (length new) i new ≡ read_block bs (length old) i old

  -- the client's decision and message for block i
  abbrev pub kept : List Hash → ℕ → Bool
  kept hashes i = elim (get_elem? hashes i) [
    | none ↦ false
    | some h ↦ bytes_eq (sha256 (read_block bs (length new) i new)) h
  ]

  abbrev pub block_message : List Hash → ℕ → Message
  block_message hashes i =
      if kept hashes i then keep_message else data_message (read_block bs (length new) i new)

  abbrev pub answers : List Hash → ℕ → ℕ → List Message
  answers hashes zero i = []
  answers hashes (suc left) i = block_message hashes i ∷ answers hashes left (i + 1)

  -- a block that is kept is the old copy's
  pub kept-same :
      (hashes : List Hash) (i : ℕ)
      → HashesOld hashes
      → NoCollision
      → kept hashes i ≡ true
      → read_block bs (length new) i new ≡ read_block bs (length old) i old
  kept-same hashes i from_old apart e = by_hash (get_elem? hashes i) refl e
    where
      by_hash :
          (o : Option Hash)
          → get_elem? hashes i ≡ o
          → elim o [
            | none ↦ false
            | some h ↦ bytes_eq (sha256 (read_block bs (length new) i new)) h
          ]
            ≡ true
          → read_block bs (length new) i new ≡ read_block bs (length old) i old
      by_hash none q b = cc
      by_hash (some h) q b = apart i (bytes_eq→eq _ h b ∙ from_old i h q)

  module _ (ccfg : ClientConfig) (opens : Opens) where
    send_block-answers :
        (o : Option Hash) (position : ℕ) (bytes : Bytes) (sent : List Message)
        → send_block append_message ccfg opens no_wait sha256 position o bytes sent ≡ (
          went tt,
          sent
              ++ (if elim o [ none ↦ false | some h ↦ bytes_eq (sha256 bytes) h ]
                  then keep_message
                  else data_message bytes)
                ∷ [],
        )
    unfolding send_block keeps write_msg append_message ◌>>=◌ check
    send_block-answers none position bytes sent = refl
    send_block-answers (some h) position bytes sent =
        elim (Bool-cases (bytes_eq (sha256 bytes) h)) [ inl e ↦ rw e refl | inr e ↦ rw e refl ]

    whole_block-read :
        (path : Bytes) (i : ℕ) (sent : List Message)
        → whole_block append_message ccfg opens no_wait sha256 path
            (block_len bs (length new) i)
            (take (block_len bs (length new) i) (drop (i * bs) new), none)
            sent
          ≡ (went (read_block bs (length new) i new), sent)
    unfolding whole_block read_block pure
    whole_block-read path i sent =
        let whole = (==_iff _ (block_len bs (length new) i)).1 (length-read_block bs i new) in
        rw whole refl

    abbrev pub delta_req : Bytes → List Hash → DeltaReq
    delta_req path hashes = record { path = path; block_size = bs; hashes = hashes }

    delta_blocks-answers :
        (path : Bytes) (mtime : ℤ) (hashes : List Hash) (left i : ℕ) (sent : List Message)
        → delta_blocks append_message ccfg opens no_wait sha256
            (delta_req path hashes)
            (plain_file new mtime (length new))
            (length new)
            left
            i
            sent
          ≡ (went tt, sent ++ answers hashes left i)
    unfolding delta_blocks plain_file pure
    delta_blocks-answers path mtime hashes zero i sent =
        ap (λ l. (went tt, l)) (sym (append-nil sent))
    delta_blocks-answers path mtime hashes (suc left) i sent =
        let next : List Message = sent ++ block_message hashes i ∷ [] in
        let f = plain_file new mtime (length new) in
        step-went
          (whole_block append_message ccfg opens no_wait sha256 path (block_len bs (length new) i)
            (take (block_len bs (length new) i) (drop (i * bs) new), none))
          (λ bytes.
            send_block append_message ccfg opens no_wait sha256 (i * bs) (get_elem? hashes i) bytes
            >>= λ u.
                delta_blocks append_message ccfg opens no_wait sha256 (delta_req path hashes) f
                  (length new) left (i + 1))
          sent sent (read_block bs (length new) i new) (whole_block-read path i sent)
        ∙ step-went
            (send_block append_message ccfg opens no_wait sha256 (i * bs) (get_elem? hashes i)
              (read_block bs (length new) i new))
            (λ u.
              delta_blocks append_message ccfg opens no_wait sha256 (delta_req path hashes) f
                (length new) left (i + 1))
            sent next tt
            (send_block-answers (get_elem? hashes i) (i * bs) (read_block bs (length new) i new)
              sent)
        ∙ delta_blocks-answers path mtime hashes left (i + 1) next
        ∙ ap (λ l. (went tt, l))
            (append_assoc sent (block_message hashes i ∷ []) (answers hashes left (i + 1)))

    abbrev pub delta_resp_message : ℤ → Message
    delta_resp_message mtime = record {
      msg_type = Msg.delta_resp;
      payload = encode_delta_resp (record { status = 0; total_size = length new; mtime = mtime });
    }

    abbrev pub all_answers : ℤ → List Hash → List Message
    all_answers mtime hashes =
        delta_resp_message mtime
        ∷ (answers hashes (block_count bs (length new)) 0 ++ end_message ccfg opens ∷ [])

    handle_delta-begins :
        (mtime : ℤ) (path full : Bytes) (hashes : List Hash)
        → (bs == 0) ≡ false
        → safe_join ccfg.cwd ccfg.backup_dir path ≡ ok full
        → opens full ≡ went (plain_file new mtime (length new))
        → handle_delta append_message ccfg opens no_wait sha256 (delta_req path hashes) []
          ≡ (delta_blocks append_message ccfg opens no_wait sha256
                  (delta_req path hashes)
                  (plain_file new mtime (length new))
                  (length new)
                  (block_count bs (length new))
                  0
                >>= λ u. finish_with append_message Msg.file_end [])
              (delta_resp_message mtime ∷ [])
    unfolding handle_delta ◌>>=◌ path_or_error file_or_error stat_or_error finish_if write_msg
        append_message pure plain_file
    handle_delta-begins mtime path full hashes some_size joined there =
        rw (joined, some_size, there) refl

    -- The client answers a request for a delta with DELTA_RESP, one message for each block of
    -- its file, BLOCK_KEEP where the request has the block's hash at its place and the block itself
    -- elsewhere, and FILE_END, and reports no error. Conditions: the block size of the request is
    -- above 0, SafeJoin accepts its path, the file there opens, Stat gives
    -- its length, and it is read without an error; no message is refused, and nobody cancels.
    pub handle_delta-answers :
        (mtime : ℤ) (path full : Bytes) (hashes : List Hash)
        → 0 < bs
        → safe_join ccfg.cwd ccfg.backup_dir path ≡ ok full
        → opens full ≡ went (plain_file new mtime (length new))
        → handle_delta append_message ccfg opens no_wait sha256 (delta_req path hashes) []
          ≡ (stopped (returned none), all_answers mtime hashes)
    handle_delta-answers mtime path full hashes some_size joined there =
        let first : List Message = delta_resp_message mtime ∷ [] in
        let not_zero : (bs == 0) ≡ false = ground arith in
        handle_delta-begins mtime path full hashes not_zero joined there
        ∙ step-went
            (delta_blocks append_message ccfg opens no_wait sha256 (delta_req path hashes)
              (plain_file new mtime (length new)) (length new) (block_count bs (length new)) 0)
            (λ u. finish_with append_message Msg.file_end []) first
            (first ++ answers hashes (block_count bs (length new)) 0) tt
            (delta_blocks-answers path mtime hashes (block_count bs (length new)) 0 first)
        ∙ unfold finish_with append_message in refl
