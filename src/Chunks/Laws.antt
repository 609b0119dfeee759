-- ===== src/Chunks/Laws.antt =====
-- A file that is read without an error is sent whole, in parts that are not longer than a chunk.
use Prim.Native.Nat.{zero, suc}
use backuper.Prelude.{
  ℕ, ◌+◌, ◌-◌, ◌≡◌, ◌≤◌, ◌<◌, refl, sym, ap, ◌∙◌, Bytes, ◌++◌, [], ◌∷◌, List, map, length, take,
  drop, lt→ltb, arith, All, append_assoc, append-nil, take-append-drop, length-take_le, length-drop,
  drop-drop, drop_all,
}
use backuper.Prelude.Int.{ℤ}
use backuper.Prelude.Steps.{Done, went, Steps, pure, step-went}
use backuper.Protocol.Msg
use backuper.Protocol.Frame.{Message}
use backuper.Client.{OpenFile, plain_file}
use backuper.Chunks.{send_read, to_read, after_read, chunk_loop}

abbrev pub data_message : Bytes → Message
data_message bytes = record { msg_type = Msg.file_data; payload = bytes }

-- the parts of a file, one after the other
abbrev pub joined_parts : List Bytes → Bytes
joined_parts [] = []
joined_parts (d ∷ ds) = d ++ joined_parts ds

-- `at sent` is the state in which these messages have been sent.
module _ {W E : Type 0} (chunk : ℕ) (exhausted : E) (send_part : ℕ → Bytes → Steps W E Unit)
    (on_error : Bytes → Steps W E Unit) (at_sent : List Message → W)
    (sends : (position : ℕ) (bytes : Bytes) (sent : List Message)
      → send_part position bytes (at_sent sent)
        ≡ (went tt, at_sent (sent ++ data_message bytes ∷ []))) where
  -- What the loop has sent: parts that are not longer than a chunk and make up `bytes`.
  pub record Sends (bytes : Bytes) (sent : List Message) (out : Done E Unit × W) : Type 0 where
    pub parts : List Bytes
    pub outcome : out ≡ (went tt, at_sent (sent ++ map data_message parts))
    pub complete : joined_parts parts ≡ bytes
    pub in_chunks : All (λ d. length d ≤ chunk) parts

  send_read-sends :
      (position : ℕ) (bytes : Bytes) (sent : List Message)
      → 0 < length bytes
      → send_read chunk exhausted send_part on_error position bytes (at_sent sent)
        ≡ (went tt, at_sent (sent ++ data_message bytes ∷ []))
  unfolding send_read
  send_read-sends position bytes sent h = rw (lt→ltb 0 (length bytes) h) (sends position bytes sent)

  -- a round that is not the last: the part that is read, and how long it is
  to_read-bounds :
      (remaining : ℕ)
      → 0 < chunk
      → 0 < remaining
      → let n = to_read chunk exhausted send_part on_error remaining in
        (0 < n) × ((n ≤ remaining) × (n ≤ chunk))
  unfolding to_read
  to_read-bounds remaining c h = ground arith

  chunk_loop-round :
      (contents : Bytes) (mtime : ℤ) (size fuel remaining position : ℕ) (sent : List Message)
      → 0 < remaining
      → let part =
          take (to_read chunk exhausted send_part on_error remaining) (drop position contents) in
        0 < length part
        → chunk_loop chunk exhausted send_part on_error
            (suc fuel)
            (plain_file contents mtime size)
            remaining
            position
            (at_sent sent)
          ≡ chunk_loop chunk exhausted send_part on_error fuel
              (plain_file contents mtime size)
              (remaining - length part)
              (position + length part)
              (at_sent (sent ++ data_message part ∷ []))
  unfolding chunk_loop after_read plain_file
  chunk_loop-round contents mtime size fuel remaining position sent h some_bytes =
      let part =
        take (to_read chunk exhausted send_part on_error remaining) (drop position contents) in
      rw (lt→ltb 0 remaining h, chunk_loop)
        (step-went (send_read chunk exhausted send_part on_error position part) _ (at_sent sent)
          (at_sent (sent ++ data_message part ∷ [])) tt
          (send_read-sends position part sent some_bytes))

  chunk_loop-end :
      (f : OpenFile) (fuel position : ℕ) (w : W)
      → chunk_loop chunk exhausted send_part on_error (suc fuel) f 0 position w ≡ (went tt, w)
  unfolding chunk_loop pure
  chunk_loop-end f fuel position w = refl

  pub chunk_loop-Sends :
      (contents : Bytes) (mtime : ℤ) (size fuel remaining position : ℕ) (sent : List Message)
      → 0 < chunk
      → position + remaining ≡ length contents
      → remaining < fuel
      → Sends (drop position contents) sent (
          chunk_loop chunk exhausted send_part on_error fuel
            (plain_file contents mtime size)
            remaining
            position
            (at_sent sent))
  chunk_loop-Sends contents mtime size zero remaining position sent c e enough =
      absurd (omega arith)
  chunk_loop-Sends contents mtime size (suc fuel) zero position sent c e enough = record {
    parts = [];
    outcome =
        chunk_loop-end (plain_file contents mtime size) fuel position (at_sent sent)
        ∙ ap (λ l. (went tt, at_sent l)) (sym (append-nil sent));
    complete = sym (drop_all position contents (omega arith));
    in_chunks = tt;
  }
  chunk_loop-Sends contents mtime size (suc fuel) (suc n) position sent c e enough =
      let k = to_read chunk exhausted send_part on_error (suc n) in
      let part = take k (drop position contents) in
      let (some_bytes, (fits, in_chunk)) = to_read-bounds (suc n) c (omega arith) in
      let same : length part ≡ k =
        length-take_le k (drop position contents) (omega (arith, length-drop position contents)) in
      let w =
        chunk_loop-Sends contents mtime size fuel (suc n - length part) (position + length part)
          (sent ++ data_message part ∷ []) c (omega arith) (omega arith) in
      record {
        parts = part ∷ w.parts;
        outcome =
            chunk_loop-round contents mtime size fuel (suc n) position sent (omega arith)
              (omega arith)
            ∙ w.outcome
            ∙ ap (λ l. (went tt, at_sent l))
                (append_assoc sent (data_message part ∷ []) (map data_message w.parts));
        complete =
            ap (λ b. part ++ b)
              (w.complete
                ∙ ap (λ j. drop (position + j) contents) same
                ∙ sym (drop-drop position k contents))
            ∙ take-append-drop k (drop position contents);
        in_chunks = (omega arith, w.in_chunks);
      }
