-- ===== src/Protocol/Messages/Lists/RoundTrip.antt =====
-- The messages that hold a counted list are read back from their encodings.
use Prim.Native.Nat.{suc}
use backuper.Prelude.{
  All-map, ◌==◌, ℕ, ◌%◌, ◌^◌, ◌<◌, ◌+◌, ◌≡◌, length-append, if◌then◌else◌, refl, ap, sym, ◌∙◌, ◌++◌,
  [], ◌∷◌, List, Bool, true, false, none, some, arith, Bytes, length, All, append_assoc, append-nil,
}
use backuper.Prelude.Int.{IsInt64, to_word}
use backuper.Protocol.Scanner.{
  big_endian, Builder, Scanner, Reader, advance, put_u8, put_u32, put_u64, put_i64, put_str,
  put_raw, raw,
}
use backuper.Protocol.Scanner.Reads.{
  At, At-advance, Reads, Reads-eq, parse_with-Reads, u8-Reads, u32-Reads, u64-Reads, i64-Reads,
  raw-Reads, str_bytes, str-Reads, bind-Reads, pure-Reads,
}
use backuper.Protocol.Messages.Lists.{
  repeat, repeat_unless_err, put_each, FileEntry, ListBatch, put_entry, encode_list_batch,
  read_entry, read_list_batch, parse_list_batch, DeltaReq, encode_delta_req, read_delta_req,
  parse_delta_req, MountInfo, DiskResp, put_mount, encode_disk_resp, read_mount, read_disk_resp,
  parse_disk_resp,
}

-- the encodings of the items, one behind the other
abbrev pub each {ℓ} : {A : Type ℓ} → (A → Bytes) → List A → Bytes
each enc [] = []
each enc (x ∷ xs) = enc x ++ each enc xs

put_each-each {ℓ} :
    {A : Type ℓ} (put : A → Builder → Builder) (enc : A → Bytes) (xs : List A) (b : Builder)
    → ((x : A) (c : Builder) → put x c ≡ c ++ enc x)
    → put_each put xs b ≡ b ++ each enc xs
unfolding put_each
put_each-each put enc [] b h = sym (append-nil b)
put_each-each put enc (x ∷ xs) b h =
    put_each-each put enc xs (put x b) h
    ∙ ap (λ c. c ++ each enc xs) (h x b)
    ∙ append_assoc b (enc x) (each enc xs)

module _ {ℓ} {A : Type ℓ} (r : Reader A) where
  -- one round of the loop
  abbrev after : ℕ → A × Scanner → List A × Scanner
  after n q = elim q.1.err [
    | some _ ↦ ([], q.1)
    | none ↦ (q.0 ∷ (repeat n r q.1).0, (repeat n r q.1).1)
  ]

  repeat-step :
      (n : ℕ) (s s' : Scanner) (x : A)
      → r s ≡ (x, s')
      → s'.err ≡ none
      → repeat (suc n) r s ≡ (x ∷ (repeat n r s').0, (repeat n r s').1)
  unfolding repeat
  repeat-step n s s' x e clean =
      ap (after n) e
      ∙ ap {B = List A × Scanner}
          (λ o. elim o [ some _ ↦ ([], s') | none ↦ (x ∷ (repeat n r s').0, (repeat n r s').1) ])
          clean

  repeat_unless_err-clean :
      (n : ℕ) (s : Scanner) → s.err ≡ none → repeat_unless_err n r s ≡ repeat n r s
  unfolding repeat_unless_err
  repeat_unless_err-clean n s clean =
      ap {B = List A × Scanner} (λ o. elim o [ some _ ↦ ([], s) | none ↦ repeat n r s ]) clean

module _ {ℓ} {A : Type ℓ} (r : Reader A) (enc : A → Bytes) where
  repeat-Reads :
      (xs : List A)
      → All (λ x. Reads r (enc x) x) xs
      → Reads (repeat (length xs) r) (each enc xs) xs
  repeat-Reads [] h = record {
    run = λ s rest at.
        unfold repeat in
        ap (λ n. ([], record s { pos = n })) {x = s.pos} {y = s.pos + 0} (omega arith);
  }
  repeat-Reads (x ∷ xs) h = record {
    run = λ s rest at.
        let at' : At s (enc x ++ (each enc xs ++ rest)) = rw append_assoc at at in
        let next = At-advance s (enc x) (each enc xs ++ rest) at' in
        repeat-step r (length xs) s (advance (length (enc x)) s) x
          (h.0.run s (each enc xs ++ rest) at') next.clean
        ∙ ap (λ q. (x ∷ q.0, q.1))
            ((repeat-Reads xs h.1).run (advance (length (enc x)) s) rest next)
        ∙ ap (λ n. (x ∷ xs, record s { pos = n }))
            (omega (arith, length-append (enc x) (each enc xs)));
  }

  pub repeat_unless_err-Reads :
      (xs : List A)
      → All (λ x. Reads r (enc x) x) xs
      → Reads (repeat_unless_err (length xs) r) (each enc xs) xs
  repeat_unless_err-Reads xs h = record {
    run = λ s rest at.
        repeat_unless_err-clean r (length xs) s at.clean ∙ (repeat-Reads xs h).run s rest at;
  }

-- The entries, hashes and mounts that the Go structs can hold, and lists whose count fits its field.
pub record FileEntryIsValid (e : FileEntry) : Type 0 where
  pub path_fits : length e.path < 2 ^ 32
  pub size_fits : e.size < 2 ^ 64
  pub mtime_fits : IsInt64 e.mtime

pub record ListBatchIsValid (m : ListBatch) : Type 0 where
  pub count_fits : length m.entries < 2 ^ 32
  pub entries_fit : All FileEntryIsValid m.entries

abbrev entry_bytes : FileEntry → Bytes
entry_bytes e = str_bytes e.path ++ (big_endian 8 e.size ++ (big_endian 8 (to_word e.mtime) ++ []))

put_entry-entry_bytes : (e : FileEntry) (b : Builder) → put_entry e b ≡ b ++ entry_bytes e
unfolding put_entry put_i64 put_str put_u32
put_entry-entry_bytes e b = simp (append_assoc, append-nil)

read_entry-Reads : (e : FileEntry) → FileEntryIsValid e → Reads read_entry (entry_bytes e) e
unfolding read_entry
read_entry-Reads e h = bind-Reads _ (str-Reads e.path h.path_fits) (
    bind-Reads _ (u64-Reads e.size h.size_fits)
      (bind-Reads _ (i64-Reads e.mtime h.mtime_fits) (pure-Reads e)))

abbrev flag : Bool → ℕ
flag b = if b then 1 else 0

flag-fits : (b : Bool) → flag b < 2 ^ 8
flag-fits b = ground arith

put_flag : (b : Bool) → ◌≡◌ {A = Bytes} (if b then put_u8 1 [] else put_u8 0 []) (flag b ∷ [])
unfolding put_u8
put_flag true = refl
put_flag false = refl

encode_list_batch_flat :
    (m : ListBatch)
    → length m.entries < 2 ^ 32
    → encode_list_batch m
      ≡ (flag m.is_last ∷ [])
        ++ (big_endian 4 (length m.entries) ++ (each entry_bytes m.entries ++ []))
unfolding encode_list_batch put_u32
encode_list_batch_flat m h =
    let fits : length m.entries % 2 ^ 32 ≡ length m.entries = omega arith in
    put_each-each put_entry entry_bytes m.entries _ put_entry-entry_bytes
    ∙ rw (put_flag m.is_last, fits) (simp append-nil)

flag_read : (m : ListBatch) → record { is_last = flag m.is_last == 1; entries = m.entries } ≡ m
flag_read m = ap (λ b. record m { is_last = b }) (is_one m.is_last)
  where
    is_one : (b : Bool) → (flag b == 1) ≡ b
    is_one true = refl
    is_one false = refl

-- LIST_BATCH is read back from its encoding, whatever bytes follow. Its paths, sizes, times and the
-- number of its entries fit their fields.
pub parse_list_batch-encode :
    (m : ListBatch) (rest : Bytes)
    → ListBatchIsValid m
    → parse_list_batch (encode_list_batch m ++ rest) ≡ (m, none)
unfolding parse_list_batch
parse_list_batch-encode m rest h = rw (encode_list_batch_flat m h.count_fits) (
    parse_with-Reads read_list_batch _ rest m (
      bind-Reads _ (u8-Reads (flag m.is_last) (flag-fits m.is_last)) (
        bind-Reads _ (u32-Reads (length m.entries) h.count_fits) (
          bind-Reads _
            (repeat_unless_err-Reads read_entry entry_bytes m.entries
              (All-map _ _ m.entries read_entry-Reads h.entries_fit))
            (Reads-eq (flag_read m) (pure-Reads _))))))

pub record DeltaReqIsValid (m : DeltaReq) : Type 0 where
  pub path_fits : length m.path < 2 ^ 32
  pub block_size_fits : m.block_size < 2 ^ 32
  pub count_fits : length m.hashes < 2 ^ 32
  pub hashes_fit : All (λ h. length h ≡ 32) m.hashes

encode_delta_req_flat :
    (m : DeltaReq)
    → length m.hashes < 2 ^ 32
    → encode_delta_req m
      ≡ str_bytes m.path
        ++ (big_endian 4 m.block_size
            ++ (big_endian 4 (length m.hashes) ++ (each (λ h. h) m.hashes ++ [])))
unfolding encode_delta_req put_u32 put_str
encode_delta_req_flat m h =
    let fits : length m.hashes % 2 ^ 32 ≡ length m.hashes = omega arith in
    put_each-each put_raw (λ h. h) m.hashes _ (λ h b. unfold put_raw in refl)
    ∙ rw fits (simp (append_assoc, append-nil))

-- GET_DELTA is read back from its encoding, whatever bytes follow. Its path, its block size and the
-- number of its hashes fit their fields, and each hash has 32 bytes.
pub parse_delta_req-encode :
    (m : DeltaReq) (rest : Bytes)
    → DeltaReqIsValid m
    → parse_delta_req (encode_delta_req m ++ rest) ≡ (m, none)
unfolding parse_delta_req
parse_delta_req-encode m rest h = rw (encode_delta_req_flat m h.count_fits) (
    parse_with-Reads read_delta_req _ rest m (
      bind-Reads _ (str-Reads m.path h.path_fits) (
        bind-Reads _ (u32-Reads m.block_size h.block_size_fits) (
          bind-Reads _ (u32-Reads (length m.hashes) h.count_fits) (
            bind-Reads _
              (repeat_unless_err-Reads (raw 32) (λ h. h) m.hashes
                (All-map _ _ m.hashes (λ b e. raw-Reads b 32 e) h.hashes_fit))
              (pure-Reads m))))))

pub record MountInfoIsValid (m : MountInfo) : Type 0 where
  pub mount_fits : length m.mount < 2 ^ 32
  pub total_fits : m.total < 2 ^ 64
  pub free_fits : m.free < 2 ^ 64

-- The count of mounts is one byte.
pub record DiskRespIsValid (m : DiskResp) : Type 0 where
  pub count_fits : length m.mounts < 2 ^ 8
  pub mounts_fit : All MountInfoIsValid m.mounts

abbrev mount_bytes : MountInfo → Bytes
mount_bytes m = str_bytes m.mount ++ (big_endian 8 m.total ++ (big_endian 8 m.free ++ []))

put_mount-mount_bytes : (m : MountInfo) (b : Builder) → put_mount m b ≡ b ++ mount_bytes m
unfolding put_mount put_u64 put_str put_u32
put_mount-mount_bytes m b = simp (append_assoc, append-nil)

read_mount-Reads : (m : MountInfo) → MountInfoIsValid m → Reads read_mount (mount_bytes m) m
unfolding read_mount
read_mount-Reads m h = bind-Reads _ (str-Reads m.mount h.mount_fits) (
    bind-Reads _ (u64-Reads m.total h.total_fits)
      (bind-Reads _ (u64-Reads m.free h.free_fits) (pure-Reads m)))

encode_disk_resp_flat :
    (m : DiskResp)
    → length m.mounts < 2 ^ 8
    → encode_disk_resp m ≡ (length m.mounts ∷ []) ++ (each mount_bytes m.mounts ++ [])
unfolding encode_disk_resp put_u8
encode_disk_resp_flat m h =
    let fits : length m.mounts % 2 ^ 8 ≡ length m.mounts = omega arith in
    put_each-each put_mount mount_bytes m.mounts _ put_mount-mount_bytes ∙ rw fits (simp append-nil)

-- DISK_RESP with fewer than 256 mounts is read back from its encoding, whatever bytes follow. Its
-- paths and numbers fit their fields.
pub parse_disk_resp-encode :
    (m : DiskResp) (rest : Bytes)
    → DiskRespIsValid m
    → parse_disk_resp (encode_disk_resp m ++ rest) ≡ (m, none)
unfolding parse_disk_resp
parse_disk_resp-encode m rest h = rw (encode_disk_resp_flat m h.count_fits) (
    parse_with-Reads read_disk_resp _ rest m (
      bind-Reads _ (u8-Reads (length m.mounts) h.count_fits) (
        bind-Reads _
          (repeat_unless_err-Reads read_mount mount_bytes m.mounts
            (All-map _ _ m.mounts read_mount-Reads h.mounts_fit))
          (pure-Reads m))))
