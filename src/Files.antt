-- ===== src/Files.antt =====
-- Files as both sides keep them: contents with a time, and the .meta file beside a part
-- (internal/transfer/transfer.go, internal/client/fileserver.go).
use backuper.Prelude.{ℕ, ◌≡◌, ap, false, Option, Bytes, bytes_eq, bytes_eq_refl, if◌then◌else◌}
use backuper.Prelude.Int.{ℤ}

pub record StoredFile : Type 0 where
  pub contents : Bytes
  pub mtime : ℤ

-- partMeta and restoreMeta, what is read from a .meta file
pub record PartMeta : Type 0 where
  pub relpath : Bytes
  pub total : ℕ
  pub mtime : ℤ

-- a path that is set, or removed
unfoldable pub put : {A : Type 0} → Bytes → Option A → (Bytes → Option A) → Bytes → Option A
put p contents fs q = if bytes_eq q p then contents else fs q

pub put-same : {A : Type 0} (p : Bytes) (c : Option A) (fs : Bytes → Option A) → put p c fs p ≡ c
unfolding put
put-same p c fs = ap (λ t. if t then c else fs p) (bytes_eq_refl p)

pub put-other :
    {A : Type 0} (p q : Bytes) (c : Option A) (fs : Bytes → Option A)
    → bytes_eq q p ≡ false
    → put p c fs q ≡ fs q
unfolding put
put-other p q c fs h = ap (λ t. if t then c else fs q) h
