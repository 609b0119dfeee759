-- ===== src/Trash/Names.antt =====
-- versionPath of internal/trash/trash.go: the name of an earlier deletion in the trash.
use backuper.Prelude.{ℕ, [], ◌∷◌, ◌++◌, Bytes, utf8, dec, bytes_eq, ◌==◌, if◌then◌else◌}
use backuper.Protocol.Paths.{slash, clean}

-- path.Base and path.Dir (documented): the last part, and the clean path of what precedes it
unfoldable pub last_part : Bytes → Bytes → Bytes
last_part acc [] = acc
last_part acc (c ∷ s) = if c == slash then last_part [] s else last_part (acc ++ c ∷ []) s

unfoldable pub before_last : Bytes → Bytes → Bytes → Bytes
before_last done part [] = done
before_last done part (c ∷ s) =
    if c == slash
    then before_last (done ++ part ++ slash ∷ []) [] s
    else before_last done (part ++ c ∷ []) s

-- path.Dir, "" for "."
unfoldable pub dir_of : Bytes → Bytes
dir_of p = let d = clean (before_last [] [] p) in if bytes_eq d (b'.' ∷ []) then [] else d

-- path.Base of a path that does not end in a slash
unfoldable pub base_of : Bytes → Bytes
base_of p = let b = last_part [] p in if bytes_eq p [] then b'.' ∷ [] else b

-- path.Join(dir, ".versions", n, base), where an empty dir is left out
unfoldable pub version_rel : Bytes → ℕ → Bytes
unfolding dir_of base_of
version_rel relpath seq =
    let tail = utf8 ".versions/" ++ dec seq ++ slash ∷ base_of relpath in
    let dir = dir_of relpath in clean (if bytes_eq dir [] then tail else dir ++ slash ∷ tail)
