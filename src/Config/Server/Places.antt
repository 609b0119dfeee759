-- ===== src/Config/Server/Places.antt =====
-- Which files and directories the server's Validate (internal/config/config.go) accepts.
use backuper.Prelude.{
  ◌≡◌, ◌⊎◌, refl, Bool, true, false, Option, none, some, Bytes, bytes_eq, bytes_eq→eq, List, [],
  ◌∷◌, ◌++◌, Bool-cases, inl, inr, if◌then◌else◌,
}
use backuper.Config.Shared.{
  System, PathState, a_directory, a_file, absent, unknown, check_file, check_dir, unreadable_by,
  dir_state, parent_state,
}
use backuper.Config.Server.{ServerSettings, check_paths}

pub append-eq-nil {ℓ} : {A : Type ℓ} (xs ys : List A) → xs ++ ys ≡ [] → (xs ≡ []) × (ys ≡ [])
append-eq-nil [] ys h = (refl, h)
append-eq-nil (x ∷ xs) ys h = cc

module _ (sys : System) where
  -- a path that is not given, or a file that opens
  abbrev pub FileUsable : Bytes → Type 0
  FileUsable path = (path ≡ []) ⊎ (sys.open_error path ≡ none)

  -- what stands in the place of a directory's parent: a directory or a file
  abbrev pub ParentThere : PathState → Type 0
  ParentThere st = (st ≡ a_directory) ⊎ (st ≡ a_file)

  -- a path that is not given, a directory, or nothing where the parent is there
  abbrev pub DirUsable : Bytes → Type 0
  DirUsable dir =
      (dir ≡ [])
      ⊎ ((sys.stat dir ≡ a_directory)
          ⊎ ((sys.stat dir ≡ absent) × ParentThere (sys.stat (sys.parent dir))))

  pub record PathsUsable (c : ServerSettings) : Type 0 where
    pub cert : FileUsable c.tls_cert_file
    pub key : FileUsable c.tls_key_file
    pub ca : FileUsable c.tls_ca_file
    pub storage : DirUsable c.storage_dir
    pub trash : DirUsable c.trash_dir
    pub temp : DirUsable c.temp_dir
    pub state : DirUsable (sys.parent c.state_db)
    pub log : DirUsable c.log_dir

  check_file-FileUsable : (label path : Bytes) → check_file sys label path ≡ [] → FileUsable path
  unfolding check_file
  check_file-FileUsable label path h = by_test (bytes_eq path []) refl (sys.open_error path) refl h
    where
      by_test :
          (b : Bool)
          → bytes_eq path [] ≡ b
          → (o : Option Bytes) → sys.open_error path ≡ o
          → (if b then [] else unreadable_by sys label o) ≡ []
          → FileUsable path
      by_test true e o q h = inl (bytes_eq→eq path [] e)
      by_test false e none q h = inr q
      by_test false e (some t) q h = cc

  FileUsable-check_file : (label path : Bytes) → FileUsable path → check_file sys label path ≡ []
  unfolding check_file bytes_eq
  FileUsable-check_file label path (inl e) = rw e refl
  FileUsable-check_file label path (inr e) = elim (Bool-cases (bytes_eq path [])) [
    | inl b ↦ rw b refl
    | inr b ↦ rw (b, e) refl
  ]

  parent_state-ParentThere :
      (label dir : Bytes) (st : PathState) → parent_state sys label dir st ≡ [] → ParentThere st
  parent_state-ParentThere label dir a_directory h = inl refl
  parent_state-ParentThere label dir a_file h = inr refl
  parent_state-ParentThere label dir absent h = cc
  parent_state-ParentThere label dir (unknown t) h = cc

  ParentThere-parent_state :
      (label dir : Bytes) (st : PathState) → ParentThere st → parent_state sys label dir st ≡ []
  ParentThere-parent_state label dir st (inl e) = rw e refl
  ParentThere-parent_state label dir st (inr e) = rw e refl

  check_dir-DirUsable : (label dir : Bytes) → check_dir sys label dir ≡ [] → DirUsable dir
  unfolding check_dir
  check_dir-DirUsable label dir h = by_test (bytes_eq dir []) refl (sys.stat dir) refl h
    where
      by_test :
          (b : Bool)
          → bytes_eq dir [] ≡ b
          → (st : PathState) → sys.stat dir ≡ st
          → (if b then [] else dir_state sys label dir st) ≡ []
          → DirUsable dir
      by_test true e st q h = inl (bytes_eq→eq dir [] e)
      by_test false e a_directory q h = inr (inl q)
      by_test false e a_file q h = cc
      by_test false e absent q h =
          inr (inr (q, parent_state-ParentThere label dir (sys.stat (sys.parent dir)) h))
      by_test false e (unknown t) q h = cc

  DirUsable-check_dir : (label dir : Bytes) → DirUsable dir → check_dir sys label dir ≡ []
  unfolding check_dir bytes_eq
  DirUsable-check_dir label dir (inl e) = rw e refl
  DirUsable-check_dir label dir (inr d) = by_test (bytes_eq dir []) d
    where
      by_test :
          (b : Bool)
          → (sys.stat dir ≡ a_directory)
            ⊎ ((sys.stat dir ≡ absent) × ParentThere (sys.stat (sys.parent dir)))
          → (if b then [] else dir_state sys label dir (sys.stat dir)) ≡ []
      by_test true d = refl
      by_test false (inl e) = rw e refl
      by_test false (inr (e, p)) = rw e (ParentThere-parent_state label dir _ p)

  pub check_paths-PathsUsable : (c : ServerSettings) → check_paths sys c ≡ [] → PathsUsable c
  unfolding check_paths
  check_paths-PathsUsable c h =
      let a = append-eq-nil _ _ h in
      let b = append-eq-nil _ _ a.1 in
      let d = append-eq-nil _ _ b.1 in
      let e = append-eq-nil _ _ d.1 in
      let f = append-eq-nil _ _ e.1 in
      let g = append-eq-nil _ _ f.1 in
      let k = append-eq-nil _ _ g.1 in
      record {
        cert = check_file-FileUsable _ c.tls_cert_file a.0;
        key = check_file-FileUsable _ c.tls_key_file b.0;
        ca = check_file-FileUsable _ c.tls_ca_file d.0;
        storage = check_dir-DirUsable _ c.storage_dir e.0;
        trash = check_dir-DirUsable _ c.trash_dir f.0;
        temp = check_dir-DirUsable _ c.temp_dir g.0;
        state = check_dir-DirUsable _ (sys.parent c.state_db) k.0;
        log = check_dir-DirUsable _ c.log_dir k.1;
      }

  pub PathsUsable-check_paths : (c : ServerSettings) → PathsUsable c → check_paths sys c ≡ []
  unfolding check_paths
  PathsUsable-check_paths c u =
      rw
        (
          FileUsable-check_file _ c.tls_cert_file u.cert,
          FileUsable-check_file _ c.tls_key_file u.key,
          FileUsable-check_file _ c.tls_ca_file u.ca,
          DirUsable-check_dir _ c.storage_dir u.storage,
          DirUsable-check_dir _ c.trash_dir u.trash,
          DirUsable-check_dir _ c.temp_dir u.temp,
          DirUsable-check_dir _ (sys.parent c.state_db) u.state,
        )
        (DirUsable-check_dir _ c.log_dir u.log)
