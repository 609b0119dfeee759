-- ===== src/Config/Env/Laws.antt =====
-- Which value a key has: the environment's last for a key that a line sets, or else the last line's.
use backuper.Prelude.{
  ◌≡◌, ◌⊎◌, refl, sym, ap, ◌∙◌, Bool, Option, map, true, false, none, some, Option-cases, Bytes,
  utf8, bytes_eq, bytes_eq→eq, List, [], ◌∷◌, ◌++◌, All, ◌==◌, Bool-cases, inl, inr, if◌then◌else◌,
}
use backuper.Config.{TextLibrary}
use backuper.Config.Env.{
  Env, set_key, get_key, has_prefix, trim_prefix, cut_equals, trim_quotes, parse_line, set_line,
  parse_lines, override, override_by, override_all, load_env_file,
}

-- two keys that differ are not both the key that is asked for
not_both : (q k k' : Bytes) → bytes_eq k' k ≡ false → bytes_eq k' q ≡ true → bytes_eq k q ≡ false
not_both q k k' other at_q = elim (Bool-cases (bytes_eq k q)) [
  | inr e ↦ e
  | inl e ↦ cc (ap (λ x. bytes_eq k' x) (bytes_eq→eq k q e) ∙ at_q, other)
]

pub get_key-set_key :
    (q k v : Bytes) (m : Env)
    → get_key q (set_key k v m) ≡ (if bytes_eq k q then some v else get_key q m)
unfolding get_key set_key
get_key-set_key q k v [] = refl
get_key-set_key q k v ((k', v') ∷ m) = elim (Bool-cases (bytes_eq k' k)) [
  | inl same ↦
      let e : bytes_eq k' q ≡ bytes_eq k q = ap (λ x. bytes_eq x q) (bytes_eq→eq k' k same) in
      rw same (elim (Bool-cases (bytes_eq k q)) [
        | inl at_q ↦ rw at_q refl
        | inr off_q ↦ rw (off_q, e ∙ off_q) refl
      ])
  | inr other ↦
      rw (other, get_key-set_key q k v m)
        (elim (Bool-cases (bytes_eq k' q)) [
          | inl at_q ↦ rw (at_q, not_both q k k' other at_q) refl
          | inr off_q ↦ rw off_q refl
        ])
]

-- KEY=VALUE
abbrev pub assignment : Bytes → Bytes → Bytes
assignment k v = k ++ b'=' ∷ v

-- What an entry says of a key, and what a list of entries says: the last entry of the key.
abbrev pub prefer : Option Bytes → Option Bytes → Option Bytes
prefer none o = o
prefer (some v) o = some v

abbrev pub value_of : Bytes → Option (Bytes × Bytes) → Option Bytes
value_of q none = none
value_of q (some (k, v)) = if bytes_eq k q then some v else none

abbrev pub last_value : Bytes → List (Option (Bytes × Bytes)) → Option Bytes
last_value q [] = none
last_value q (e ∷ es) = prefer (last_value q es) (value_of q e)

-- The value of a key, by what the environment and the file say of it: one that the file does not
-- have has none.
abbrev pub overlay : Option Bytes → Option Bytes → Option Bytes
overlay w none = none
overlay none (some v) = some v
overlay (some w) (some v) = some w

-- a variable of the environment; one with an empty name stands for none
abbrev pub variable : Bytes → Option (Bytes × Bytes)
variable kv = elim (cut_equals kv) [
  | none ↦ none
  | some e ↦ (if bytes_eq e.0 [] then none else some e)
]

prefer_assoc : (a b c : Option Bytes) → prefer a (prefer b c) ≡ prefer (prefer a b) c
prefer_assoc none b c = refl
prefer_assoc (some v) b c = refl

prefer-none : (a : Option Bytes) → prefer a none ≡ a
prefer-none none = refl
prefer-none (some v) = refl

if-prefer :
    (t : Bool) (v : Bytes) (o : Option Bytes)
    → (if t then some v else o) ≡ prefer (if t then some v else none) o
if-prefer true v o = refl
if-prefer false v o = refl

none-overlay : (o : Option Bytes) → overlay none o ≡ o
none-overlay none = refl
none-overlay (some v) = refl

overlay-overlay : (a b c : Option Bytes) → overlay a (overlay b c) ≡ overlay (prefer a b) c
overlay-overlay a b none = refl
overlay-overlay none none (some v) = refl
overlay-overlay none (some w) (some v) = refl
overlay-overlay (some u) none (some v) = refl
overlay-overlay (some u) (some w) (some v) = refl

override-unset : (k v : Bytes) (m : Env) → get_key k m ≡ none → override k v m ≡ m
unfolding override
override-unset k v m h = rw (h, override) refl

override-set : (k v old : Bytes) (m : Env) → get_key k m ≡ some old → override k v m ≡ set_key k v m
unfolding override
override-set k v old m h = rw (h, override) refl

override-value :
    (q k v : Bytes) (m : Env)
    → get_key q (override k v m) ≡ overlay (value_of q (some (k, v))) (get_key q m)
override-value q k v m = by_old (Option-cases (get_key k m))
  where
    same : bytes_eq k q ≡ true → get_key q m ≡ get_key k m
    same e = ap (λ x. get_key x m) (sym (bytes_eq→eq k q e))

    by_old :
        (get_key k m ≡ none) ⊎ ((old : Bytes) × (get_key k m ≡ some old))
        → get_key q (override k v m) ≡ overlay (value_of q (some (k, v))) (get_key q m)
    by_old (inl h) = ap (get_key q) (override-unset k v m h) ∙ elim (Bool-cases (bytes_eq k q)) [
      | inl e ↦ rw (e, same e ∙ h) refl
      | inr e ↦ rw e (sym (none-overlay (get_key q m)))
    ]
    by_old (inr (old, h)) =
        ap (get_key q) (override-set k v old m h)
        ∙ get_key-set_key q k v m
        ∙ elim (Bool-cases (bytes_eq k q)) [
          | inl e ↦ rw (e, same e ∙ h) refl
          | inr e ↦ rw e (sym (none-overlay (get_key q m)))
        ]

override_all-value :
    (q : Bytes) (environ : List Bytes) (m : Env)
    → get_key q (override_all environ m)
      ≡ overlay (last_value q (map variable environ)) (get_key q m)
unfolding override_all
override_all-value q [] m = sym (none-overlay (get_key q m))
override_all-value q (kv ∷ environ) m =
    override_all-value q environ (override_by (cut_equals kv) m)
    ∙ ap (overlay (last_value q (map variable environ))) (one (cut_equals kv))
    ∙ overlay-overlay (last_value q (map variable environ)) (value_of q (variable kv)) (get_key q m)
  where
    one :
        (e : Option (Bytes × Bytes))
        → get_key q (override_by e m)
          ≡ overlay
              (value_of q
                (elim e [ none ↦ none | some e ↦ (if bytes_eq e.0 [] then none else some e) ]))
              (get_key q m)
    one none = sym (none-overlay (get_key q m))
    one (some (k, v)) = elim (Bool-cases (bytes_eq k [])) [
      | inl h ↦ rw h (sym (none-overlay (get_key q m)))
      | inr h ↦ rw h (override-value q k v m)
    ]

cut_equals-assignment :
    (k v : Bytes) → All (λ c. (c == b'=') ≡ false) k → cut_equals (assignment k v) ≡ some (k, v)
unfolding cut_equals
cut_equals-assignment [] v h = refl
cut_equals-assignment (c ∷ k) v h = rw (h.0, cut_equals-assignment k v h.1) refl

variable-assignment :
    (k v : Bytes)
    → All (λ c. (c == b'=') ≡ false) k
    → bytes_eq k [] ≡ false
    → variable (assignment k v) ≡ some (k, v)
variable-assignment k v h some_name =
    ap (λ o. elim o [ none ↦ none | some e ↦ (if bytes_eq e.0 [] then none else some e) ])
      (cut_equals-assignment k v h)
    ∙ ap (λ t. if t then none else some (k, v)) some_name

module _ (lib : TextLibrary) where
  -- A line that says what it seems to: no white space and no quotes at the ends, no comment and no mark
  -- of the byte order at the beginning, and no "=" in the key.
  pub record IsPlain (k v : Bytes) : Type 0 where
    pub some_text : bytes_eq (assignment k v) [] ≡ false
    pub no_mark : has_prefix (239 ∷ 187 ∷ 191 ∷ []) (assignment k v) ≡ false
    pub no_comment : has_prefix (utf8 "#") (assignment k v) ≡ false
    pub no_equals : All (λ c. (c == b'=') ≡ false) k
    pub trimmed : lib.trim_space (assignment k v) ≡ assignment k v
    pub trimmed_key : lib.trim_space k ≡ k
    pub trimmed_value : lib.trim_space v ≡ v
    pub no_quotes : trim_quotes v ≡ v

  parse_line-assignment :
      (k v : Bytes) → IsPlain k v → parse_line lib (assignment k v) ≡ some (k, v)
  unfolding parse_line trim_prefix
  parse_line-assignment k v p =
      rw
        (
          p.no_mark,
          p.trimmed,
          p.some_text,
          p.no_comment,
          cut_equals-assignment k v p.no_equals,
          p.trimmed_key,
          p.trimmed_value,
          p.no_quotes,
        )
        refl

  set_line-value :
      (q : Bytes) (e : Option (Bytes × Bytes)) (m : Env)
      → get_key q (set_line lib e m) ≡ prefer (value_of q e) (get_key q m)
  set_line-value q none m = refl
  set_line-value q (some (k, v)) m =
      get_key-set_key q k v m ∙ if-prefer (bytes_eq k q) v (get_key q m)

  parse_lines-value :
      (q : Bytes) (lines : List Bytes) (m : Env)
      → get_key q (parse_lines lib lines m)
        ≡ prefer (last_value q (map (parse_line lib) lines)) (get_key q m)
  unfolding parse_lines
  parse_lines-value q [] m = refl
  parse_lines-value q (line ∷ lines) m =
      let e = parse_line lib line in
      parse_lines-value q lines (set_line lib e m)
      ∙ ap (prefer (last_value q (map (parse_line lib) lines))) (set_line-value q e m)
      ∙ prefer_assoc (last_value q (map (parse_line lib) lines)) (value_of q e) (get_key q m)

  -- A file that can be read gives a map. A key has a value in it exactly when a line of the file sets
  -- the key, and the value is that of the last variable of the environment with the key's name,
  -- or that of the last line that sets the key where there is none; a variable that no line sets
  -- adds nothing. A line KEY=VALUE sets KEY to VALUE, and so does a variable. A file that cannot be
  -- read gives an error. Conditions on KEY=VALUE: the line says what it seems to (no blanks or
  -- quotes at the ends of its parts, no comment, no "=" in the name), and the name is not empty.
  pub load_env_file_values :
      (lines environ : List Bytes) (q k v : Bytes)
      → IsPlain k v
      → bytes_eq k [] ≡ false
      → ((m : Env) × (load_env_file lib (some lines) environ ≡ some m)
          × (get_key q m
              ≡ overlay
                  (last_value q (map variable environ))
                  (last_value q (map (parse_line lib) lines))))
        × ((parse_line lib (assignment k v) ≡ some (k, v))
            × ((variable (assignment k v) ≡ some (k, v)) × (load_env_file lib none environ ≡ none)))
  unfolding load_env_file
  load_env_file_values lines environ q k v p some_name = (
    (
      override_all environ (parse_lines lib lines []),
      refl,
      override_all-value q environ (parse_lines lib lines [])
          ∙ ap (overlay (last_value q (map variable environ))) (
              parse_lines-value q lines []
              ∙ prefer-none (last_value q (map (parse_line lib) lines))),
    ),
    (parse_line-assignment k v p, (variable-assignment k v p.no_equals some_name, refl)),
  )
