-- ===== src/Protocol/Scanner/Reads.antt =====
-- What a reader of the payload codec returns at the encoding of a value.
use Prim.Native.Nat.{zero, suc}
use native.Mathlib.Nat.{pow-suc}
use backuper.Prelude.{
  ℕ, ◌+◌, ◌*◌, ◌/◌, ◌%◌, ◌^◌, ◌≤◌, ◌<◌, ◌≡◌, refl, ap, subst, ◌∙◌, sym, ◌++◌, [], ◌∷◌, none, true,
  arith, Bytes, length, drop, length-append, take-length-append, drop-length-append, drop-drop,
  append_assoc, length-drop, le→ltb,
}
use backuper.Prelude.Int.{ℤ, IsInt64, to_word, of_word, to_word-lt, of_word-to_word}
use backuper.Protocol.Scanner.{
  big_endian, of_big_endian, Scanner, advance, need, Reader, ◌>>=◌, pure, when_room, u8, u16, u32,
  u64, i64, raw, str, new_scanner, parse_with,
}

pub length-big_endian : (k v : ℕ) → length (big_endian k v) ≡ k
unfolding big_endian
length-big_endian zero v = refl
length-big_endian (suc k) v =
    length-append (big_endian k (v / 256)) _ ∙ omega (arith, length-big_endian k (v / 256))

of_big_endian-snoc :
    (xs : Bytes) (b acc : ℕ) → of_big_endian acc (xs ++ b ∷ []) ≡ of_big_endian acc xs * 256 + b
unfolding of_big_endian
of_big_endian-snoc [] b acc = refl
of_big_endian-snoc (x ∷ xs) b acc = of_big_endian-snoc xs b (acc * 256 + x)

quotient_lt : (k v : ℕ) → v < 256 ^ suc k → v / 256 < 256 ^ k
quotient_lt k v h = omega (arith, pow-suc 256 k)

pub of_big_endian-big_endian : (k v : ℕ) → v < 256 ^ k → of_big_endian 0 (big_endian k v) ≡ v
unfolding big_endian
of_big_endian-big_endian zero v h = unfold of_big_endian in omega arith
of_big_endian-big_endian (suc k) v h =
    of_big_endian-snoc (big_endian k (v / 256)) (v % 256) 0
    ∙ omega (arith, of_big_endian-big_endian k (v / 256) (quotient_lt k v h))

-- The bytes at the scanner's position are `rest`, and no error has been met.
pub record At (s : Scanner) (rest : Bytes) : Type 0 where
  pub clean : s.err ≡ none
  pub next : drop s.pos s.buf ≡ rest
  pub inside : s.pos ≤ length s.buf

pub At-advance :
    (s : Scanner) (enc rest : Bytes) → At s (enc ++ rest) → At (advance (length enc) s) rest
At-advance s enc rest h = record {
  clean = h.clean;
  next =
      sym (drop-drop s.pos (length enc) s.buf)
      ∙ ap (drop (length enc)) h.next
      ∙ drop-length-append enc rest;
  inside =
      omega (arith, length-drop s.pos s.buf, ap length h.next, length-append enc rest, h.inside);
}

-- The reader returns the value at its encoding, and goes on behind it.
pub record Reads {ℓ} {A : Type ℓ} (r : Reader A) (enc : Bytes) (v : A) : Type ℓ where
  pub run : (s : Scanner) (rest : Bytes) → At s (enc ++ rest) → r s ≡ (v, advance (length enc) s)

room_fact :
    (s : Scanner) (enc rest : Bytes) (n : ℕ)
    → length enc ≡ n
    → At s (enc ++ rest)
    → s.pos + n ≤ length s.buf
room_fact s enc rest n e h =
    omega (arith, length-drop s.pos s.buf, ap length h.next, length-append enc rest, h.inside)

need-At :
    (s : Scanner) (enc rest : Bytes) (n : ℕ)
    → length enc ≡ n
    → At s (enc ++ rest)
    → need n s ≡ (true, s)
unfolding need
need-At s enc rest n e h = rw h.clean (rw (le→ltb _ _ (room_fact s enc rest n e h)))

when_room-Reads {ℓ} :
    {A : Type ℓ} (enc : Bytes) (n : ℕ) (z : A) (f : Bytes → A)
    → length enc ≡ n
    → Reads (when_room n z f) enc (f enc)
unfolding when_room
when_room-Reads enc n z f e = record {
  run = λ s rest h. rw (need-At s enc rest n e h) (rw (← e, h.next, take-length-append enc rest));
}

pub pure-Reads {ℓ} : {A : Type ℓ} (a : A) → Reads (pure a) [] a
unfolding pure
pure-Reads a = record {
  run = λ s rest h. ap (λ n. (a, record s { pos = n })) {x = s.pos} {y = s.pos + 0} (omega arith);
}

pub bind-Reads {ℓ κ} :
    {A : Type ℓ} {B : Type κ} {r : Reader A} (f : A → Reader B) {e e' : Bytes} {v : A} {w : B}
    → Reads r e v
    → Reads (f v) e' w
    → Reads (r >>= f) (e ++ e') w
unfolding ◌>>=◌
bind-Reads {r} f {e} {e'} {v} {w} hr hf = record {
  run = λ s rest h.
      let h' : At s (e ++ (e' ++ rest)) = rw append_assoc at h in
      rw
        (
          hr.run s (e' ++ rest) h',
          hf.run (advance (length e) s) rest (At-advance s e (e' ++ rest) h'),
        )
        (ap (λ n. (w, record s { pos = n })) (omega (arith, length-append e e')));
}

map-Reads {ℓ κ} :
    {A : Type ℓ} {B : Type κ} {r : Reader A} {e : Bytes} {v : A} (g : A → B)
    → Reads r e v
    → Reads (λ s. (g (r s).0, (r s).1)) e (g v)
map-Reads g h = record { run = λ s rest at. rw (h.run s rest at) }

-- the value read is another name of the value claimed
pub Reads-eq {ℓ} :
    {A : Type ℓ} {r : Reader A} {e : Bytes} {v w : A} → v ≡ w → Reads r e v → Reads r e w
Reads-eq {r} {e} p h = subst (λ x. Reads r e x) p h

word-Reads : (k v : ℕ) → v < 256 ^ k → Reads (when_room k 0 (of_big_endian 0)) (big_endian k v) v
word-Reads k v h =
    Reads-eq (of_big_endian-big_endian k v h)
      (when_room-Reads (big_endian k v) k 0 (of_big_endian 0) (length-big_endian k v))

pub u8-Reads : (v : ℕ) → v < 2 ^ 8 → Reads u8 (v ∷ []) v
unfolding u8 of_big_endian
u8-Reads v h =
    Reads-eq {v = of_big_endian 0 (v ∷ [])} (omega arith)
      (when_room-Reads (v ∷ []) 1 0 (of_big_endian 0) refl)

pub u16-Reads : (v : ℕ) → v < 2 ^ 16 → Reads u16 (big_endian 2 v) v
unfolding u16
u16-Reads v h = word-Reads 2 v h

pub u32-Reads : (v : ℕ) → v < 2 ^ 32 → Reads u32 (big_endian 4 v) v
unfolding u32
u32-Reads v h = word-Reads 4 v h

pub u64-Reads : (v : ℕ) → v < 2 ^ 64 → Reads u64 (big_endian 8 v) v
unfolding u64
u64-Reads v h = word-Reads 8 v h

pub i64-Reads : (v : ℤ) → IsInt64 v → Reads i64 (big_endian 8 (to_word v)) v
unfolding i64
i64-Reads v h =
    Reads-eq (of_word-to_word v h) (map-Reads of_word (word-Reads 8 (to_word v) (to_word-lt v)))

pub raw-Reads : (b : Bytes) (n : ℕ) → length b ≡ n → Reads (raw n) b b
unfolding raw
raw-Reads b n e = when_room-Reads b n [] (λ x. x) e

-- the bytes of a string: its length in four bytes, and the string
abbrev pub str_bytes : Bytes → Bytes
str_bytes b = big_endian 4 (length b % 2 ^ 32) ++ b

pub str-Reads : (b : Bytes) → length b < 2 ^ 32 → Reads str (str_bytes b) b
unfolding str
str-Reads b h =
    let fits : length b % 2 ^ 32 ≡ length b = omega arith in
    rw fits (
      bind-Reads (λ n. when_room n [] (λ x. x)) (u32-Reads (length b) h)
        (when_room-Reads b (length b) [] (λ x. x) refl))

-- A parser returns the value that a payload begins with, and no error, whatever bytes follow.
pub parse_with-Reads {ℓ} :
    {A : Type ℓ} (r : Reader A) (enc rest : Bytes) (v : A)
    → Reads r enc v
    → parse_with r (enc ++ rest) ≡ (v, none)
unfolding new_scanner
parse_with-Reads r enc rest v h = rw (
    h.run (new_scanner (enc ++ rest)) rest
      (record { clean = refl; next = refl; inside = omega arith }))
