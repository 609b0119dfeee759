-- ===== src/Protocol/Scanner.antt =====
-- internal/protocol/protocol.go: Builder and Scanner, the big-endian codec of payloads.
pub mod Reads
use Prim.Native.Nat.{zero, suc}
use backuper.Prelude.{
  ℕ, ◌+◌, ◌*◌, ◌/◌, ◌%◌, ◌^◌, ◌++◌, [], ◌∷◌, Bool, true, false, Option, none, some, Bytes, utf8,
  dec, length, take, drop, ltb, if◌then◌else◌,
}
use backuper.Prelude.Int.{ℤ, to_word, of_word}
use backuper.Protocol.Err
use backuper.Protocol.Err.{ProtoError}

-- The low k bytes of a number, the most significant first, and the number that bytes spell
-- (encoding/binary.BigEndian).
unfoldable pub big_endian : ℕ → ℕ → Bytes
big_endian zero v = []
big_endian (suc k) v = big_endian k (v / 256) ++ (v % 256) ∷ []

unfoldable pub of_big_endian : ℕ → Bytes → ℕ
of_big_endian acc [] = acc
of_big_endian acc (b ∷ bs) = of_big_endian (acc * 256 + b) bs

-- A Builder is its buffer; each method appends.
abbrev pub Builder : Type 0
Builder = Bytes

unfoldable pub put_u8 : ℕ → Builder → Builder
put_u8 v b = b ++ v ∷ []

unfoldable pub put_u16 : ℕ → Builder → Builder
put_u16 v b = b ++ big_endian 2 v

unfoldable pub put_u32 : ℕ → Builder → Builder
put_u32 v b = b ++ big_endian 4 v

unfoldable pub put_u64 : ℕ → Builder → Builder
put_u64 v b = b ++ big_endian 8 v

unfoldable pub put_i64 : ℤ → Builder → Builder
unfolding put_u64
put_i64 v b = put_u64 (to_word v) b

-- uint32(len(s)) keeps the low 32 bits of the length
unfoldable pub put_str : Bytes → Builder → Builder
unfolding put_u32
put_str s b = put_u32 (length s % 2 ^ 32) b ++ s

unfoldable pub put_raw : Bytes → Builder → Builder
put_raw p b = b ++ p

pub record Scanner : Type 0 where
  pub buf : Bytes
  pub pos : ℕ
  pub err : Option ProtoError

unfoldable pub new_scanner : Bytes → Scanner
new_scanner b = record { buf = b; pos = 0; err = none }

abbrev pub advance : ℕ → Scanner → Scanner
advance n s = record s { pos = s.pos + n }

abbrev pub underflow : ℕ → Scanner → ProtoError
underflow n s = record {
  code = Err.protocol_error;
  msg =
      utf8 "payload underflow: need "
      ++ dec n
      ++ utf8 " at "
      ++ dec s.pos
      ++ utf8 " of "
      ++ dec (length s.buf);
}

-- (*Scanner).need
unfoldable pub need : ℕ → Scanner → Bool × Scanner
need n s = elim s.err [
  | some _ ↦ (false, s)
  | none ↦
      if ltb (length s.buf) (s.pos + n)
      then (false, record s { err = some (underflow n s) })
      else (true, s)
]

-- A method of the scanner: its result and the new state.
abbrev pub Reader {ℓ} : Type ℓ → Type ℓ
Reader A = Scanner → A × Scanner

infixl 5 ◌>>=◌
unfoldable pub ◌>>=◌ {ℓ κ} : {A : Type ℓ} {B : Type κ} → Reader A → (A → Reader B) → Reader B
◌>>=◌ m f s = let (a, s') = m s in f a s'

unfoldable pub pure {ℓ} : {A : Type ℓ} → A → Reader A
pure a s = (a, s)

-- what follows a call of `need n`: the zero value, or the next n bytes read by `f`
unfoldable pub when_room {ℓ} : {A : Type ℓ} → ℕ → A → (Bytes → A) → Reader A
when_room n zero_value f s =
    let (room, s') = need n s in
    if room then (f (take n (drop s'.pos s'.buf)), advance n s') else (zero_value, s')

unfoldable pub u8 : Reader ℕ
unfolding when_room
u8 = when_room 1 0 (of_big_endian 0)

unfoldable pub u16 : Reader ℕ
unfolding when_room
u16 = when_room 2 0 (of_big_endian 0)

unfoldable pub u32 : Reader ℕ
unfolding when_room
u32 = when_room 4 0 (of_big_endian 0)

unfoldable pub u64 : Reader ℕ
unfolding when_room
u64 = when_room 8 0 (of_big_endian 0)

unfoldable pub i64 : Reader ℤ
unfolding u64
i64 s = let (w, s') = u64 s in (of_word w, s')

-- (*Scanner).Bytes
unfoldable pub raw : ℕ → Reader Bytes
unfolding when_room
raw n = when_room n [] (λ b. b)

unfoldable pub str : Reader Bytes
unfolding u32 ◌>>=◌ when_room
str = do n ← u32; when_room n [] (λ b. b)

-- `m := ...; return m, s.Err()` over a fresh scanner
abbrev pub parse_with {ℓ} : {A : Type ℓ} → Reader A → Bytes → A × Option ProtoError
parse_with r p = let (m, s) = r (new_scanner p) in (m, s.err)
