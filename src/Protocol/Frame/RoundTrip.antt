-- ===== src/Protocol/Frame/RoundTrip.antt =====
-- Frames that are written are the frames that are read.
use backuper.Prelude.{
  ℕ, ◌%◌, ◌^◌, ◌<◌, ◌≡◌, refl, ap, ◌∙◌, ◌++◌, [], ◌∷◌, none, some, true, suc, subst, arith, Bytes,
  length, length-append, take-length-append, drop-length-append, append_assoc, append-nil, ltb, leb,
  if◌then◌else◌, lt→ltb,
}
use backuper.Protocol.Scanner.{big_endian, of_big_endian}
use backuper.Protocol.Scanner.Reads.{length-big_endian, of_big_endian-big_endian}
use backuper.Protocol.Frame.{
  header, header_size, write_frame, append_write, proto, read_full, FrameRead, FullRead, too_large,
  read_payload, after_payload, after_header, check_header, read_frame,
}

full : Bytes → Bytes → FullRead
full xs rest = record { got = xs; left = rest; err = none }

read_full-append : (xs rest : Bytes) → read_full (length xs) (xs ++ rest) ≡ full xs rest
unfolding read_full full
read_full-append xs rest =
    let within : leb (length xs) (length (xs ++ rest)) ≡ true =
      ground (arith, length-append xs rest) in
    rw (within, take-length-append xs rest, drop-length-append xs rest)

-- The bytes of a frame.
abbrev pub frame_bytes : ℕ → Bytes → Bytes
frame_bytes msg_type payload = header msg_type (length payload) ++ payload

pub write_frame-frame_bytes :
    (t : ℕ) (p w : Bytes) → write_frame append_write t p w ≡ (w ++ frame_bytes t p, none)
unfolding write_frame append_write
write_frame-frame_bytes t [] w = simp append-nil
write_frame-frame_bytes t (b ∷ p) w = rw (lt→ltb 0 (suc (length p)) (omega arith), append_assoc)

length-header : (t n : ℕ) → length (header t n) ≡ header_size
unfolding header
length-header t n = omega (arith, length-big_endian 8 (n % 2 ^ 64))

abbrev pub refused : ℕ → ℕ → ℕ → Bytes → FrameRead
refused max t n input = record {
  msg_type = t;
  payload = [];
  err = some (proto (too_large n max));
  left = input;
}

check_header-header :
    (max t n : ℕ) (input : Bytes)
    → n < 2 ^ 64
    → check_header max (header t n) input
      ≡ (if ltb max n then refused max t n input else read_payload t n input)
unfolding check_header header
check_header-header max t n input h =
    let fits : n % 2 ^ 64 ≡ n = omega arith in
    ap (λ m. if ltb max m then refused max t m input else read_payload t m input)
      (ap (λ m. of_big_endian 0 (big_endian 8 m)) fits ∙ of_big_endian-big_endian 8 n h)

read_frame-header :
    (max t n : ℕ) (rest : Bytes)
    → n < 2 ^ 64
    → read_frame max (header t n ++ rest)
      ≡ (if ltb max n then refused max t n rest else read_payload t n rest)
read_frame-header max t n rest h =
    let whole : read_full header_size (header t n ++ rest) ≡ full (header t n) rest =
      subst (λ k. read_full k (header t n ++ rest) ≡ full (header t n) rest) (length-header t n)
        (read_full-append (header t n) rest) in
    unfold read_frame after_header full in
    ap (after_header max) whole ∙ check_header-header max t n rest h

read_payload-append :
    (t : ℕ) (p rest : Bytes)
    → read_payload t (length p) (p ++ rest)
      ≡ record { msg_type = t; payload = p; err = none; left = rest }
unfolding read_payload
read_payload-append t [] rest = refl
read_payload-append t (b ∷ p) rest =
    rw (lt→ltb 0 (suc (length p)) (omega arith))
      (unfold after_payload full in ap (after_payload t) (read_full-append (b ∷ p) rest))

-- A frame that is written is the frame that is read: its type, its payload, and what follows it on
-- the stream. A payload above the reader's limit is refused before any of it is read.
pub read_frame-write_frame :
    (max t : ℕ) (p rest : Bytes)
    → length p < 2 ^ 64
    → read_frame max ((write_frame append_write t p []).0 ++ rest) ≡ (
        if ltb max (length p)
        then refused max t (length p) (p ++ rest)
        else record { msg_type = t; payload = p; err = none; left = rest })
read_frame-write_frame max t p rest h =
    ap (λ q. read_frame max (q.0 ++ rest)) (write_frame-frame_bytes t p [])
    ∙ ap (read_frame max) (append_assoc (header t (length p)) p rest)
    ∙ (read_frame-header max t (length p) (p ++ rest) h
        ∙ ap (λ r. if ltb max (length p) then refused max t (length p) (p ++ rest) else r)
            (read_payload-append t p rest))
