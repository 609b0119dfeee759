-- ===== src/Blocks/Laws.antt =====
-- The blocks of a file, one after the other, are the file.
use native.Mathlib.Nat.{add-mul, suc-mul, div-add-mod, mod-lt, mul_comm}
use backuper.Prelude.{
  ℕ, suc, ◌+◌, ◌-◌, ◌*◌, ◌/◌, ◌≤◌, ◌<◌, ◌≡◌, refl, sym, ap, ◌∙◌, subst, Bytes, ◌++◌, take, drop,
  length, length-take_le, length-drop, drop-drop, drop_all, take-append-drop, take_all, append-nil,
  ltb, arith, Bool-cases, inl, inr,
}
use backuper.Blocks.{block_count, block_len, read_block}

-- In round i with `left` rounds to go, the rounds that are left reach the end of the file, and
-- none of them begins behind it.
pub record Rounds (bs size left i : ℕ) : Type 0 where
  pub enough : size ≤ (i + left) * bs
  pub needed : (l : ℕ) → left ≡ suc l → (i + l) * bs < size

pub block_count-Rounds : (bs size : ℕ) → 0 < bs → Rounds bs size (block_count bs size) 0
unfolding block_count
block_count-Rounds bs size h =
    let n = (size + bs - 1) / bs in
    let divided = div-add-mod (size + bs - 1) bs in
    let below = mod-lt (size + bs - 1) h in
    let whole = mul_comm bs n in
    record {
      enough = omega (arith, divided, below, whole);
      needed = λ l e.
          let grown = ap (λ k. k * bs) e ∙ suc-mul l bs in
          omega (arith, divided, below, whole, grown);
    }

pub Rounds-next : (bs size left i : ℕ) → Rounds bs size (suc left) i → Rounds bs size left (i + 1)
Rounds-next bs size left i r =
    let same = λ (l : ℕ). ap (λ k. k * bs) (shift i l) in
    record {
      enough = subst (λ k. size ≤ k) (same left) r.enough;
      needed = λ l e. subst (λ k. k < size) (same l) (r.needed (suc l) (ap suc e));
    }
  where
    shift : (i l : ℕ) → i + suc l ≡ i + 1 + l
    shift i l = omega arith

-- a round that is made begins before the end of the file
pub Rounds-begins : (bs size left i : ℕ) → Rounds bs size (suc left) i → i * bs < size
Rounds-begins bs size left i r = omega (arith, r.needed left refl, add-mul i left bs)

pub Rounds-over : (bs size i : ℕ) → Rounds bs size 0 i → size ≤ i * bs
Rounds-over bs size i r = subst (λ k. size ≤ k * bs) (nothing i) r.enough
  where
    nothing : (i : ℕ) → i + 0 ≡ i
    nothing i = omega arith

pub length-read_block :
    (bs i : ℕ) (contents : Bytes)
    → length (read_block bs (length contents) i contents) ≡ block_len bs (length contents) i
unfolding read_block block_len
length-read_block bs i contents =
    length-take_le _ (drop (i * bs) contents) (ground (arith, length-drop (i * bs) contents))

-- a block, and what is behind it
pub read_block-drop :
    (bs i : ℕ) (contents : Bytes)
    → read_block bs (length contents) i contents ++ drop ((i + 1) * bs) contents
      ≡ drop (i * bs) contents
unfolding read_block block_len
read_block-drop bs i contents =
    let size = length contents in
    let next : (i + 1) * bs ≡ i * bs + bs = omega (arith, add-mul i 1 bs) in
    let rest = drop (i * bs) contents in
    elim (Bool-cases (ltb (size - i * bs) bs)) [
      | inl e ↦ rw e (
          ap (λ b. take (size - i * bs) rest ++ b)
            (drop_all ((i + 1) * bs) contents (ground (arith, next)))
          ∙ append-nil (take (size - i * bs) rest)
          ∙ ap (λ n. take n rest) (sym (length-drop (i * bs) contents))
          ∙ take_all rest)
      | inr e ↦ rw e (
          ap (λ b. take bs rest ++ b)
            (ap (λ n. drop n contents) next ∙ sym (drop-drop (i * bs) bs contents))
          ∙ take-append-drop bs rest)
    ]
