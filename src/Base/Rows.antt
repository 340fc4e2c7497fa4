-- ===== src/Base/Rows.antt =====
-- Rows of bytes: comparing them, and reading and writing a part of one.
use Prim.Native.Nat.{ℕ, zero, suc, ◌+◌, ◌-◌, ◌≤◌}
use mathlib.Core.Path.{◌≡◌, refl, ap, sym, ◌∙◌}
use mathlib.Core.Bool.{Bool, true, false, ◌&&◌}
use mathlib.Core.List.{List, [], ◌∷◌, ◌++◌, append_assoc}
use native.Mathlib.Omega.{arith}
use orbitnet.Base.Tests.{◌==◌, ==_iff, ==_self, &&_true}
use orbitnet.Base.Lists.{
  length-append, length-take, length-drop, take-drop, length, take, drop, length-append,
  take_append_at, drop_append_at, drop_add, length-take, length-drop, take-drop,
}

abbrev pub eqb_bytes : List ℕ → List ℕ → Bool
eqb_bytes [] [] = true
eqb_bytes (a ∷ xs) [] = false
eqb_bytes [] (b ∷ ys) = false
eqb_bytes (a ∷ xs) (b ∷ ys) = a == b && eqb_bytes xs ys

pub eqb_bytes→eq : (xs ys : List ℕ) → eqb_bytes xs ys ≡ true → xs ≡ ys
eqb_bytes→eq [] [] h = refl
eqb_bytes→eq [] (b ∷ ys) h = cc
eqb_bytes→eq (a ∷ xs) [] h = cc
eqb_bytes→eq (a ∷ xs) (b ∷ ys) h =
    let (head, tail) = &&_true (a == b) (eqb_bytes xs ys) h in
    λ i. (==_iff a b).0 head i ∷ eqb_bytes→eq xs ys tail i

pub eqb_bytes_self : (xs : List ℕ) → eqb_bytes xs xs ≡ true
eqb_bytes_self [] = refl
eqb_bytes_self (x ∷ xs) = rw (==_self x, eqb_bytes_self xs) refl

-- The entries `from..from + count` of a row, and a write over them.
abbrev pub slice : List ℕ → ℕ → ℕ → List ℕ
slice row from count = take count (drop from row)

abbrev pub splice : List ℕ → ℕ → List ℕ → List ℕ
splice row from bs = take from row ++ (bs ++ drop (from + length bs) row)

module _ (pre cell rest : List ℕ) (from : ℕ) (here : from ≡ length pre) where
  -- A cell of a row that is written down in three parts.
  pub slice_parts :
      (count : ℕ) → count ≡ length cell → slice (pre ++ (cell ++ rest)) from count ≡ cell
  slice_parts count size =
      ap (take count) (drop_append_at from pre (cell ++ rest) here)
      ∙ take_append_at count cell rest size

  pub splice_parts :
      (bs : List ℕ)
      → length bs ≡ length cell
      → splice (pre ++ (cell ++ rest)) from bs ≡ (pre ++ bs) ++ rest
  splice_parts bs size =
      let row = pre ++ (cell ++ rest) in
      let past : drop (from + length bs) row ≡ rest =
        sym (drop_add from (length bs) row)
        ∙ ap (drop (length bs)) (drop_append_at from pre (cell ++ rest) here)
        ∙ drop_append_at (length bs) cell rest size in
      ap (λ p. p ++ (bs ++ drop (from + length bs) row))
        (take_append_at from pre (cell ++ rest) here)
      ∙ ap (λ r. pre ++ (bs ++ r)) past
      ∙ sym (append_assoc pre bs rest)

-- A read of the front of what is joined.
slice_front :
    (xs ys : List ℕ) (from count : ℕ)
    → from + count ≤ length xs
    → slice (xs ++ ys) from count ≡ slice xs from count
slice_front xs ys zero zero h = refl
slice_front [] ys zero (suc count) h = absurd (omega (arith, h))
slice_front (x ∷ xs) ys zero (suc count) h =
    ap (λ r. x ∷ r) (slice_front xs ys zero count (omega (arith, h)))
slice_front [] ys (suc from) zero h = absurd (omega (arith, h))
slice_front [] ys (suc from) (suc count) h = absurd (omega (arith, h))
slice_front (x ∷ xs) ys (suc from) count h = slice_front xs ys from count (omega (arith, h))

drop_past : (xs ys : List ℕ) (n : ℕ) → drop (length xs + n) (xs ++ ys) ≡ drop n ys
drop_past xs ys n =
    sym (drop_add (length xs) n (xs ++ ys)) ∙ ap (drop n) (drop_append_at (length xs) xs ys refl)

module _ (row bs : List ℕ) (from : ℕ) (room : from + length bs ≤ length row) where
  pub length-splice : length (splice row from bs) ≡ length row
  length-splice =
      let a = length-append (take from row) (bs ++ drop (from + length bs) row) in
      let b = length-append bs (drop (from + length bs) row) in
      let c = length-take from row (omega (arith, room)) in
      omega (arith, a, b, c, length-drop (from + length bs) row room)

  -- A read after a write: of what was written, of what stands before it, and of what stands behind.
  pub slice-splice_self : slice (splice row from bs) from (length bs) ≡ bs
  slice-splice_self =
      slice_parts (take from row) bs (drop (from + length bs) row) from
        (sym (length-take from row (omega (arith, room)))) (length bs) refl

  pub slice-splice_before :
      (at count : ℕ) → at + count ≤ from → slice (splice row from bs) at count ≡ slice row at count
  slice-splice_before at count h =
      let front = length-take from row (omega (arith, room)) in
      slice_front (take from row) (bs ++ drop (from + length bs) row) at count
        (omega (arith, front, h))
      ∙ sym (slice_front (take from row) (drop from row) at count (omega (arith, front, h)))
      ∙ ap (λ r. slice r at count) (take-drop from row)

  pub slice-splice_behind :
      (at count : ℕ)
      → from + length bs ≤ at
      → slice (splice row from bs) at count ≡ slice row at count
  slice-splice_behind at count h =
      let front = length-take from row (omega (arith, room)) in
      let n = at - (from + length bs) in
      let first : length (take from row) + (length bs + n) ≡ at = omega (arith, front, h) in
      let second : from + length bs + n ≡ at = omega (arith, h) in
      ap (take count) (
        ap (λ k. drop k (splice row from bs)) (sym first)
        ∙ drop_past (take from row) (bs ++ drop (from + length bs) row) (length bs + n)
        ∙ drop_past bs (drop (from + length bs) row) n
        ∙ drop_add (from + length bs) n row
        ∙ ap (λ k. drop k row) second)
