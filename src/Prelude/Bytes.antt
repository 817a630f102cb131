-- ===== src/Prelude/Bytes.antt =====
-- Byte slices: `copy` into a slice, and encoding/binary's LittleEndian and BigEndian for uint32.
use Prim.Native.Nat.{ℕ, zero, suc, ◌+◌, ◌*◌, ◌/◌, ◌%◌, ◌^◌, ◌<◌}
use mathlib.Core.Path.{◌≡◌, refl, ap, sym, ◌∙◌}
use mathlib.Core.List.{List, [], ◌∷◌, ◌++◌}
use native.Mathlib.Omega.{arith}
use xtaci_kcptun.Prelude.Lists.{length, take, drop, take-append-drop, length-take, length-drop}

-- `copy(buf[off:], src)`: what does not fit is dropped.
unfoldable pub copy_at : ℕ → List ℕ → List ℕ → List ℕ
copy_at zero [] buf = buf
copy_at zero (x ∷ src) [] = []
copy_at zero (x ∷ src) (b ∷ buf) = x ∷ copy_at zero src buf
copy_at (suc off) src [] = []
copy_at (suc off) src (b ∷ buf) = b ∷ copy_at off src buf

unfoldable pub le32 : ℕ → List ℕ
le32 v = (v % 256) ∷ (v / 256 % 256) ∷ (v / 65536 % 256) ∷ (v / 16777216 % 256) ∷ []

-- `LittleEndian.Uint32`; a slice of fewer than four bytes makes it panic, and no caller has one.
unfoldable pub read_le32 : List ℕ → ℕ
read_le32 (a ∷ b ∷ c ∷ d ∷ r) = a + 256 * b + 65536 * c + 16777216 * d
read_le32 _ = 0

unfoldable pub be32 : ℕ → List ℕ
be32 v = (v / 16777216 % 256) ∷ (v / 65536 % 256) ∷ (v / 256 % 256) ∷ (v % 256) ∷ []

unfoldable pub read_be32 : List ℕ → ℕ
read_be32 (a ∷ b ∷ c ∷ d ∷ r) = 16777216 * a + 65536 * b + 256 * c + d
read_be32 _ = 0

abbrev pub AllBytes : List ℕ → Type 0
AllBytes [] = Unit
AllBytes (b ∷ bs) = (b < 256) × AllBytes bs

pub length-le32 : (v : ℕ) → length (le32 v) ≡ 4
unfolding le32
length-le32 v = refl

pub read_le32-le32 : (v : ℕ) (rest : List ℕ) → v < 2 ^ 32 → read_le32 (le32 v ++ rest) ≡ v
unfolding read_le32 le32
read_le32-le32 v rest h = omega arith

pub read_be32-be32 : (v : ℕ) (rest : List ℕ) → v < 2 ^ 32 → read_be32 (be32 v ++ rest) ≡ v
unfolding read_be32 be32
read_be32-be32 v rest h = omega arith

-- A write over the second of three segments replaces that segment.
pub copy_at-segment :
    (a src b c : List ℕ)
    → length src ≡ length b
    → copy_at (length a) src (a ++ (b ++ c)) ≡ a ++ (src ++ c)
unfolding copy_at
copy_at-segment [] [] [] c h = refl
copy_at-segment [] [] (y ∷ b) c h = absurd (omega arith)
copy_at-segment [] (x ∷ src) [] c h = absurd (omega arith)
copy_at-segment [] (x ∷ src) (y ∷ b) c h = ap (◌∷◌ x) (copy_at-segment [] src b c (omega arith))
copy_at-segment (y ∷ a) src b c h = ap (◌∷◌ y) (copy_at-segment a src b c h)

pub length-copy_at : (off : ℕ) (src buf : List ℕ) → length (copy_at off src buf) ≡ length buf
unfolding copy_at
length-copy_at zero [] buf = refl
length-copy_at zero (x ∷ src) [] = refl
length-copy_at zero (x ∷ src) (b ∷ buf) = ap suc (length-copy_at zero src buf)
length-copy_at (suc off) src [] = refl
length-copy_at (suc off) src (b ∷ buf) = ap suc (length-copy_at off src buf)

-- A slice of `n + m` elements is one of `n` and one of `m`.
pub record Split (n m : ℕ) (xs : List ℕ) : Type 0 where
  pub front : List ℕ
  pub back : List ℕ
  pub joined : xs ≡ front ++ back
  pub front_length : length front ≡ n
  pub back_length : length back ≡ m

pub split : (n m : ℕ) (xs : List ℕ) → length xs ≡ n + m → Split n m xs
split n m xs h = record {
  front = take n xs;
  back = drop n xs;
  joined = sym (take-append-drop n xs);
  front_length = length-take n xs ∙ omega arith;
  back_length = length-drop n xs ∙ omega arith;
}

pub drop-append : (xs ys : List ℕ) → drop (length xs) (xs ++ ys) ≡ ys
drop-append [] ys = refl
drop-append (x ∷ xs) ys = drop-append xs ys

-- Four bytes are the encoding of the word that they are read as.
pub le32-read_le32 :
    (bs rest : List ℕ) → length bs ≡ 4 → AllBytes bs → le32 (read_le32 (bs ++ rest)) ≡ bs
unfolding le32 read_le32
le32-read_le32 (a ∷ b ∷ c ∷ d ∷ []) rest h k = ground arith
le32-read_le32 (a ∷ b ∷ c ∷ d ∷ e ∷ r) rest h k = absurd (omega arith)
le32-read_le32 (a ∷ b ∷ c ∷ []) rest h k = absurd (omega arith)
le32-read_le32 (a ∷ b ∷ []) rest h k = absurd (omega arith)
le32-read_le32 (a ∷ []) rest h k = absurd (omega arith)
le32-read_le32 [] rest h k = absurd (omega arith)

pub read_le32-lt :
    (bs rest : List ℕ) → length bs ≡ 4 → AllBytes bs → read_le32 (bs ++ rest) < 2 ^ 32
unfolding read_le32
read_le32-lt (a ∷ b ∷ c ∷ d ∷ []) rest h k = omega arith
read_le32-lt (a ∷ b ∷ c ∷ d ∷ e ∷ r) rest h k = absurd (omega arith)
read_le32-lt (a ∷ b ∷ c ∷ []) rest h k = absurd (omega arith)
read_le32-lt (a ∷ b ∷ []) rest h k = absurd (omega arith)
read_le32-lt (a ∷ []) rest h k = absurd (omega arith)
read_le32-lt [] rest h k = absurd (omega arith)

pub AllBytes-append : (xs ys : List ℕ) → AllBytes (xs ++ ys) → AllBytes xs × AllBytes ys
AllBytes-append [] ys h = (tt, h)
AllBytes-append (x ∷ xs) ys h = let r = AllBytes-append xs ys h.1 in ((h.0, r.0), r.1)

-- A write or a read behind a segment goes on in the rest.
pub copy_at-skip :
    (n off : ℕ) (a src rest : List ℕ)
    → n ≡ length a + off
    → copy_at n src (a ++ rest) ≡ a ++ copy_at off src rest
unfolding copy_at
copy_at-skip n off [] src rest h = ap (λ m. copy_at m src rest) (omega arith)
copy_at-skip zero off (y ∷ a) src rest h = absurd (omega arith)
copy_at-skip (suc n) off (y ∷ a) src rest h =
    ap (◌∷◌ y) (copy_at-skip n off a src rest (omega arith))

pub drop-skip :
    (n off : ℕ) (a rest : List ℕ) → n ≡ length a + off → drop n (a ++ rest) ≡ drop off rest
drop-skip n off [] rest h = ap (λ m. drop m rest) (omega arith)
drop-skip zero off (y ∷ a) rest h = absurd (omega arith)
drop-skip (suc n) off (y ∷ a) rest h = drop-skip n off a rest (omega arith)

-- A write at the front over as many bytes, with nothing behind them or with a rest.
pub copy_at-front : (src b c : List ℕ) → length src ≡ length b → copy_at 0 src (b ++ c) ≡ src ++ c
copy_at-front src b c h = copy_at-segment [] src b c h

pub copy_at-whole : (src b : List ℕ) → length src ≡ length b → copy_at 0 src b ≡ src
unfolding copy_at
copy_at-whole [] [] h = refl
copy_at-whole [] (y ∷ b) h = absurd (omega arith)
copy_at-whole (x ∷ src) [] h = absurd (omega arith)
copy_at-whole (x ∷ src) (y ∷ b) h = ap (◌∷◌ x) (copy_at-whole src b (omega arith))

-- The four segments of a packet: nonce, checksum, flow id, payload.
pub record Segments (xs : List ℕ) : Type 0 where
  pub nonce : List ℕ
  pub sum : List ℕ
  pub word : List ℕ
  pub rest : List ℕ
  pub joined : xs ≡ nonce ++ (sum ++ (word ++ rest))
  pub nonce_length : length nonce ≡ 16
  pub sum_length : length sum ≡ 4
  pub word_length : length word ≡ 4
  pub rest_length : 24 + length rest ≡ length xs

pub segments : (m : ℕ) (xs : List ℕ) → length xs ≡ 24 + m → Segments xs
segments m xs h = cut (split 16 (8 + m) xs (omega arith))
  where
    cut₂ :
        (n : List ℕ)
        → length n ≡ 16
        → (s : List ℕ) → length s ≡ 4
        → (b : List ℕ) → xs ≡ n ++ (s ++ b)
        → Split 4 m b
        → Segments xs
    cut₂ n ln s ls b e c = record {
      nonce = n;
      sum = s;
      word = c.front;
      rest = c.back;
      joined = e ∙ ap (λ t. n ++ (s ++ t)) c.joined;
      nonce_length = ln;
      sum_length = ls;
      word_length = c.front_length;
      rest_length = omega (arith, c.back_length);
    }

    cut₁ :
        (n : List ℕ) → length n ≡ 16 → (a : List ℕ) → xs ≡ n ++ a → Split 4 (4 + m) a → Segments xs
    cut₁ n ln a e b =
        cut₂ n ln b.front b.front_length b.back (e ∙ ap (◌++◌ n) b.joined)
          (split 4 m b.back b.back_length)

    cut : Split 16 (8 + m) xs → Segments xs
    cut a =
        cut₁ a.front a.front_length a.back a.joined
          (split 4 (4 + m) a.back (omega (arith, a.back_length)))
