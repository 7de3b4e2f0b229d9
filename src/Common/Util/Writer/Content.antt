-- ===== src/Common/Util/Writer/Content.antt =====
-- What the writer leaves in its buffer, and when it overflows.
use aarch.Prelude.{
  ℕ, ◌+◌, ◌^◌, ◌≤◌, ◌<◌, ◌≡◌, ◌⊎◌, refl, ◌∙◌, arith, List, [], ◌∷◌, u8, Bytes, update, length, some,
}
use aarch.Common.Util.Writer.{Writer, sw_u8}
use aarch.Common.Util.Writer.Emit.{emit}

-- The bytes of a list stand in memory from `i` on.
abbrev pub Holds : Bytes → ℕ → List ℕ → Type 0
Holds b i [] = Unit {0}
Holds b i (x ∷ xs) = (b i ≡ x) × Holds b (i + 1) xs

abbrev pub AllBytes : List ℕ → Type 0
AllBytes [] = Unit {0}
AllBytes (x ∷ xs) = (x < 256) × AllBytes xs

-- The writer after `xs` when they fit: the bytes are in place, nothing else is touched.
pub record Wrote (b : Bytes) (w : Writer) (xs : List ℕ) (w' : Writer) : Type 0 where
  pub out : Bytes
  pub buf : w'.buf ≡ some out
  pub cap : w'.cap ≡ w.cap
  pub pos : w'.pos ≡ w.pos + length xs
  pub overflow : w'.overflow ≡ w.overflow
  pub held : Holds out w.pos xs
  pub outside : (j : ℕ) → (j < w.pos) ⊎ (w.pos + length xs ≤ j) → out j ≡ b j

-- One byte that fits.
record Put (b : Bytes) (w : Writer) (x : ℕ) (w' : Writer) : Type 0 where
  buf : w'.buf ≡ some (update b w.pos x)
  cap : w'.cap ≡ w.cap
  pos : w'.pos ≡ w.pos + 1
  overflow : w'.overflow ≡ w.overflow

sw_u8-Put :
    {w : Writer} {b : Bytes} (x : ℕ)
    → w.buf ≡ some b
    → x < 256
    → w.pos < w.cap
    → w.cap < 2 ^ 64
    → Put b w x (sw_u8 w x)
unfolding sw_u8
sw_u8-Put {w} x e h fits small =
    let byte : u8 x ≡ x = omega arith in
    record { buf = ground arith; cap = ground arith; pos = ground arith; overflow = ground arith }

Wrote-cons :
    {b : Bytes} {w w' w'' : Writer} {x : ℕ} (xs : List ℕ)
    → Put b w x w'
    → Wrote (update b w.pos x) w' xs w''
    → Wrote b w (x ∷ xs) w''
Wrote-cons {b} {w} {w'} {w''} {x} xs put rest = record {
  out = rest.out;
  buf = rest.buf;
  cap = rest.cap ∙ put.cap;
  pos = omega (arith, rest.pos, put.pos);
  overflow = rest.overflow ∙ put.overflow;
  held = (ground (arith, put.pos, rest.outside w.pos), rw put.pos at rest.held);
  outside = λ j p. ground (arith, put.pos, rest.outside j);
}

pub emit-Wrote :
    (xs : List ℕ) {w : Writer} {b : Bytes}
    → w.buf ≡ some b
    → AllBytes xs
    → w.pos + length xs ≤ w.cap
    → w.cap < 2 ^ 64
    → Wrote b w xs (emit w xs)
unfolding emit
emit-Wrote [] {b = b} e h fits small = record {
  out = b;
  buf = e;
  cap = refl;
  pos = omega arith;
  overflow = refl;
  held = tt;
  outside = λ j p. refl;
}
emit-Wrote (x ∷ xs) {w} {b} e h fits small =
    let put : Put b w x (sw_u8 w x) = sw_u8-Put x e h.0 (omega arith) small in
    Wrote-cons xs put
      (emit-Wrote xs put.buf h.1 (omega (arith, put.cap, put.pos)) (omega (arith, put.cap)))
