-- ===== src/Common/Util/Reading.antt =====
-- Chains of reads: what a chain gives on a blob that holds the bytes of its values.
use mathlib.Core.Path.{fun_ext}
use aarch.Prelude.{
  ℕ, zero, suc, ◌+◌, ◌-◌, ◌<◌, ◌≡◌, refl, ap, ◌∙◌, arith, List, [], ◌++◌, Bytes, ltb, ◌||◌, false,
  u64, if◌then◌else◌, length, length-append,
}
use aarch.Common.Util.Reader.{Reader, sr_mem}
use aarch.Common.Util.Reader.Holds.{Room, advanced}
use aarch.Common.Util.Writer.Emit.{slice}
use aarch.Common.Util.Writer.Bulk.{length-slice}
use aarch.Common.Util.Parts.{chunk}
use aarch.Common.Util.Writer.Content.{Holds}
use aarch.Common.Util.RoundTrip.{
  Field, read_all, values, all_bytes, length-all_bytes, Holds-append_left, Holds-append_right,
  read_all_lem,
}

abbrev pub Read : Type 0 → Type 0
Read A = Reader → A × Reader

unfoldable pub give : {A : Type 0} → A → Read A
give a r = (a, r)

infixl 5 ◌>>=◌
unfoldable pub ◌>>=◌ : {A B : Type 0} → Read A → (A → Read B) → Read B
◌>>=◌ m f r = let (a, r') = m r in f a r'

-- On a blob that holds `xs` next, the chain gives `a` and stands behind them.
pub record Gives {A : Type 0} (m : Read A) (xs : List ℕ) (a : A) : Type 0 where
  pub run :
      (r : Reader) → Room r (length xs) → Holds r.buf r.pos xs → m r ≡ (a, advanced r (length xs))

give_run : {A : Type 0} (a : A) (r : Reader) → give a r ≡ (a, r)
unfolding give
give_run a r = refl

bind_run :
    {A B : Type 0} (m : Read A) (f : A → Read B) (r : Reader) {p : A × Reader}
    → m r ≡ p
    → (m >>= f) r ≡ f p.0 p.1
unfolding ◌>>=◌
bind_run {A} m f r e = ap (λ (p : A × Reader). f p.0 p.1) e

pub give-Gives : {A : Type 0} (a : A) → Gives (give a) [] a
give-Gives a = record { run = λ r room held. ground (arith, give_run a r) }

pub bind-Gives :
    {A B : Type 0} {m : Read A} {xs ys : List ℕ} {a : A} {b : B} (f : A → Read B)
    → Gives m xs a
    → Gives (f a) ys b
    → Gives (m >>= f) (xs ++ ys) b
bind-Gives {m} {xs} {ys} {a} {b} f h k = record {
  run = λ r room held.
      let sum = length-append xs ys in
      let first = h.run r (omega (arith, sum)) (Holds-append_left r.buf r.pos xs ys held) in
      let rest =
        k.run (advanced r (length xs)) (omega (arith, sum))
          (Holds-append_right r.buf r.pos (r.pos + length xs) xs ys refl held) in
      let place : r.pos + length xs + length ys ≡ r.pos + length (xs ++ ys) = omega (arith, sum) in
      bind_run m f r first ∙ rest ∙ ap (λ (k : ℕ). (b, record r { pos = k })) place;
}

Holds-slice :
    (b p : Bytes) (n at i j : ℕ) → Holds b at (slice p i n) → j < n → b (at + j) ≡ p (i + j)
Holds-slice b p zero at i j held small = absurd (omega arith)
Holds-slice b p (suc n) at i zero held small = ground (arith, held.0)
Holds-slice b p (suc n) at i (suc j) held small =
    ground (arith, Holds-slice b p n (at + 1) (i + 1) j held.1 (omega arith))

-- The first `n` elements of one array over another.
abbrev pub overlay : ℕ → Bytes → Bytes → Bytes
overlay n p q i = if ltb i n then p i else q i

sr_mem_held :
    (p q : Bytes) (n : ℕ) (r : Reader)
    → Room r (length (chunk p n))
    → Holds r.buf r.pos (chunk p n)
    → sr_mem r q n ≡ (overlay n p q, advanced r (length (chunk p n)))
unfolding sr_mem chunk
sr_mem_held p q n r room held =
    let width = length-slice p 0 n in
    let there : (ltb r.size r.pos || ltb (r.size - r.pos) n) ≡ false = ground (arith, width) in
    let same : (λ (i : ℕ). if ltb i n then r.buf (r.pos + i) else q i) ≡ overlay n p q =
      fun_ext λ i. ground (arith, Holds-slice r.buf p n r.pos 0 i held) in
    let wide : u64 (r.pos + n) ≡ r.pos + n = omega (arith, width) in
    rw (there, width, wide) (ap (λ (c : Bytes). (c, advanced r n)) same)

-- `sr_mem` into the array `q`.
unfoldable pub read_mem_into : Bytes → ℕ → Read Bytes
read_mem_into q n r = sr_mem r q n

pub read_mem_into-Gives :
    (p q : Bytes) (n : ℕ) → Gives (read_mem_into q n) (chunk p n) (overlay n p q)
unfolding read_mem_into
read_mem_into-Gives p q n = record { run = λ r room held. sr_mem_held p q n r room held }

pub fields_held :
    (fs : List Field) (r : Reader)
    → Room r (length (all_bytes fs))
    → Holds r.buf r.pos (all_bytes fs)
    → read_all r fs ≡ (values fs, advanced r (length (all_bytes fs)))
fields_held fs r room held =
    let width = length-all_bytes fs in rw width (read_all_lem fs r (omega (arith, width)) held)
