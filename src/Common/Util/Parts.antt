-- ===== src/Common/Util/Parts.antt =====
-- A whole state: its fields, and the arrays between them, in the order of the calls that write
-- them.
use mathlib.Core.List.{append_assoc}
use aarch.Prelude.{
  ℕ, zero, suc, ◌+◌, ◌^◌, ◌≤◌, ◌<◌, ◌≡◌, ◌⊎◌, refl, sym, ap, ◌∙◌, arith, List, [], ◌∷◌, ◌++◌, Bytes,
  IsBytes, none, length, length-append,
}
use aarch.Common.Util.Writer.{Writer, sw_u8, sw_mem}
use aarch.Common.Util.Writer.Emit.{slice, emit, emit-append}
use aarch.Common.Util.Writer.Bulk.{length-slice, sw_mem-eq-emit}
use aarch.Common.Util.Writer.Content.{AllBytes}
use aarch.Common.Util.RoundTrip.{
  Field, write_all, all_bytes, total, length-all_bytes, write_all-eq-emit, AllBytes-append,
  all_bytes-AllBytes,
}

pub data Part : Type 0 where
  fields : List Field → Part
  block : Bytes → ℕ → Part

abbrev pub write_parts : Writer → List Part → Writer
write_parts w [] = w
write_parts w (fields fs ∷ ps) = write_parts (write_all w fs) ps
write_parts w (block p n ∷ ps) = write_parts (sw_mem w p n) ps

-- A writer that counts, or has room for `n` more bytes.
abbrev pub Ready : Writer → ℕ → Type 0
Ready w n = ((w.buf ≡ none) ⊎ (w.pos + n ≤ w.cap)) × (w.cap < 2 ^ 64) × (w.pos + n < 2 ^ 64)

-- The first `n` bytes of an array.
unfoldable pub chunk : Bytes → ℕ → List ℕ
chunk p n = slice p 0 n

pub length-chunk : (p : Bytes) (n : ℕ) → length (chunk p n) ≡ n
unfolding chunk
length-chunk p n = length-slice p 0 n

sw_mem-chunk :
    (w : Writer) (p : Bytes) (n : ℕ) → IsBytes p → Ready w n → sw_mem w p n ≡ emit w (chunk p n)
unfolding chunk
sw_mem-chunk w p n h room = sw_mem-eq-emit w p n h room.0 room.1 room.2

abbrev pub part_bytes : Part → List ℕ
part_bytes (fields fs) = all_bytes fs
part_bytes (block p n) = chunk p n

abbrev pub parts_bytes : List Part → List ℕ
parts_bytes [] = []
parts_bytes (p ∷ ps) = part_bytes p ++ parts_bytes ps

-- The arrays hold bytes.
abbrev pub HoldBytes : List Part → Type 0
HoldBytes [] = Unit {0}
HoldBytes (fields fs ∷ ps) = HoldBytes ps
HoldBytes (block p n ∷ ps) = IsBytes p × HoldBytes ps

sw_u8-Ready : (w : Writer) (x n : ℕ) → Ready w (suc n) → Ready (sw_u8 w x) n
unfolding sw_u8
sw_u8-Ready w x n h = ground arith

emit-Ready : (xs : List ℕ) (w : Writer) (n : ℕ) → Ready w (length xs + n) → Ready (emit w xs) n
unfolding emit
emit-Ready [] w n h = ground arith
emit-Ready (x ∷ xs) w n h =
    emit-Ready xs (sw_u8 w x) n (sw_u8-Ready w x (length xs + n) (ground arith))

-- The parts are written as the bytes of all of them, one after another.
pub write_parts-eq-emit :
    (ps : List Part) (w : Writer)
    → HoldBytes ps
    → Ready w (length (parts_bytes ps))
    → write_parts w ps ≡ emit w (parts_bytes ps)
write_parts-eq-emit [] w h room = unfold emit in refl
write_parts-eq-emit (fields fs ∷ ps) w h room =
    let first = write_all-eq-emit w fs in
    let more = length-append (all_bytes fs) (parts_bytes ps) in
    rw (emit-append w (all_bytes fs) (parts_bytes ps), first)
      (write_parts-eq-emit ps (emit w (all_bytes fs)) h
        (emit-Ready (all_bytes fs) w _ (rw more at room)))
write_parts-eq-emit (block p n ∷ ps) w h room =
    let more = length-append (chunk p n) (parts_bytes ps) in
    let first = sw_mem-chunk w p n h.0 (ground (arith, more, length-chunk p n)) in
    rw (emit-append w (chunk p n) (parts_bytes ps), first)
      (write_parts-eq-emit ps (emit w (chunk p n)) h.1
        (emit-Ready (chunk p n) w _ (rw more at room)))

slice-AllBytes : (p : Bytes) (i n : ℕ) → IsBytes p → AllBytes (slice p i n)
slice-AllBytes p i zero h = tt
slice-AllBytes p i (suc n) h = (h i, slice-AllBytes p (i + 1) n h)

chunk-AllBytes : (p : Bytes) (n : ℕ) → IsBytes p → AllBytes (chunk p n)
unfolding chunk
chunk-AllBytes p n h = slice-AllBytes p 0 n h

pub parts_bytes-AllBytes : (ps : List Part) → HoldBytes ps → AllBytes (parts_bytes ps)
parts_bytes-AllBytes [] h = tt
parts_bytes-AllBytes (fields fs ∷ ps) h =
    AllBytes-append (all_bytes fs) (parts_bytes ps) (all_bytes-AllBytes fs)
      (parts_bytes-AllBytes ps h)
parts_bytes-AllBytes (block p n ∷ ps) h =
    AllBytes-append (chunk p n) (parts_bytes ps) (chunk-AllBytes p n h.0)
      (parts_bytes-AllBytes ps h.1)

-- The number of bytes of the parts.
abbrev pub parts_size : List Part → ℕ
parts_size [] = 0
parts_size (fields fs ∷ ps) = total fs + parts_size ps
parts_size (block p n ∷ ps) = n + parts_size ps

pub length-parts_bytes : (ps : List Part) → length (parts_bytes ps) ≡ parts_size ps
length-parts_bytes [] = refl
length-parts_bytes (fields fs ∷ ps) = omega (
  arith,
  length-append (all_bytes fs) (parts_bytes ps),
  length-all_bytes fs,
  length-parts_bytes ps,
)
length-parts_bytes (block p n ∷ ps) =
    omega
      (arith, length-append (chunk p n) (parts_bytes ps), length-chunk p n, length-parts_bytes ps)

pub parts_bytes-append :
    (ps qs : List Part) → parts_bytes (ps ++ qs) ≡ parts_bytes ps ++ parts_bytes qs
parts_bytes-append [] qs = refl
parts_bytes-append (p ∷ ps) qs =
    ap (λ xs. part_bytes p ++ xs) (parts_bytes-append ps qs)
    ∙ sym (append_assoc (part_bytes p) (parts_bytes ps) (parts_bytes qs))

pub parts_size-append : (ps qs : List Part) → parts_size (ps ++ qs) ≡ parts_size ps + parts_size qs
parts_size-append [] qs = omega arith
parts_size-append (fields fs ∷ ps) qs = omega (arith, parts_size-append ps qs)
parts_size-append (block p n ∷ ps) qs = omega (arith, parts_size-append ps qs)
