-- ===== src/Common/Util/RoundTrip.antt =====
-- A state blob is read back by the same sequence of calls that wrote it.
use aarch.Prelude.{
  ℕ, zero, suc, ◌+◌, ◌/◌, ◌^◌, ◌≤◌, ◌<◌, ◌≡◌, refl, sym, ap, ◌∙◌, arith, List, [], ◌∷◌, ◌++◌, Bytes,
  some, u8, u16, u32, u64, length, length-append,
}
use aarch.Common.Util.Writer.{Writer, sw_u8, sw_u16, sw_u32, sw_u64}
use aarch.Common.Util.Writer.Emit.{
  le_bytes, emit, emit-append, sw_u8-eq-emit, sw_u16-eq-emit, sw_u32-eq-emit, sw_u64-eq-emit,
}
use aarch.Common.Util.Writer.Content.{Holds, AllBytes, Wrote, emit-Wrote}
use aarch.Common.Util.Reader.{Reader, sr_u8, sr_u16, sr_u32, sr_u64}
use aarch.Common.Util.Reader.Holds.{Room, advanced, sr_u8_lem, sr_u16_lem, sr_u32_lem, sr_u64_lem}

-- One field of a state, by the call that writes it.
pub data Field : Type 0 where
  byte half word double : ℕ → Field

abbrev pub width : Field → ℕ
width (byte v) = 1
width (half v) = 2
width (word v) = 4
width (double v) = 8

-- The value that a field keeps of its argument.
abbrev pub value : Field → ℕ
value (byte v) = u8 v
value (half v) = u16 v
value (word v) = u32 v
value (double v) = u64 v

abbrev pub write_field : Writer → Field → Writer
write_field w (byte v) = sw_u8 w v
write_field w (half v) = sw_u16 w v
write_field w (word v) = sw_u32 w v
write_field w (double v) = sw_u64 w v

-- A field is read by its width; its value is not looked at.
abbrev pub read_field : Reader → Field → ℕ × Reader
read_field r (byte v) = sr_u8 r
read_field r (half v) = sr_u16 r
read_field r (word v) = sr_u32 r
read_field r (double v) = sr_u64 r

abbrev pub write_all : Writer → List Field → Writer
write_all w [] = w
write_all w (f ∷ fs) = write_all (write_field w f) fs

abbrev pub read_all : Reader → List Field → List ℕ × Reader
read_all r [] = ([], r)
read_all r (f ∷ fs) =
    let (v, r') = read_field r f in let (vs, r'') = read_all r' fs in (v ∷ vs, r'')

abbrev pub values : List Field → List ℕ
values [] = []
values (f ∷ fs) = value f ∷ values fs

abbrev pub total : List Field → ℕ
total [] = 0
total (f ∷ fs) = width f + total fs

abbrev bytes_of : Field → List ℕ
bytes_of (byte v) = le_bytes 1 v
bytes_of (half v) = le_bytes 2 v
bytes_of (word v) = le_bytes 4 v
bytes_of (double v) = le_bytes 8 v

abbrev pub all_bytes : List Field → List ℕ
all_bytes [] = []
all_bytes (f ∷ fs) = bytes_of f ++ all_bytes fs

write_field-eq-emit : (w : Writer) (f : Field) → write_field w f ≡ emit w (bytes_of f)
write_field-eq-emit w (byte v) = sw_u8-eq-emit w v
write_field-eq-emit w (half v) = sw_u16-eq-emit w v
write_field-eq-emit w (word v) = sw_u32-eq-emit w v
write_field-eq-emit w (double v) = sw_u64-eq-emit w v

pub write_all-eq-emit : (w : Writer) (fs : List Field) → write_all w fs ≡ emit w (all_bytes fs)
write_all-eq-emit w [] = unfold emit in refl
write_all-eq-emit w (f ∷ fs) =
    write_all-eq-emit (write_field w f) fs
    ∙ ap (λ u. emit u (all_bytes fs)) (write_field-eq-emit w f)
    ∙ sym (emit-append w (bytes_of f) (all_bytes fs))

length-bytes_of : (f : Field) → length (bytes_of f) ≡ width f
length-bytes_of (byte v) = refl
length-bytes_of (half v) = refl
length-bytes_of (word v) = refl
length-bytes_of (double v) = refl

pub length-all_bytes : (fs : List Field) → length (all_bytes fs) ≡ total fs
length-all_bytes [] = refl
length-all_bytes (f ∷ fs) =
    omega (arith, length-append (bytes_of f) (all_bytes fs), length-bytes_of f, length-all_bytes fs)

pub AllBytes-append : (xs ys : List ℕ) → AllBytes xs → AllBytes ys → AllBytes (xs ++ ys)
AllBytes-append [] ys h k = k
AllBytes-append (x ∷ xs) ys h k = (h.0, AllBytes-append xs ys h.1 k)

AllBytes-le_bytes : (n v : ℕ) → AllBytes (le_bytes n v)
AllBytes-le_bytes zero v = tt
AllBytes-le_bytes (suc n) v = (omega arith, AllBytes-le_bytes n (v / 256))

bytes_of-AllBytes : (f : Field) → AllBytes (bytes_of f)
bytes_of-AllBytes (byte v) = AllBytes-le_bytes 1 v
bytes_of-AllBytes (half v) = AllBytes-le_bytes 2 v
bytes_of-AllBytes (word v) = AllBytes-le_bytes 4 v
bytes_of-AllBytes (double v) = AllBytes-le_bytes 8 v

pub all_bytes-AllBytes : (fs : List Field) → AllBytes (all_bytes fs)
all_bytes-AllBytes [] = tt
all_bytes-AllBytes (f ∷ fs) =
    AllBytes-append (bytes_of f) (all_bytes fs) (bytes_of-AllBytes f) (all_bytes-AllBytes fs)

pub Holds-append_left : (b : Bytes) (i : ℕ) (xs ys : List ℕ) → Holds b i (xs ++ ys) → Holds b i xs
Holds-append_left b i [] ys h = tt
Holds-append_left b i (x ∷ xs) ys h = (h.0, Holds-append_left b (i + 1) xs ys h.1)

pub Holds-append_right :
    (b : Bytes) (i j : ℕ) (xs ys : List ℕ) → i + length xs ≡ j → Holds b i (xs ++ ys) → Holds b j ys
Holds-append_right b i j [] ys e h = let e' : i ≡ j = omega arith in rw e' at h
Holds-append_right b i j (x ∷ xs) ys e h = Holds-append_right b (i + 1) j xs ys (omega arith) h.1

read_field_lem :
    (r : Reader) (f : Field)
    → Room r (width f)
    → Holds r.buf r.pos (bytes_of f)
    → read_field r f ≡ (value f, advanced r (width f))
read_field_lem r (byte v) room held = sr_u8_lem r room ∙ ap (λ x. (x, advanced r 1)) held.0
read_field_lem r (half v) room held = sr_u16_lem r v room held
read_field_lem r (word v) room held = sr_u32_lem r v room held
read_field_lem r (double v) room held = sr_u64_lem r v room held

pub read_all_lem :
    (fs : List Field) (r : Reader)
    → Room r (total fs)
    → Holds r.buf r.pos (all_bytes fs)
    → read_all r fs ≡ (values fs, advanced r (total fs))
read_all_lem [] r room held = ground arith
read_all_lem (f ∷ fs) r room held =
    let first =
      read_field_lem r f (omega arith)
        (Holds-append_left r.buf r.pos (bytes_of f) (all_bytes fs) held) in
    let rest = read_all_lem fs (advanced r (width f)) (omega arith) (
      Holds-append_right r.buf r.pos (r.pos + width f) (bytes_of f) (all_bytes fs)
        (omega (arith, length-bytes_of f)) held) in
    simp (first, rest) (ground arith)

-- Fields written in any order of widths, to a real buffer with room for them, leave the overflow
-- flag alone; a reader over the buffer that the writer leaves, with the same capacity and offset,
-- reads back every field's value at its width and ends behind them, not `bad`. The capacity is
-- below 2 ^ 64.
pub read_all-write_all :
    (fs : List Field) (w : Writer) {b : Bytes}
    → w.buf ≡ some b
    → w.pos + total fs ≤ w.cap
    → w.cap < 2 ^ 64
    → (out : Bytes) × ((write_all w fs).buf ≡ some out)
      × ((write_all w fs).overflow ≡ w.overflow)
      × (read_all (record { buf = out; size = w.cap; pos = w.pos; bad = 0 }) fs
          ≡ (values fs, record { buf = out; size = w.cap; pos = w.pos + total fs; bad = 0 }))
read_all-write_all fs w {b} e fits small =
    let room : w.pos + length (all_bytes fs) ≤ w.cap = omega (arith, length-all_bytes fs) in
    let done : Wrote b w (all_bytes fs) (emit w (all_bytes fs)) =
      emit-Wrote (all_bytes fs) e (all_bytes-AllBytes fs) room small in
    (
      done.out,
      rw (write_all-eq-emit w fs) done.buf,
      rw (write_all-eq-emit w fs) done.overflow,
      read_all_lem fs (record { buf = done.out; size = w.cap; pos = w.pos; bad = 0 }) (fits, small)
          done.held,
    )
