-- ===== src/Common/Registry/Signatures.antt =====
-- The table of signatures that the probe of an image goes through, in its order.
use Prim.Native.String.{String}
use aarch.Prelude.{
  ℕ, ◌+◌, ◌≤◌, ◌≡◌, refl, ap, sym, arith, bit_xor, u16, ltb, leb, ◌==◌, Bool, true, false, not,
  ◌&&◌, ◌||◌, Option, some, ◌>>=◌, List, [], ◌∷◌, ◌++◌, if◌then◌else◌, length, Bytes, branches,
  Bool-cases, inl, inr,
}
use aarch.Common.Util.{le16}
use aarch.Common.Registry.Probe.{
  codes, same_bytes, mem_eq, nintendo_logo8, gb_logo16, read_le16, snes_checksum_ok, and_also,
  or_else, answer, rom_probe,
}

-- The bytes at an offset are those of the signature.
abbrev pub holds : Bytes → ℕ → List ℕ → Bool
holds p off [] = true
holds p off (x ∷ sig) = p off == x && holds p (off + 1) sig

-- They are, within the size.
abbrev pub has : Bytes → ℕ → ℕ → List ℕ → Bool
has p size off sig = leb (off + length sig) size && holds p off sig

abbrev pub has_checksum : Bytes → ℕ → ℕ → Bool
has_checksum p size off =
    leb (off + 0x20) size
    && not (le16 p (off + 0x1c) == 0)
    && u16 (bit_xor (le16 p (off + 0x1e)) (le16 p (off + 0x1c))) == 0xffff

-- What marks an image of each core, the first that holds deciding.
abbrev pub marks : Bytes → ℕ → List (Bool × String)
marks p size =
    (has p size 0 (codes "NES" ++ 0x1a ∷ []), "beatle-nes-redux")
    ∷ (has p size 0 (0x80 ∷ 0x37 ∷ 0x12 ∷ 0x40 ∷ []), "m64-b")
    ∷ (has p size 0 (0x37 ∷ 0x80 ∷ 0x40 ∷ 0x12 ∷ []), "m64-b")
    ∷ (has p size 0 (0x12 ∷ 0x40 ∷ 0x80 ∷ 0x37 ∷ []), "m64-b")
    ∷ (has p size 0 (codes "PS-X EXE"), "beatle-psx")
    ∷ (has p size 0 (codes "SEGA SEGASATURN"), "supersaturn")
    ∷ (has p size 0 (codes "SEGA SEGAKATANA"), "supercastpro")
    ∷ (has p size 0x100 (codes "SEGA 32X"), "ms-32")
    ∷ (leb 0x200 size && has p size 0x100 (codes "SEGA"), "finalburn")
    ∷ (leb 0x200 size && has p size 0x160 nintendo_logo8, "mds-a")
    ∷ (leb 0x150 size && has p size 0x104 gb_logo16, "mgbx")
    ∷ (leb 0x120 size && has p size 4 nintendo_logo8, "mgbax")
    ∷ (has_checksum p size 0x7fc0 || has_checksum p size 0xffc0, "supersnes")
    ∷ (
      leb 32800 size && has p size 32769 (codes "CD001") && has p size 32776 (codes "PLAYSTATION"),
      "beatle-psx",
    )
    ∷ []

unfoldable pub first_mark : List (Bool × String) → String
first_mark [] = "unknown"
first_mark ((b, core) ∷ rest) = if b then core else first_mark rest

same_bytes_lem :
    (p : Bytes) (size off : ℕ) (sig : List ℕ)
    → off + length sig ≤ size
    → same_bytes p size off sig ≡ some (holds p off sig)
unfolding same_bytes
same_bytes_lem p size off [] fits = refl
same_bytes_lem p size off (x ∷ sig) fits =
    let here : ltb off size ≡ true = ground arith in
    rw (here, same_bytes_lem p size (off + 1) sig (omega arith)) refl

mem_eq_lem :
    (p : Bytes) (size off : ℕ) (sig : List ℕ) → mem_eq p size off sig ≡ some (has p size off sig)
unfolding mem_eq
mem_eq_lem p size off sig = elim (Bool-cases (ltb size (off + length sig))) [
  | inl short ↦
      let long : leb (off + length sig) size ≡ false = ground arith in rw (short, long) refl
  | inr f ↦
      let long : leb (off + length sig) size ≡ true = ground arith in
      rw (f, long) (same_bytes_lem p size off sig (ground arith))
]

word_lem :
    (p : Bytes) (size : ℕ) (sig : List ℕ)
    → length sig ≡ 4
    → and_also (leb 4 size) (same_bytes p size 0 sig) ≡ some (has p size 0 sig)
unfolding and_also
word_lem p size sig four = elim (Bool-cases (leb 4 size)) [
  | inl long ↦ rw (four, long) (same_bytes_lem p size 0 sig (ground arith))
  | inr short ↦ rw (four, short) refl
]

snes_checksum_ok_lem :
    (p : Bytes) (size off : ℕ) → snes_checksum_ok p size off ≡ some (has_checksum p size off)
unfolding snes_checksum_ok read_le16
snes_checksum_ok_lem p size off = elim (Bool-cases (ltb size (off + 0x20))) [
  | inl short ↦ let long : leb (off + 0x20) size ≡ false = ground arith in rw (short, long) refl
  | inr f ↦
      let long : leb (off + 0x20) size ≡ true = ground arith in
      let a : ltb (off + 0x1e) size ≡ true = ground arith in
      let b : ltb (off + 0x1e + 1) size ≡ true = ground arith in
      let c : ltb (off + 0x1c) size ≡ true = ground arith in
      let d : ltb (off + 0x1c + 1) size ≡ true = ground arith in rw (f, long, a, b, c, d) refl
]

and_also_lem : (a b : Bool) → and_also a (some b) ≡ some (a && b)
unfolding and_also
and_also_lem true b = refl
and_also_lem false b = refl

or_else_lem : (a b : Bool) → or_else (some a) (some b) ≡ some (a || b)
unfolding or_else
or_else_lem true b = refl
or_else_lem false b = refl

answer_lem :
    {test : Option Bool} {rest : Option String} (b : Bool) (core : String)
    (after : List (Bool × String))
    → test ≡ some b
    → rest ≡ some (first_mark after)
    → answer test core rest ≡ some (first_mark ((b, core) ∷ after))
unfolding answer first_mark
answer_lem true core after e e' = rw e refl
answer_lem false core after e e' = rw e e'

and_also_no : (b : Option Bool) → and_also false b ≡ some false
unfolding and_also
and_also_no b = refl

-- The signature that counts only from some size.
sized :
    (p : Bytes) (size min off : ℕ) (sig : List ℕ)
    → and_also (leb min size) (mem_eq p size off sig) ≡ some (leb min size && has p size off sig)
sized p size min off sig =
    rw (mem_eq_lem p size off sig) (and_also_lem (leb min size) (has p size off sig))

disc :
    (p : Bytes) (size : ℕ)
    → (and_also (leb 32800 size) (mem_eq p size 32769 (codes "CD001")) >>= λ found.
        and_also found (mem_eq p size 32776 (codes "PLAYSTATION")))
      ≡ some (
          leb 32800 size
          && has p size 32769 (codes "CD001")
          && has p size 32776 (codes "PLAYSTATION"))
disc p size = elim (Bool-cases (leb 32800 size)) [
  | inl t ↦
      rw
        (sized p size 32800 32769 (codes "CD001"), t, mem_eq_lem p size 32776 (codes "PLAYSTATION"))
        (and_also_lem _ _)
  | inr f ↦
      rw (sized p size 32800 32769 (codes "CD001"), f)
        (and_also_no (mem_eq p size 32776 (codes "PLAYSTATION")))
]

snes :
    (p : Bytes) (size : ℕ)
    → or_else (snes_checksum_ok p size 0x7fc0) (snes_checksum_ok p size 0xffc0)
      ≡ some (has_checksum p size 0x7fc0 || has_checksum p size 0xffc0)
snes p size =
    rw (snes_checksum_ok_lem p size 0x7fc0, snes_checksum_ok_lem p size 0xffc0)
      (or_else_lem (has_checksum p size 0x7fc0) (has_checksum p size 0xffc0))

no_marks : (p : Bytes) → first_mark (marks p 0) ≡ "unknown"
unfolding first_mark
no_marks p = refl

no_more : some "unknown" ≡ some (first_mark [])
unfolding first_mark
no_more = refl

-- The probe of an image reads inside of it only, and answers with the core of the first signature
-- in the table that the image has, each inside its size and from the size it asks for, or with
-- "unknown" where it has none.
pub rom_probe-eq-first_mark :
    (p : Bytes) (size : ℕ) → rom_probe (some p) size ≡ some (first_mark (marks p size))
unfolding rom_probe
rom_probe-eq-first_mark p size =
    let word : (sig : List ℕ)
        → length sig ≡ 4
        → and_also (leb 4 size) (same_bytes p size 0 sig) ≡ some (has p size 0 sig) =
      word_lem p size in
    branches (λ o. o ≡ some (first_mark (marks p size))) (size == 0)
      (λ t. let e : size ≡ 0 = ground arith in rw e (ap some (sym (no_marks p))))
      (λ f. answer_lem _ _ _ (mem_eq_lem p size 0 _) (
        answer_lem _ _ _ (word _ refl) (
          answer_lem _ _ _ (word _ refl) (
            answer_lem _ _ _ (word _ refl) (
              answer_lem _ _ _ (mem_eq_lem p size 0 _) (
                answer_lem _ _ _ (mem_eq_lem p size 0 _) (
                  answer_lem _ _ _ (mem_eq_lem p size 0 _) (
                    answer_lem _ _ _ (mem_eq_lem p size 0x100 _) (
                      answer_lem _ _ _ (sized p size 0x200 0x100 _) (
                        answer_lem _ _ _ (sized p size 0x200 0x160 _) (
                          answer_lem _ _ _ (sized p size 0x150 0x104 _) (
                            answer_lem _ _ _ (sized p size 0x120 4 _) (
                              answer_lem _ _ _ (snes p size)
                                (answer_lem _ _ _ (disc p size) no_more))))))))))))))
