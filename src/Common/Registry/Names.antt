-- ===== src/Common/Registry/Names.antt =====
-- The probe's answers against the table of the cores.
use Prim.Native.String.{String}
use mathlib.Core.List.{Memᴰ}
use aarch.Prelude.{
  ℕ, zero, suc, ◌≡◌, refl, Bool, true, false, Option, none, some, List, [], ◌∷◌, map, Bytes,
}
use aarch.Common.Registry.{CoreInfo, registry}
use aarch.Common.Registry.Probe.{rom_probe}
use aarch.Common.Registry.Signatures.{marks, first_mark, rom_probe-eq-first_mark}

-- The answers that a frontend knows: no core, or the name of one in the table.
abbrev pub answers : List String
answers = "unknown" ∷ map (λ (c : CoreInfo). c.name) registry

nth : List String → ℕ → Option String
nth [] k = none
nth (x ∷ xs) zero = some x
nth (x ∷ xs) (suc k) = nth xs k

nth-Mem : {x : String} (k : ℕ) (xs : List String) → nth xs k ≡ some x → Memᴰ x xs
unfolding nth
nth-Mem k [] e = cc
nth-Mem zero (y ∷ xs) e = Memᴰ.head cc
nth-Mem (suc k) (y ∷ xs) e = Memᴰ.tail (nth-Mem k xs e)

core : {x : String} (k : ℕ) → nth answers k ≡ some x → Memᴰ x answers
core k = nth-Mem k answers

abbrev AllKnown : List (Bool × String) → Type 0
AllKnown [] = Unit {0}
AllKnown ((b, name) ∷ rest) = Memᴰ name answers × AllKnown rest

marks-AllKnown : (p : Bytes) (size : ℕ) → AllKnown (marks p size)
unfolding nth
marks-AllKnown p size = (
  core 2 refl,
  (
    core 10 refl,
    (
      core 10 refl,
      (
        core 10 refl,
        (
          core 6 refl,
          (
            core 9 refl,
            (
              core 11 refl,
              (
                core 8 refl,
                (
                  core 5 refl,
                  (core 7 refl, (core 1 refl, (core 4 refl, (core 3 refl, (core 6 refl, tt))))),
                ),
              ),
            ),
          ),
        ),
      ),
    ),
  ),
)

first_mark-Known : (table : List (Bool × String)) → AllKnown table → Memᴰ (first_mark table) answers
unfolding first_mark
first_mark-Known [] known = Memᴰ.head refl
first_mark-Known ((true, name) ∷ rest) known = known.0
first_mark-Known ((false, name) ∷ rest) known = first_mark-Known rest known.1

-- The probe of any image, or of none, reads inside of the image only, and answers with the name of
-- a core in the registry or with "unknown".
pub rom_probe-Known :
    (image : Option Bytes) (size : ℕ)
    → (name : String) × (rom_probe image size ≡ some name) × Memᴰ name answers
unfolding rom_probe
rom_probe-Known none size = ("unknown", refl, Memᴰ.head refl)
rom_probe-Known (some p) size = (
  first_mark (marks p size),
  rom_probe-eq-first_mark p size,
  first_mark-Known (marks p size) (marks-AllKnown p size),
)
