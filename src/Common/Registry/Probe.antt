-- ===== src/Common/Registry/Probe.antt =====
-- src/common/registry.c: the guess of the core from the bytes of an image. `none` is a read outside
-- of the image. A signature is the list of its bytes, as long as the `len` that the code passes.
use Prim.Native.Char.{code}
use Prim.Native.String.{String}
use aarch.Prelude.{
  ℕ, ◌+◌, bit_xor, u16, ltb, leb, ◌==◌, Bool, true, false, not, ◌&&◌, Option, none, some, ◌>>=◌,
  List, [], ◌∷◌, ◌++◌, if◌then◌else◌, length, Bytes, load,
}
use aarch.Common.Util.{le16}

-- The code points of an ASCII text are its bytes.
abbrev pub codes : String → List ℕ
codes String.[] = []
codes (String.◌∷◌ c s) = code c ∷ codes s

-- The `memcmp` of the signature with the image at an offset; it reads every byte.
unfoldable pub same_bytes : Bytes → ℕ → ℕ → List ℕ → Option Bool
same_bytes p size off [] = some true
same_bytes p size off (x ∷ sig) = do
  b ← load p size off
  rest ← same_bytes p size (off + 1) sig
  some (b == x && rest)

unfoldable pub mem_eq : Bytes → ℕ → ℕ → List ℕ → Option Bool
mem_eq p size off sig =
    if ltb size (off + length sig) then some false else same_bytes p size off sig

abbrev pub nintendo_logo8 : List ℕ
nintendo_logo8 = 0x24 ∷ 0xff ∷ 0xae ∷ 0x51 ∷ 0x69 ∷ 0x9a ∷ 0xa2 ∷ 0x21 ∷ []

abbrev pub gb_logo16 : List ℕ
gb_logo16 =
    0xce ∷ 0xed ∷ 0x66 ∷ 0x66 ∷ 0xcc ∷ 0x0d ∷ 0x00 ∷ 0x0b ∷ 0x03 ∷ 0x73 ∷ 0x00 ∷ 0x83 ∷ 0x00 ∷ 0x0c
    ∷ 0x00 ∷ 0x0d ∷ []

-- `emu_le16` of two bytes of the image.
unfoldable pub read_le16 : Bytes → ℕ → ℕ → Option ℕ
read_le16 p size i = load p size i >>= λ lo. load p size (i + 1) >>= λ hi. some (le16 p i)

unfoldable pub snes_checksum_ok : Bytes → ℕ → ℕ → Option Bool
snes_checksum_ok p size off =
    if ltb size (off + 0x20)
    then some false
    else read_le16 p size (off + 0x1e) >>= λ complement.
        read_le16 p size (off + 0x1c) >>= λ checksum.
        some (not (checksum == 0) && u16 (bit_xor complement checksum) == 0xffff)

-- The && and || of the code: the second operand is read when it decides.
unfoldable pub and_also : Bool → Option Bool → Option Bool
and_also a b = if a then b else some false

unfoldable pub or_else : Option Bool → Option Bool → Option Bool
or_else a b = a >>= λ found. if found then some true else b

-- A test of the chain, the answer when it holds, and the tests that follow.
unfoldable pub answer : Option Bool → String → Option String → Option String
answer test core rest = test >>= λ found. if found then some core else rest

unfoldable pub rom_probe : Option Bytes → ℕ → Option String
rom_probe none size = some "unknown"
rom_probe (some p) size =
    let sig : ℕ → List ℕ → Option Bool = mem_eq p size in
    let word : List ℕ → Option Bool = λ bytes. and_also (leb 4 size) (same_bytes p size 0 bytes) in
    if size == 0
    then some "unknown"
    else answer (sig 0 (codes "NES" ++ 0x1a ∷ [])) "beatle-nes-redux" (
        answer (word (0x80 ∷ 0x37 ∷ 0x12 ∷ 0x40 ∷ [])) "m64-b" (
          answer (word (0x37 ∷ 0x80 ∷ 0x40 ∷ 0x12 ∷ [])) "m64-b" (
            answer (word (0x12 ∷ 0x40 ∷ 0x80 ∷ 0x37 ∷ [])) "m64-b" (
              answer (sig 0 (codes "PS-X EXE")) "beatle-psx" (
                answer (sig 0 (codes "SEGA SEGASATURN")) "supersaturn" (
                  answer (sig 0 (codes "SEGA SEGAKATANA")) "supercastpro" (
                    answer (sig 0x100 (codes "SEGA 32X")) "ms-32" (
                      answer (and_also (leb 0x200 size) (sig 0x100 (codes "SEGA"))) "finalburn" (
                        answer (and_also (leb 0x200 size) (sig 0x160 nintendo_logo8)) "mds-a" (
                          answer (and_also (leb 0x150 size) (sig 0x104 gb_logo16)) "mgbx" (
                            answer (and_also (leb 0x120 size) (sig 4 nintendo_logo8)) "mgbax" (
                              answer
                                (or_else (snes_checksum_ok p size 0x7fc0)
                                  (snes_checksum_ok p size 0xffc0))
                                "supersnes"
                                (answer
                                  (and_also (leb 32800 size) (sig 32769 (codes "CD001")) >>= λ disc.
                                    and_also disc (sig 32776 (codes "PLAYSTATION")))
                                  "beatle-psx" (some "unknown"))))))))))))))
