-- ===== src/Mgbx/Joypad/Lines.antt =====
-- The four lines of P1: a line is low when a selected group has its key pressed.
use aarch.Prelude.{
  ℕ, ◌+◌, ◌*◌, ◌/◌, ◌%◌, ◌^◌, ◌<◌, ◌≡◌, refl, ◌∙◌, arith, bit_and, bit_and_mask, bit_and_high,
  if◌then◌else◌, ◌==◌, ==_iff, ◌&&◌, ◌||◌, true, all_below, all_below_sound,
}
use aarch.Mgbx.State.{Joypad}
use aarch.Mgbx.Joypad.{compose_p1, joypad_read}

-- Bit `k` of a number.
abbrev bit : ℕ → ℕ → ℕ
bit k x = x / 2 ^ k % 2

-- The level of line `i`: 0 when the direction key `i` is pressed and select bit 4 is 0, or the
-- action key `i` is pressed and select bit 5 is 0.
abbrev pub line : Joypad → ℕ → ℕ
line jp i =
    if (bit 4 jp.select == 0 && bit (4 + i) jp.buttons == 1)
      || (bit 5 jp.select == 0 && bit i jp.buttons == 1)
    then 0
    else 1

abbrev pub nibble : Joypad → ℕ
nibble jp = line jp 0 + 2 * line jp 1 + 4 * line jp 2 + 8 * line jp 3

-- The upper half: `p1 &= dirs` and `p1 &= acts` clear it as soon as a group is selected.
abbrev pub upper : Joypad → ℕ
upper jp = if bit 4 jp.select == 1 && bit 5 jp.select == 1 then 0xc0 else 0

pad : ℕ → ℕ → Joypad
pad s b = record { select = 16 * s; p1 = 0; buttons = b }

compose_table :
    all_below 4
      (λ s. all_below 256 (λ b. compose_p1 (pad s b) == upper (pad s b) + nibble (pad s b)))
    ≡ true
unfolding all_below compose_p1 pad
compose_table = refl

pad_p1 : (s b : ℕ) → s < 4 → b < 256 → compose_p1 (pad s b) ≡ upper (pad s b) + nibble (pad s b)
pad_p1 s b hs hb =
    (==_iff _ _).0 (all_below_sound 256 _ b (all_below_sound 4 _ s compose_table hs) hb)

compose_p1_cong :
    (x y : Joypad)
    → bit_and x.select 0x30 ≡ bit_and y.select 0x30
    → x.buttons ≡ y.buttons
    → compose_p1 x ≡ compose_p1 y
unfolding compose_p1
compose_p1_cong x y e h = rw (e, h)

nibble_cong :
    (x y : Joypad)
    → bit 4 x.select ≡ bit 4 y.select
    → bit 5 x.select ≡ bit 5 y.select
    → x.buttons ≡ y.buttons
    → upper x + nibble x ≡ upper y + nibble y
nibble_cong x y e e' h = rw (e, e', h)

pub compose_p1_lines :
    (jp : Joypad) → jp.select < 256 → jp.buttons < 256 → compose_p1 jp ≡ upper jp + nibble jp
unfolding pad
compose_p1_lines jp hs hb =
    let s = jp.select / 16 % 4 in
    compose_p1_cong jp (pad s jp.buttons) masked refl
    ∙ pad_p1 s jp.buttons (omega arith) hb
    ∙ nibble_cong (pad s jp.buttons) jp (omega arith) (omega arith) refl
  where
    masked : bit_and jp.select 0x30 ≡ bit_and (16 * (jp.select / 16 % 4)) 0x30
    masked = ground (
      arith,
      bit_and_high 4 jp.select 3,
      bit_and_high 4 (16 * (jp.select / 16 % 4)) 3,
      bit_and_mask 2 (jp.select / 16),
      bit_and_mask 2 (16 * (jp.select / 16 % 4) / 16),
    )

-- What P1 reads, for every byte of selection and of buttons: the lower half is the four lines,
-- and the upper half is 0xc0 when no group is selected and 0 otherwise.
pub joypad_read_lines :
    (jp : Joypad) → jp.select < 256 → jp.buttons < 256 → joypad_read jp ≡ upper jp + nibble jp
unfolding joypad_read
joypad_read_lines jp hs hb = compose_p1_lines jp hs hb
