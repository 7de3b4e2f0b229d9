-- ===== src/Mgbx/Joypad/Press.antt =====
-- When the joypad interrupt is requested.
use aarch.Prelude.{
  ℕ, ◌+◌, ◌*◌, ◌%◌, ◌<◌, ◌≡◌, refl, ap, ◌∙◌, arith, bit_and, bit_and_mask, bit_and-le_left, not8,
  nonzero, if◌then◌else◌, ◌==◌, ◌&&◌, ◌||◌, Bool, not, true, false, all_below, all_below_sound,
}
use aarch.Mgbx.State.{Mgbx, Joypad}
use aarch.Mgbx.Interrupt.{request_interrupt}
use aarch.Mgbx.Joypad.{compose_p1, joypad_write, joypad_set_buttons}
use aarch.Mgbx.Joypad.Lines.{line, upper, nibble, compose_p1_lines}

-- A line goes from 1 to 0.
abbrev pub line_falls : Joypad → Joypad → ℕ → Bool
line_falls old now i = line old i == 1 && line now i == 0

abbrev pub any_line_falls : Joypad → Joypad → Bool
any_line_falls old now =
    (line_falls old now 0 || line_falls old now 1) || (line_falls old now 2 || line_falls old now 3)

-- The upper half of P1 goes from 0xc0 to 0: no group was selected, and now one is.
abbrev pub group_selected : Joypad → Joypad → Bool
group_selected old now = upper old == 0xc0 && upper now == 0

abbrev eqb : Bool → Bool → Bool
eqb true b = b
eqb false b = not b

eqb→eq : (a b : Bool) → eqb a b ≡ true → a ≡ b
eqb→eq a b h = ground arith

-- A P1 value by its upper half and its four lines, each 0 or 1.
abbrev p1_of : ℕ → ℕ → ℕ → ℕ → ℕ → ℕ
p1_of u a b c d = 0xc0 * u + (a + 2 * b + 4 * c + 8 * d)

abbrev drop : ℕ → ℕ → Bool
drop x y = x == 1 && y == 0

abbrev falls_at : ℕ → ℕ → ℕ → ℕ → ℕ → ℕ → ℕ → ℕ → ℕ → ℕ → Bool
falls_at u a b c d u' a' b' c' d' =
    eqb (nonzero (bit_and (p1_of u a b c d) (not8 (p1_of u' a' b' c' d'))))
      (drop u u' || ((drop a a' || drop b b') || (drop c c' || drop d d')))

abbrev old_table : ℕ → ℕ → ℕ → ℕ → ℕ → Bool
old_table u a b c d = all_below 2 λ u'.
    all_below 2
      λ a'. all_below 2 λ b'. all_below 2 λ c'. all_below 2 λ d'. falls_at u a b c d u' a' b' c' d'

falls_table :
    all_below 2
      (λ u. all_below 2 λ a. all_below 2 λ b. all_below 2 λ c. all_below 2 λ d. old_table u a b c d)
    ≡ true
unfolding all_below
falls_table = refl

abbrev Bits5 : ℕ → ℕ → ℕ → ℕ → ℕ → Type 0
Bits5 u a b c d = (u < 2) × (a < 2) × (b < 2) × (c < 2) × (d < 2)

old_sound : (u a b c d : ℕ) → Bits5 u a b c d → old_table u a b c d ≡ true
old_sound u a b c d h =
    all_below_sound 2 _ d
      (all_below_sound 2 _ c
        (all_below_sound 2 _ b (all_below_sound 2 _ a (all_below_sound 2 _ u falls_table h.0) h.1)
          h.2)
        h.3)
      h.4

falls_sound :
    (u a b c d u' a' b' c' d' : ℕ)
    → Bits5 u a b c d
    → Bits5 u' a' b' c' d'
    → falls_at u a b c d u' a' b' c' d' ≡ true
falls_sound u a b c d u' a' b' c' d' h h' =
    all_below_sound 2 _ d'
      (all_below_sound 2 _ c'
        (all_below_sound 2 _ b'
          (all_below_sound 2 _ a' (all_below_sound 2 _ u' (old_sound u a b c d h) h'.0) h'.1) h'.2)
        h'.3)
      h'.4

line-lt : (jp : Joypad) (i : ℕ) → line jp i < 2
line-lt jp i = ground arith

-- 1 when no group is selected.
unselected : Joypad → ℕ
unselected jp = if upper jp == 0xc0 then 1 else 0

unselected-lt : (jp : Joypad) → unselected jp < 2
unfolding unselected
unselected-lt jp = ground arith

upper-eq : (jp : Joypad) → upper jp ≡ 0xc0 * unselected jp
unfolding unselected
upper-eq jp = ground arith

lines-Bits5 : (jp : Joypad) → Bits5 (unselected jp) (line jp 0) (line jp 1) (line jp 2) (line jp 3)
lines-Bits5 jp = (unselected-lt jp, line-lt jp 0, line-lt jp 1, line-lt jp 2, line-lt jp 3)

group_selected-eq :
    (old now : Joypad) → drop (unselected old) (unselected now) ≡ group_selected old now
unfolding unselected
group_selected-eq old now = ground arith

pub falls_lem :
    (old now : Joypad)
    → old.select < 256
    → old.buttons < 256
    → now.select < 256
    → now.buttons < 256
    → nonzero (bit_and (compose_p1 old) (not8 (compose_p1 now)))
      ≡ (group_selected old now || any_line_falls old now)
falls_lem old now hs hb hs' hb' =
    rw (composed old hs hb, composed now hs' hb', ← group_selected-eq old now) (eqb→eq _ _ sound)
  where
    composed :
        (jp : Joypad)
        → jp.select < 256
        → jp.buttons < 256
        → compose_p1 jp ≡ p1_of (unselected jp) (line jp 0) (line jp 1) (line jp 2) (line jp 3)
    composed jp h k = compose_p1_lines jp h k ∙ ap (λ u. u + nibble jp) (upper-eq jp)

    sound :
        falls_at
          (unselected old)
          (line old 0)
          (line old 1)
          (line old 2)
          (line old 3)
          (unselected now)
          (line now 0)
          (line now 1)
          (line now 2)
          (line now 3)
        ≡ true
    sound =
        falls_sound (unselected old) (line old 0) (line old 1) (line old 2) (line old 3)
          (unselected now) (line now 0) (line now 1) (line now 2) (line now 3) (lines-Bits5 old)
          (lines-Bits5 now)

not_both : (u : ℕ) → (u == 0xc0 && u == 0) ≡ false
not_both u = ground arith

-- With bytes in the joypad, a write of a byte to P1 sets the select bits, and requests the joypad
-- interrupt exactly when one of the four lines falls or a group becomes selected when none was,
-- also with no button pressed.
pub joypad_write_interrupt :
    (gb : Mgbx) (v : ℕ)
    → v < 256
    → gb.joypad.select < 256
    → gb.joypad.buttons < 256
    → let jp = gb.joypad in
      let jp' : Joypad = record jp { select = bit_and v 0x30 } in
      joypad_write gb v ≡ (
        if group_selected jp jp' || any_line_falls jp jp'
        then request_interrupt (record gb { joypad = jp' }) 4
        else record gb { joypad = jp' })
unfolding joypad_write
joypad_write_interrupt gb v hv hs hb =
    let jp = gb.joypad in
    rw (
      falls_lem jp (record jp { select = bit_and v 0x30 }) hs hb
        (omega (arith, bit_and-le_left v 0x30)) hb)

-- With bytes in the joypad, new buttons from the host request the joypad interrupt exactly when one
-- of the four lines falls.
pub joypad_set_buttons_interrupt :
    (gb : Mgbx) (buttons : ℕ)
    → gb.joypad.select < 256
    → gb.joypad.buttons < 256
    → let jp = gb.joypad in
      let jp' : Joypad = record jp { buttons = buttons % 256 } in
      joypad_set_buttons gb buttons ≡ (
        if any_line_falls jp jp'
        then request_interrupt (record gb { joypad = jp' }) 4
        else record gb { joypad = jp' })
unfolding joypad_set_buttons
joypad_set_buttons_interrupt gb buttons hs hb =
    let jp = gb.joypad in
    rw (
      bit_and_mask 8 buttons,
      falls_lem jp (record jp { buttons = buttons % 256 }) hs hb hs (omega arith),
      not_both (upper jp),
    )
