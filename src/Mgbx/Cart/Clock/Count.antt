-- ===== src/Mgbx/Cart/Clock/Count.antt =====
-- The clock registers as one number.
use aarch.Prelude.{
  ℕ, zero, suc, ◌+◌, ◌-◌, ◌*◌, ◌/◌, ◌%◌, ◌^◌, ◌≤◌, ◌<◌, ◌≡◌, inl, inr, refl, arith, bit_or,
  bit_or-lt_pow, nonzero, if◌then◌else◌, ◌==◌, ◌&&◌, Bool-cases, u8, u64, Bytes, IsBytes,
}
use aarch.Mgbx.State.{Cart}
use aarch.Mgbx.Cart.Clock.{second, count_second, clock_loop, tick_rtc}

-- The first four registers as the digits of a number in base 256, the lowest first.
abbrev pub count : Bytes → ℕ
count rtc = rtc 0 + 2 ^ 8 * rtc 1 + 2 ^ 16 * rtc 2 + 2 ^ 24 * rtc 3

-- The registers after one second, each where the ones below it wrap.
count_second_at :
    (rtc : Bytes) (i : ℕ)
    → count_second rtc i ≡ (
        if i == 0
        then u8 (rtc 0 + 1)
        else if i == 1 && u8 (rtc 0 + 1) == 0
        then u8 (rtc 1 + 1)
        else if i == 2 && (u8 (rtc 0 + 1) == 0 && u8 (rtc 1 + 1) == 0)
        then u8 (rtc 2 + 1)
        else if i == 3 && (u8 (rtc 0 + 1) == 0 && (u8 (rtc 1 + 1) == 0 && u8 (rtc 2 + 1) == 0))
        then u8 (rtc 3 + 1)
        else if i == 4
            && (u8 (rtc 0 + 1) == 0
                && (u8 (rtc 1 + 1) == 0 && (u8 (rtc 2 + 1) == 0 && u8 (rtc 3 + 1) == 0)))
        then bit_or (rtc 4) 0x80
        else rtc i)
unfolding count_second
count_second_at rtc i = elim (Bool-cases (u8 (rtc 0 + 1) == 0)) [
  | inr e ↦ rw e (ground arith)
  | inl e ↦ elim (Bool-cases (u8 (rtc 1 + 1) == 0)) [
    | inr e' ↦ rw (e, e') (ground arith)
    | inl e' ↦ elim (Bool-cases (u8 (rtc 2 + 1) == 0)) [
      | inr e'' ↦ rw (e, e', e'') (ground arith)
      | inl e'' ↦ elim (Bool-cases (u8 (rtc 3 + 1) == 0)) [
        | inr d ↦ rw (e, e', e'', d) (ground arith)
        | inl d ↦ rw (e, e', e'', d) (ground arith)
      ]
    ]
  ]
]

count-count_second :
    (rtc : Bytes) → IsBytes rtc → count (count_second rtc) ≡ (count rtc + 1) % 2 ^ 32
count-count_second rtc h = ground (
  arith,
  count_second_at rtc 0,
  count_second_at rtc 1,
  count_second_at rtc 2,
  count_second_at rtc 3,
  h 0,
  h 1,
  h 2,
  h 3,
)

count_second-IsBytes : (rtc : Bytes) → IsBytes rtc → IsBytes (count_second rtc)
count_second-IsBytes rtc h i =
    ground (arith, count_second_at rtc i, h i, bit_or-lt_pow 8 (rtc 4) 0x80 (h 4))

-- What `n` seconds make of the clock.
record Counted (n : ℕ) (cart cart' : Cart) : Type 0 where
  count_after : count cart'.rtc ≡ (count cart.rtc + n) % 2 ^ 32
  bytes : IsBytes cart'.rtc
  divider : cart'.rtc_divider + n * second ≡ cart.rtc_divider

after_second : Cart → Cart
after_second cart = record cart {
  rtc_divider = cart.rtc_divider - second;
  rtc = count_second cart.rtc;
}

clock_loop-suc :
    (n : ℕ) (cart : Cart)
    → second ≤ cart.rtc_divider
    → clock_loop (suc n) cart ≡ clock_loop n (after_second cart)
unfolding clock_loop after_second
clock_loop-suc n cart h = ground arith

clock_loop-Counted :
    (n : ℕ) (cart : Cart)
    → IsBytes cart.rtc
    → cart.rtc_divider / second ≡ n
    → Counted n cart (clock_loop n cart)
unfolding clock_loop after_second
clock_loop-Counted zero cart h e = record {
  count_after = omega (arith, h 0, h 1, h 2, h 3);
  bytes = h;
  divider = omega arith;
}
clock_loop-Counted (suc n) cart h e =
    let rest =
      clock_loop-Counted n (after_second cart) (count_second-IsBytes cart.rtc h) (omega arith) in
    rw (clock_loop-suc n cart (omega arith)) (record {
      count_after = omega (arith, rest.count_after, count-count_second cart.rtc h);
      bytes = rest.bytes;
      divider = omega (arith, rest.divider);
    })

-- On bytes in its registers, and cycles whose sum fits 64 bits, a clock that is not halted counts
-- one for every 4194304 T-cycles that have come together, keeps the rest of the cycles, and wraps
-- its four registers at 2 ^ 32; a halted clock stands still.
pub tick_rtc-count :
    (cart : Cart) (t : ℕ)
    → IsBytes cart.rtc
    → cart.rtc_divider + t < 2 ^ 64
    → let n = if nonzero cart.rtc_halt then 0 else (cart.rtc_divider + t) / second in
      let cart' = tick_rtc cart t in
      (count cart'.rtc ≡ (count cart.rtc + n) % 2 ^ 32)
      × (cart'.rtc_divider
          ≡ (if nonzero cart.rtc_halt then cart.rtc_divider else (cart.rtc_divider + t) % second))
unfolding tick_rtc
tick_rtc-count cart t h small = elim (Bool-cases (nonzero cart.rtc_halt)) [
  | inl halted ↦ rw halted (omega (arith, h 0, h 1, h 2, h 3))
  | inr running ↦ rw running (ground (arith, loop))
]
  where
    loop :
        let d = u64 (cart.rtc_divider + t) in
        Counted
          (d / second)
          (record cart { rtc_divider = d })
          (clock_loop (d / second) (record cart { rtc_divider = d }))
    loop =
        clock_loop-Counted (u64 (cart.rtc_divider + t) / second)
          (record cart { rtc_divider = u64 (cart.rtc_divider + t) }) h refl
