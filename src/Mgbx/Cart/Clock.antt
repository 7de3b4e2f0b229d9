-- ===== src/Mgbx/Cart/Clock.antt =====
-- The clock of MBC3, driven by T-cycles: `gb_cart_tick_rtc`.
pub mod Count
use aarch.Prelude.{
  ℕ, zero, suc, ◌+◌, ◌-◌, ◌/◌, ◌^◌, bit_or, u8, u64, nonzero, ◌==◌, leb, if◌then◌else◌, true, false,
  Bytes, update,
}
use aarch.Mgbx.State.{Cart}

-- T-cycles in a second.
abbrev pub second : ℕ
second = 4194304

-- The nested `++cart->rtc[i] == 0u` of one second.
unfoldable pub count_second : Bytes → Bytes
count_second rtc =
    let s = update rtc 0 (u8 (rtc 0 + 1)) in
    let m = update s 1 (u8 (rtc 1 + 1)) in
    let h = update m 2 (u8 (rtc 2 + 1)) in
    let dl = update h 3 (u8 (rtc 3 + 1)) in
    if u8 (rtc 0 + 1) == 0
    then (if u8 (rtc 1 + 1) == 0
        then (if u8 (rtc 2 + 1) == 0
            then (if u8 (rtc 3 + 1) == 0
                then update (update dl 3 0) 4 (bit_or (rtc 4) 0x80)
                else dl)
            else h)
        else m)
    else s

-- The `while`, with the number of rounds that it can make.
unfoldable pub clock_loop : ℕ → Cart → Cart
clock_loop zero cart = cart
clock_loop (suc fuel) cart = elim (leb second cart.rtc_divider) [
  | true ↦
      clock_loop fuel
        (record cart { rtc_divider = cart.rtc_divider - second; rtc = count_second cart.rtc })
  | false ↦ cart
]

unfoldable pub tick_rtc : Cart → ℕ → Cart
tick_rtc cart t_cycles =
    if nonzero cart.rtc_halt
    then cart
    else clock_loop (u64 (cart.rtc_divider + t_cycles) / second)
        (record cart { rtc_divider = u64 (cart.rtc_divider + t_cycles) })
