-- ===== src/Mgbx/Lifecycle/Frame.antt =====
-- The frame loop ends, and what power-on and loading leave.
use aarch.Prelude.{
  branches, loaded, switch, ℕ, zero, suc, ◌+◌, ◌*◌, ◌≤◌, ◌<◌, ◌≡◌, ◌⊎◌, inl, inr, refl, arith, u32,
  ltb, ltb→lt, Bool, false, Bool-cases, Option, some, ◌&&◌,
}
use aarch.Common.Result.{EmuResult, ok}
use aarch.Mgbx.State.{Mgbx}
use aarch.Mgbx.Machine.Valid.{IsValid}
use aarch.Mgbx.Ppu.Partial.{OrOutside, ppu_step-OrOutside}
use aarch.Mgbx.Cpu.Exec.Progress.{IsStep, cpu_step-Succeeds}
use aarch.Mgbx.Lifecycle.Devices.{timer_step-IsValid, sound_and_clock-IsValid}
use aarch.Mgbx.Lifecycle.{
  Run, done, outside, frame_round, frame_loop, cycles_per_frame, frame_fuel, end_frame, run_frame,
}

-- A round made progress, and the machine is valid.
abbrev Progressed : Option (ℕ × Mgbx) → Type 0
Progressed o = (r : ℕ × Mgbx) × (o ≡ some r) × IsStep r.0 × IsValid r.1

frame_round-OrOutside : (gb : Mgbx) → IsValid gb → OrOutside Progressed (frame_round gb)
unfolding frame_round
frame_round-OrOutside gb v =
    let ((t, gb1), e, steps, v1) = cpu_step-Succeeds gb v in
    elim (ppu_step-OrOutside gb1 t v1) [
      | inl e' ↦ inl (rw (e, e') refl)
      | inr (gb2, e', v2) ↦
          inr ((t, _), rw (e, e') refl, steps, sound_and_clock-IsValid t (timer_step-IsValid t v2))
    ]

-- The loop ended: with the cycles of a frame and at most 43 more, and a valid machine; or at an
-- access outside of an array.
abbrev pub Ended : Run (ℕ × Mgbx) → Type 0
Ended r =
    (r ≡ outside)
    ⊎ ((acc : ℕ) × (gb : Mgbx) × (r ≡ done (acc, gb))
        × (cycles_per_frame ≤ acc)
        × (acc < cycles_per_frame + 44)
        × IsValid gb)

frame_loop-Ended :
    (fuel acc : ℕ) (gb : Mgbx)
    → IsValid gb
    → acc < cycles_per_frame + 44
    → cycles_per_frame ≤ acc + 4 * fuel
    → Ended (frame_loop fuel acc gb)
unfolding frame_loop
frame_loop-Ended zero acc gb v low enough =
    branches Ended (ltb acc cycles_per_frame) (λ t. absurd (ground arith))
      (λ f. inr (acc, gb, refl, ground arith, low, v))
frame_loop-Ended (suc fuel) acc gb v low enough =
    switch Ended (ltb acc cycles_per_frame) (λ f. inr (acc, gb, refl, ground arith, low, v))
      (λ t. elim (frame_round-OrOutside gb v) [
        | inl e ↦ inl (rw e refl)
        | inr ((n, gb'), e, steps, v') ↦
            let more : acc < cycles_per_frame = ltb→lt acc cycles_per_frame t in
            rw e (
              frame_loop-Ended fuel (u32 (acc + n)) gb' v' (omega (arith, steps.0, steps.1))
                (omega (arith, steps.0, steps.1)))
      ])

-- From a valid machine the loop of a frame ends within 17,556 rounds: with the 70,224 cycles of a
-- frame, or up to 43 more, counted and a valid machine; or at an access outside of an array.
pub frame_loop_ends : (gb : Mgbx) → IsValid gb → Ended (frame_loop frame_fuel 0 gb)
frame_loop_ends gb v = frame_loop-Ended frame_fuel 0 gb v (omega arith) (omega arith)

-- An access outside of an array, or EMU_OK with a valid machine, `given` samples passed to the
-- callback.
abbrev pub Returned : Bool → Mgbx → Run (EmuResult × ℕ × Mgbx) → Type 0
Returned audio_cb gb r =
    (r ≡ outside)
    ⊎ ((given : ℕ) × (gb' : Mgbx) × (r ≡ done (ok, given, gb'))
        × IsValid gb'
        × ((audio_cb ≡ false) ⊎ (gb'.apu.out_pos ≡ 0)))

end_frame-Returned :
    (audio_cb : Bool) (gb : Mgbx) {r : Run (ℕ × Mgbx)}
    → Ended r
    → Returned audio_cb gb (end_frame audio_cb r)
unfolding end_frame
end_frame-Returned audio_cb gb (inl e) = inl (rw e refl)
end_frame-Returned audio_cb gb (inr (acc, gb', e, _, _, v)) =
    let silent : Mgbx = record gb' { apu = record (gb'.apu) { out_pos = 0 } } in
    let v' : IsValid silent = record {
      cart = v.cart;
      ppu = v.ppu;
      mem = v.mem;
      timer = v.timer;
      cpu = v.cpu;
      apu = record { wave_ram = v.apu.wave_ram; mixer = v.apu.mixer };
    } in
    elim (Bool-cases (audio_cb && ltb 0 gb'.apu.out_pos)) [
      | inl t ↦ inr (gb'.apu.out_pos, silent, rw (e, t) refl, v', inr refl)
      | inr f ↦ inr (0, gb', rw (e, f) refl, v, ground arith)
    ]

-- `mgbx_run_frame` on a valid machine, which has an image, ends within the rounds of its loop: it
-- returns EMU_OK and leaves a valid machine, whose output is empty when a callback is registered; or
-- it stops at an access outside of an array.
pub run_frame-Returned :
    (audio_cb : Bool) (gb : Mgbx) → IsValid gb → Returned audio_cb gb (run_frame audio_cb gb)
unfolding run_frame
run_frame-Returned audio_cb gb v =
    loaded (Returned audio_cb gb) _ _ gb.cart.rom v.cart.rom
      (end_frame-Returned audio_cb gb (frame_loop_ends gb v))
