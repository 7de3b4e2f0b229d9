-- ===== src/Mgbx/Machine/Tests.antt =====
-- Runs of the CPU over the bus.
use aarch.Prelude.{ℕ, ◌≡◌, refl, arith, some, true}
use aarch.Mgbx.State.{Mgbx}
use aarch.Mgbx.Fixtures.{machine, idle_ppu}
use aarch.Mgbx.Machine.Sample.{machine-IsValid}
use aarch.Mgbx.Bus.{bus_write}
use aarch.Mgbx.Machine.Valid.{IsValid, Kept, with_ppu}
use aarch.Mgbx.Machine.Writes.{bus_write-Kept}
use aarch.Mgbx.Cpu.Exec.{exec}
use aarch.Mgbx.Cpu.Exec.Step.{cpu_step}
use aarch.Mgbx.Cpu.Exec.Progress.{IsStep, cpu_step-Succeeds}
use aarch.Mgbx.Cpu.Exec.Nops.{exec-undecoded}
use aarch.Mgbx.Ppu.Position.{vblank}
use aarch.Mgbx.Ppu.Beam.{Beam, ppu_step-Beam}
use aarch.Mgbx.Ppu.Step.{ppu_step}
use aarch.Mgbx.Lifecycle.{frame_loop, frame_fuel, run_frame}
use aarch.Mgbx.Lifecycle.Frame.{Ended, Returned, frame_loop_ends, run_frame-Returned}

cpu_step-Succeeds_example : (r : ℕ × Mgbx) × (cpu_step machine ≡ some r) × IsStep r.0 × IsValid r.1
cpu_step-Succeeds_example = cpu_step-Succeeds machine machine-IsValid

-- An OAM DMA from 0xc100 starts.
bus_write-Kept_example : Kept (bus_write machine 0xff46 0xc1)
bus_write-Kept_example = bus_write-Kept 0xff46 0xc1 machine-IsValid (omega arith)

exec-undecoded_example : exec 0x7e machine ≡ some (4, machine)
exec-undecoded_example = exec-undecoded machine 0x7e refl

-- Line 10, two dots before it is drawn.
abbrev drawing : Mgbx
drawing = record machine { ppu = record idle_ppu { ly = 10; dot = 78; stat = 0x86 } }

drawing-Beam : Beam drawing 4638
drawing-Beam = record {
  valid =
      with_ppu machine-IsValid
        (record { vram = λ i. omega arith; oam = λ i. omega arith; registers = omega arith });
  view = omega arith;
  win_line = omega arith;
  on = refl;
  inside = omega arith;
  ly = refl;
  dot = refl;
  mode = refl;
}

ppu_step-Beam_example :
    (gb' : Mgbx) × (ppu_step drawing 24 ≡ some gb') × Beam gb' 4662 × (vblank gb' ≡ vblank drawing)
ppu_step-Beam_example = ppu_step-Beam drawing 4638 24 drawing-Beam

frame_loop_ends_example : Ended (frame_loop frame_fuel 0 machine)
frame_loop_ends_example = frame_loop_ends machine machine-IsValid

run_frame-Returned_example : Returned true machine (run_frame true machine)
run_frame-Returned_example = run_frame-Returned true machine machine-IsValid
