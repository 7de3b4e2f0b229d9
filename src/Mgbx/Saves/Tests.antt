-- ===== src/Mgbx/Saves/Tests.antt =====
-- Runs of loading, saving and restoring.
use aarch.Prelude.{◌≡◌, refl, arith, true, some, zeroed, Bytes}
use aarch.Common.Result.{ok, enospace}
use aarch.Mgbx.Fixtures.{machine, image}
use aarch.Mgbx.Machine.Sample.{machine-IsValid}
use aarch.Mgbx.Lifecycle.{load_rom}
use aarch.Mgbx.Lifecycle.Load.{LoadOutcome, load_rom-LoadOutcome}
use aarch.Mgbx.Saves.{save_state, load_state, state_size}
use aarch.Mgbx.Saves.RoundTrip.{kept}
use aarch.Mgbx.Saves.Blob.{state_size_lem, load_state-save_state, save_state-refuses}

load_rom-LoadOutcome_example :
    LoadOutcome machine image 0x40000 (load_rom true true machine (some image) 0x40000)
load_rom-LoadOutcome_example =
    load_rom-LoadOutcome true true machine image 0x40000 (λ i. ground arith) (omega arith)

machine-state_size : state_size machine ≡ 49643
machine-state_size = state_size_lem machine machine-IsValid (omega arith)

-- The state of a machine with 32 KiB of RAM in a buffer of 50,000 bytes.
load_state-save_state_example :
    (out : Bytes) × (save_state machine (some zeroed) 50000 ≡ (ok, some out))
    × (load_state machine (some out) 50000 ≡ (ok, kept machine machine))
load_state-save_state_example =
    load_state-save_state machine machine zeroed 50000 machine-IsValid machine-IsValid (omega arith)
      (omega arith, omega arith, refl, (zeroed, refl)) (omega (arith, machine-state_size))
      (omega arith)

save_state-refuses_example : save_state machine (some zeroed) 49642 ≡ (enospace, some zeroed)
save_state-refuses_example =
    save_state-refuses machine zeroed 49642 machine-IsValid (omega arith) (omega arith)
