-- ===== src/Mgbx/Machine.antt =====
-- Steps over the machine: each gives a value and the machine after it, or `none` for an access
-- outside of an array.
pub mod Valid
pub mod Writes
pub mod Rules
pub mod Sample
mod Tests
use mathlib.Core.Option
use aarch.Prelude.{ℕ, Bool, true, false, Option, none, some}
use aarch.Mgbx.State.{Mgbx, Cpu, Mem}
use aarch.Mgbx.Bus.{bus_read, bus_write}

abbrev pub Machine : Type 0 → Type 0
Machine A = Mgbx → Option (A × Mgbx)

unfoldable pub pure : {A : Type 0} → A → Machine A
pure a gb = some (a, gb)

infixl 5 ◌>>=◌ ◌>>◌
unfoldable pub ◌>>=◌ : {A B : Type 0} → Machine A → (A → Machine B) → Machine B
◌>>=◌ m f gb = elim (m gb) [ none ↦ none | some (a, gb') ↦ f a gb' ]

unfoldable pub ◌>>◌ : {A B : Type 0} → Machine A → Machine B → Machine B
m >> k = m >>= λ _. k

-- An `if` or a `case` between steps.
infix 1 when◌then◌else◌
unfoldable pub when◌then◌else◌ : {A : Type 0} → Bool → Machine A → Machine A → Machine A
when true then m else others = m
when false then m else others = others

-- `rd` and `wr`
unfoldable pub rd : ℕ → Machine ℕ
rd a gb = Option.map (λ v. (v, gb)) (bus_read gb a)

unfoldable pub wr : ℕ → ℕ → Machine (Unit {0})
wr a v gb = Option.map (λ gb'. (tt, gb')) (bus_write gb a v)

unfoldable pub get_cpu : Machine Cpu
get_cpu gb = some (gb.cpu, gb)

unfoldable pub modify_cpu : (Cpu → Cpu) → Machine (Unit {0})
modify_cpu f gb = some (tt, record gb { cpu = f gb.cpu })

unfoldable pub modify_mem : (Mem → Mem) → Machine (Unit {0})
modify_mem f gb = some (tt, record gb { mem = f gb.mem })

-- A call that changes the registers and returns a value.
unfoldable pub call_cpu : {A : Type 0} → (Cpu → A × Cpu) → Machine A
call_cpu f gb = let (a, c) = f gb.cpu in some (a, record gb { cpu = c })
