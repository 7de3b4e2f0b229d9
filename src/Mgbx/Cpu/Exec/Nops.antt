-- ===== src/Mgbx/Cpu/Exec/Nops.antt =====
-- The opcodes that `exec` does not decode.
use aarch.Prelude.{
  ℕ, ◌≡◌, refl, arith, ◌==◌, ◌||◌, Bool, true, false, Bool-cases, inl, inr, List, [], ◌∷◌, some,
}
use aarch.Mgbx.State.{Mgbx}
use aarch.Mgbx.Machine.{pure, when◌then◌else◌}
use aarch.Mgbx.Cpu.Exec.Loads.{exec_load8, exec_load_a, exec_load16}
use aarch.Mgbx.Cpu.Exec.Arithmetic.{exec_alu8, exec_alu8_imm, exec_inc_dec, exec_rotate, exec_alu16}
use aarch.Mgbx.Cpu.Exec.Jumps.{exec_jump, exec_call, exec_misc}
use aarch.Mgbx.Cpu.Exec.{exec}

-- NOP, the eleven opcodes that the processor does not have, LD A,(HL) and ADD SP,e8.
abbrev pub undecoded : List ℕ
undecoded =
    0x00 ∷ 0xd3 ∷ 0xdb ∷ 0xdd ∷ 0xe3 ∷ 0xe4 ∷ 0xeb ∷ 0xec ∷ 0xed ∷ 0xf4 ∷ 0xfc ∷ 0xfd ∷ 0x7e ∷ 0xe8
    ∷ []

abbrev pub is_one_of : List ℕ → ℕ → Bool
is_one_of [] op = false
is_one_of (k ∷ ks) op = op == k || is_one_of ks op

AllNops : Mgbx → List ℕ → Type 0
AllNops gb [] = Unit {0}
AllNops gb (k ∷ ks) = (exec k gb ≡ some (4, gb)) × AllNops gb ks

one_of_nops :
    (gb : Mgbx) (op : ℕ) (ks : List ℕ)
    → AllNops gb ks
    → is_one_of ks op ≡ true
    → exec op gb ≡ some (4, gb)
unfolding AllNops
one_of_nops gb op [] h e = absurd (ground arith)
one_of_nops gb op (k ∷ ks) h e = elim (Bool-cases (op == k)) [
  | inl t ↦ let same : op ≡ k = ground arith in rw same h.0
  | inr f ↦ one_of_nops gb op ks h.1 (ground arith)
]

undecoded-AllNops : (gb : Mgbx) → AllNops gb undecoded
unfolding AllNops exec exec_load8 exec_load_a exec_load16 exec_alu8 exec_alu8_imm exec_inc_dec
    exec_rotate exec_alu16 exec_jump exec_call exec_misc pure when◌then◌else◌
undecoded-AllNops gb = (
  refl,
  (
    refl,
    (
      refl,
      (refl, (refl, (refl, (refl, (refl, (refl, (refl, (refl, (refl, (refl, (refl, tt))))))))))),
    ),
  ),
)

-- Outside of the instruction set, and for the two instructions LD A,(HL) and ADD SP,e8, `exec` takes
-- 4 cycles and changes nothing, as for NOP.
pub exec-undecoded :
    (gb : Mgbx) (op : ℕ) → is_one_of undecoded op ≡ true → exec op gb ≡ some (4, gb)
exec-undecoded gb op e = one_of_nops gb op undecoded (undecoded-AllNops gb) e
