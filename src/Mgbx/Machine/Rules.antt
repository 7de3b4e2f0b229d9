-- ===== src/Mgbx/Machine/Rules.antt =====
-- Safe steps: from a valid machine they give a value, and leave a valid machine.
use mathlib.Core.Path.{subst, sym}
use aarch.Prelude.{ℕ, ◌^◌, ◌<◌, ◌≡◌, refl, ap, ◌∙◌, Bool, true, false, Option, none, some}
use aarch.Mgbx.State.{Mgbx, Cpu, Mem}
use aarch.Mgbx.Bus.Bounds.{bus_read-InByte}
use aarch.Mgbx.Machine.{
  Machine, pure, ◌>>=◌, ◌>>◌, when◌then◌else◌, rd, wr, get_cpu, modify_cpu, modify_mem, call_cpu,
}
use aarch.Mgbx.Machine.Valid.{
  IsValid, IsValid→BusIsValid, with_cpu, with_mem, CpuInRange, MemIsValid,
}
use aarch.Mgbx.Machine.Writes.{bus_write-Kept}

-- The step succeeded, its value is a `P`, and the machine is valid.
abbrev pub Succeeds : {A : Type 0} → (A → Type 0) → Option (A × Mgbx) → Type 0
Succeeds {A} P o = (r : A × Mgbx) × (o ≡ some r) × P r.0 × IsValid r.1

pub record Safe {A : Type 0} (m : Machine A) (P : A → Type 0) : Type 0 where
  pub run : (gb : Mgbx) → IsValid gb → Succeeds P (m gb)

abbrev pub AnyValue : {A : Type 0} → A → Type 0
AnyValue _ = Unit {0}

abbrev pub IsByte : ℕ → Type 0
IsByte v = v < 256

abbrev pub IsWord : ℕ → Type 0
IsWord v = v < 2 ^ 16

-- What the steps do on a machine.
pure_run : {A : Type 0} (a : A) (gb : Mgbx) → pure a gb ≡ some (a, gb)
unfolding pure
pure_run a gb = refl

bind_run :
    {A B : Type 0} (m : Machine A) (f : A → Machine B) (gb : Mgbx) {r : A × Mgbx}
    → m gb ≡ some r
    → (m >>= f) gb ≡ f r.0 r.1
unfolding ◌>>=◌
bind_run {A} {B} m f gb e =
    ap (λ (o : Option (A × Mgbx)). elim o [ none ↦ none | some (a, gb') ↦ f a gb' ]) e

then_bind : {A B : Type 0} (m : Machine A) (k : Machine B) → (m >> k) ≡ (m >>= λ _. k)
unfolding ◌>>◌
then_bind m k = refl

when_run :
    {A : Type 0} (P : Machine A → Type 0) (b : Bool) (m others : Machine A)
    → P m
    → P others
    → P (when b then m else others)
unfolding when◌then◌else◌
when_run P true m others h k = h
when_run P false m others h k = k

modify_cpu_run :
    (f : Cpu → Cpu) (gb : Mgbx) → modify_cpu f gb ≡ some (tt, record gb { cpu = f gb.cpu })
unfolding modify_cpu
modify_cpu_run f gb = refl

modify_mem_run :
    (f : Mem → Mem) (gb : Mgbx) → modify_mem f gb ≡ some (tt, record gb { mem = f gb.mem })
unfolding modify_mem
modify_mem_run f gb = refl

call_cpu_run :
    {A : Type 0} (f : Cpu → A × Cpu) (gb : Mgbx)
    → call_cpu f gb ≡ some ((f gb.cpu).0, record gb { cpu = (f gb.cpu).1 })
unfolding call_cpu
call_cpu_run f gb = refl

pub pure-Safe : {A : Type 0} {P : A → Type 0} (a : A) → P a → Safe (pure a) P
pure-Safe a h = record { run = λ gb v. ((a, gb), pure_run a gb, h, v) }

pub bind-Safe :
    {A B : Type 0} {m : Machine A} {f : A → Machine B} {P : A → Type 0} {Q : B → Type 0}
    → Safe m P
    → ((a : A) → P a → Safe (f a) Q)
    → Safe (m >>= f) Q
bind-Safe {m} {f} s k = record {
  run = λ gb v.
      let (r, e, h, v') = s.run gb v in
      let (r', e', h', v'') = (k r.0 h).run r.1 v' in (r', bind_run m f gb e ∙ e', h', v'');
}

pub then-Safe :
    {A B : Type 0} {m : Machine A} {k : Machine B} {P : A → Type 0} {Q : B → Type 0}
    → Safe m P
    → Safe k Q
    → Safe (m >> k) Q
then-Safe {m} {k} s t = rw (then_bind m k) (bind-Safe s (λ _ _. t))

pub when-Safe :
    {A : Type 0} {m others : Machine A} {P : A → Type 0} (b : Bool)
    → Safe m P
    → Safe others P
    → Safe (when b then m else others) P
when-Safe {m} {others} {P} b h k = when_run (λ s. Safe s P) b m others h k

-- The branch of a known test.
when_true :
    {A : Type 0} {b : Bool} (m others : Machine A) → b ≡ true → (when b then m else others) ≡ m
unfolding when◌then◌else◌
when_true m others e = rw e refl

when_false :
    {A : Type 0} {b : Bool} (m others : Machine A)
    → b ≡ false
    → (when b then m else others) ≡ others
unfolding when◌then◌else◌
when_false m others e = rw e refl

pub when_true-Safe :
    {A : Type 0} {b : Bool} {m : Machine A} {P : A → Type 0} (others : Machine A)
    → b ≡ true
    → Safe m P
    → Safe (when b then m else others) P
when_true-Safe {m} {P} others e h = subst (λ s. Safe s P) (sym (when_true m others e)) h

pub when_false-Safe :
    {A : Type 0} {b : Bool} {others : Machine A} {P : A → Type 0} (m : Machine A)
    → b ≡ false
    → Safe others P
    → Safe (when b then m else others) P
when_false-Safe {others} {P} m e h = subst (λ s. Safe s P) (sym (when_false m others e)) h

pub run_when :
    {A : Type 0} {b : Bool} (P : A → Type 0) (m others : Machine A) (gb : Mgbx)
    → b ≡ true
    → Succeeds P (m gb)
    → Succeeds P ((when b then m else others) gb)
run_when P m others gb e h = subst (λ s. Succeeds P (s gb)) (sym (when_true m others e)) h

pub rd-Safe : (a : ℕ) → Safe (rd a) IsByte
unfolding rd
rd-Safe a = record {
  run = λ gb v.
      let read = bus_read-InByte gb a (IsValid→BusIsValid v) in ((_, gb), rw read.0, read.1, v);
}

pub wr-Safe : (a : ℕ) {x : ℕ} → x < 256 → Safe (wr a x) AnyValue
unfolding wr
wr-Safe a {x} small = record {
  run = λ gb v. let (gb', e, v') = bus_write-Kept a x v small in ((tt, gb'), rw e, tt, v');
}

pub get_cpu-Safe : Safe get_cpu CpuInRange
unfolding get_cpu
get_cpu-Safe = record { run = λ gb v. ((gb.cpu, gb), refl, v.cpu, v) }

pub modify_cpu-Safe :
    (f : Cpu → Cpu) → ((c : Cpu) → CpuInRange c → CpuInRange (f c)) → Safe (modify_cpu f) AnyValue
modify_cpu-Safe f h = record {
  run = λ gb v.
      ((tt, record gb { cpu = f gb.cpu }), modify_cpu_run f gb, tt, with_cpu v (h gb.cpu v.cpu));
}

pub call_cpu-Safe :
    {A : Type 0} {P : A → Type 0} (f : Cpu → A × Cpu)
    → ((c : Cpu) → CpuInRange c → P (f c).0 × CpuInRange (f c).1)
    → Safe (call_cpu f) P
call_cpu-Safe f h = record {
  run = λ gb v. (
    ((f gb.cpu).0, record gb { cpu = (f gb.cpu).1 }),
    call_cpu_run f gb,
    (h gb.cpu v.cpu).0,
    with_cpu v (h gb.cpu v.cpu).1,
  );
}

pub modify_mem-Safe :
    (f : Mem → Mem)
    → ((mem : Mem) → MemIsValid mem → MemIsValid (f mem))
    → Safe (modify_mem f) AnyValue
modify_mem-Safe f h = record {
  run = λ gb v.
      ((tt, record gb { mem = f gb.mem }), modify_mem_run f gb, tt, with_mem v (h gb.mem v.mem));
}
