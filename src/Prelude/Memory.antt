-- ===== src/Prelude/Memory.antt =====
-- C arrays. An array is the function of its elements, and its size stands beside it, as in the
-- source; `load` and `store` are the accesses, and `none` is an access outside of the array.
use Prim.Native.Nat.{ℕ, ◌+◌, ◌-◌, ◌<◌}
use mathlib.Core.Path.{◌≡◌}
use mathlib.Core.Bool.{◌&&◌}
use mathlib.Core.Option.{Option, none, some}
use native.Mathlib.Omega.{arith}
use aarch.Prelude.Tests.{ltb, leb, ◌==◌, if◌then◌else◌}

abbrev pub Bytes : Type 0
Bytes = ℕ → ℕ

abbrev pub update {ℓ} : {A : Type ℓ} → (ℕ → A) → ℕ → A → ℕ → A
update b i v j = if j == i then v else b j

abbrev pub zeroed : Bytes
zeroed _ = 0

abbrev pub load : Bytes → ℕ → ℕ → Option ℕ
load b size i = if ltb i size then some (b i) else none

abbrev pub store : Bytes → ℕ → ℕ → ℕ → Option Bytes
store b size i v = if ltb i size then some (update b i v) else none

pub load_lem : (b : Bytes) {size i : ℕ} → i < size → load b size i ≡ some (b i)
load_lem b h = ground arith

pub store_lem : (b : Bytes) {size i : ℕ} (v : ℕ) → i < size → store b size i v ≡ some (update b i v)
store_lem b v h = ground arith

-- `memset(b, v, n)`.
abbrev pub fill : Bytes → ℕ → ℕ → ℕ → Option Bytes
fill b size v n = if leb n size then some (λ i. if ltb i n then v else b i) else none

-- `memcpy(b + at, p, n)`.
abbrev pub copy_to : Bytes → ℕ → Bytes → ℕ → Bytes
copy_to b at p n j = if leb at j && ltb j (at + n) then p (j - at) else b j

-- Every element is a `uint8_t`.
abbrev pub IsBytes : Bytes → Type 0
IsBytes b = (i : ℕ) → b i < 256

pub update-IsBytes : {b : Bytes} (i : ℕ) {v : ℕ} → IsBytes b → v < 256 → IsBytes (update b i v)
update-IsBytes i h hv j = ground (arith, h j)

pub copy_to-IsBytes : {b p : Bytes} (at n : ℕ) → IsBytes b → IsBytes p → IsBytes (copy_to b at p n)
copy_to-IsBytes {p = p} at n hb hp j = ground (arith, hb j, hp (j - at))

-- A chain of steps that stops at the first `none`.
infixl 5 ◌>>=◌
abbrev pub ◌>>=◌ {ℓ κ} : {A : Type ℓ} {B : Type κ} → Option A → (A → Option B) → Option B
◌>>=◌ first next = elim first [ none ↦ none | some x ↦ next x ]

-- The branch of a pointer that is not NULL.
pub loaded :
    {A : Type 0} (P : A → Type 0) (x y : A) (o : Option Bytes) {image : Bytes}
    → o ≡ some image
    → P y
    → P (elim o [ none ↦ x | some rom ↦ y ])
loaded P x y none e h = cc
loaded P x y (some rom) e h = h
