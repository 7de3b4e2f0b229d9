-- ===== src/Mgbx/Ppu/Order.antt =====
-- The sprites of a line: which ones are drawn, and in which order.
use mathlib.Core.List.{Perm, perm_middle, append-nil}
use mathlib.Core.List.Perm
use aarch.Prelude.{
  ℕ, zero, suc, ◌+◌, ◌*◌, ◌≤◌, ◌<◌, ◌≡◌, ◌⊎◌, inl, refl, arith, ltb, ltb→lt, if◌then◌else◌,
  branches, switch, u8, true, false, some, load_lem, List, [], ◌∷◌, ◌++◌, length,
}
use aarch.Mgbx.State.{Ppu}
use aarch.Mgbx.Ppu.Sprites.{
  oam_size, covers, pick_sprites, insert_sprite, sort_sprites, sort_order, sprite_order,
}

-- The X of an entry of OAM.
abbrev pub sprite_x : Ppu → ℕ → ℕ
sprite_x ppu i = ppu.oam (i * 4 + 1)

-- The entries of OAM that cover the line, in OAM order.
abbrev keep_covering : ℕ → ℕ → Ppu → List ℕ
keep_covering zero i ppu = []
keep_covering (suc left) i ppu =
    let rest = keep_covering left (i + 1) ppu in
    if covers ppu (ppu.oam (i * 4)) then i ∷ rest else rest

abbrev pub take : ℕ → List ℕ → List ℕ
take zero xs = []
take (suc n) [] = []
take (suc n) (x ∷ xs) = x ∷ take n xs

abbrev pub covering : Ppu → List ℕ
covering ppu = keep_covering 40 0 ppu

-- A sprite is drawn before another with a larger X, or with the same X and a larger index.
abbrev pub Precedes : Ppu → ℕ → ℕ → Type 0
Precedes ppu i j = (sprite_x ppu i < sprite_x ppu j) ⊎ ((sprite_x ppu i ≡ sprite_x ppu j) × (i < j))

abbrev pub AllPrecede : Ppu → List ℕ → ℕ → Type 0
AllPrecede ppu [] j = Unit {0}
AllPrecede ppu (i ∷ is) j = Precedes ppu i j × AllPrecede ppu is j

-- Each sprite comes after all that follow it in the list.
abbrev pub LastFirst : Ppu → List ℕ → Type 0
LastFirst ppu [] = Unit {0}
LastFirst ppu (j ∷ is) = AllPrecede ppu is j × LastFirst ppu is

-- Every element is below the bound.
abbrev pub AllBelow : ℕ → List ℕ → Type 0
AllBelow n [] = Unit {0}
AllBelow n (i ∷ is) = (i < n) × AllBelow n is

-- The elements grow, from `n` on.
abbrev Ascending : ℕ → List ℕ → Type 0
Ascending n [] = Unit {0}
Ascending n (i ∷ is) = (n ≤ i) × Ascending (i + 1) is

-- The elements below the limit of ten are stored.
pick_sprites-eq-take :
    (left count i : ℕ) (ppu : Ppu) (room : ℕ)
    → count + room ≡ 10
    → left + i ≤ 40
    → pick_sprites left count i ppu ≡ some (take room (keep_covering left i ppu))
unfolding pick_sprites
pick_sprites-eq-take zero count i ppu zero e h = refl
pick_sprites-eq-take zero count i ppu (suc room) e h = refl
pick_sprites-eq-take (suc left) count i ppu zero e h =
    let full : ltb count 10 ≡ false = ground arith in rw (pick_sprites, full) refl
pick_sprites-eq-take (suc left) count i ppu (suc room) e h =
    let stored =
      pick_sprites-eq-take left (count + 1) (i + 1) ppu room (omega arith) (omega arith) in
    let passed = pick_sprites-eq-take left count (i + 1) ppu (suc room) e (omega arith) in
    let byte : u8 i ≡ i = omega arith in ground (arith, stored, passed, byte)

Ascending-weaken : (m n : ℕ) (is : List ℕ) → m ≤ n → Ascending n is → Ascending m is
Ascending-weaken m n [] h k = tt
Ascending-weaken m n (i ∷ is) h k = (omega arith, k.1)

keep_covering-Ascending : (left i : ℕ) (ppu : Ppu) → Ascending i (keep_covering left i ppu)
keep_covering-Ascending zero i ppu = tt
keep_covering-Ascending (suc left) i ppu =
    let rest = keep_covering-Ascending left (i + 1) ppu in
    branches (Ascending i) (covers ppu (ppu.oam (i * 4))) (λ _. (omega arith, rest))
      (λ _. Ascending-weaken i (i + 1) (keep_covering left (i + 1) ppu) (omega arith) rest)

take-Ascending : (n m : ℕ) (is : List ℕ) → Ascending m is → Ascending m (take n is)
take-Ascending zero m is h = tt
take-Ascending (suc n) m [] h = tt
take-Ascending (suc n) m (i ∷ is) h = (h.0, take-Ascending n (i + 1) is h.1)

length-take : (n : ℕ) (is : List ℕ) → length (take n is) ≤ n
length-take zero is = omega arith
length-take (suc n) [] = omega arith
length-take (suc n) (i ∷ is) = omega (arith, length-take n is)

AllBelow-weaken : (m n : ℕ) (is : List ℕ) → m ≤ n → AllBelow m is → AllBelow n is
AllBelow-weaken m n [] h k = tt
AllBelow-weaken m n (i ∷ is) h k = (omega arith, AllBelow-weaken m n is h k.1)

-- The insertion of a key, in the list of the entries, the last one first.
inserted : Ppu → ℕ → List ℕ → List ℕ
inserted ppu key [] = key ∷ []
inserted ppu key (i ∷ rest) = elim (ltb (sprite_x ppu key) (sprite_x ppu i)) [
  | true ↦ i ∷ inserted ppu key rest
  | false ↦ key ∷ i ∷ rest
]

sorted_into : Ppu → List ℕ → List ℕ → List ℕ
sorted_into ppu sorted [] = sorted
sorted_into ppu sorted (key ∷ order) = sorted_into ppu (inserted ppu key sorted) order

AllPrecede-trans :
    (ppu : Ppu) (is : List ℕ) {j k : ℕ}
    → Precedes ppu j k
    → AllPrecede ppu is j
    → AllPrecede ppu is k
AllPrecede-trans ppu [] h p = tt
AllPrecede-trans ppu (i ∷ is) h p = (ground arith, AllPrecede-trans ppu is h p.1)

inserted-AllPrecede :
    (ppu : Ppu) (key : ℕ) (is : List ℕ) {j : ℕ}
    → Precedes ppu key j
    → AllPrecede ppu is j
    → AllPrecede ppu (inserted ppu key is) j
unfolding inserted
inserted-AllPrecede ppu key [] h p = (h, tt)
inserted-AllPrecede ppu key (i ∷ is) {j} h p =
    switch (λ is'. AllPrecede ppu is' j) (ltb (sprite_x ppu key) (sprite_x ppu i)) (λ _. (h, p))
      (λ _. (p.0, inserted-AllPrecede ppu key is h p.1))

inserted-LastFirst :
    (ppu : Ppu) (key : ℕ) (is : List ℕ)
    → AllBelow key is
    → LastFirst ppu is
    → LastFirst ppu (inserted ppu key is)
unfolding inserted
inserted-LastFirst ppu key [] b s = (tt, tt)
inserted-LastFirst ppu key (i ∷ is) b s =
    switch (LastFirst ppu) (ltb (sprite_x ppu key) (sprite_x ppu i))
      (λ f.
        let next : Precedes ppu i key = ground arith in
        ((next, AllPrecede-trans ppu is next s.0), s))
      (λ t. (
        inserted-AllPrecede ppu key is (inl (ltb→lt _ _ t)) s.0,
        inserted-LastFirst ppu key is b.1 s.1,
      ))

inserted-AllBelow :
    (ppu : Ppu) (key n : ℕ) (is : List ℕ)
    → key < n
    → AllBelow n is
    → AllBelow n (inserted ppu key is)
unfolding inserted
inserted-AllBelow ppu key n [] h b = (h, tt)
inserted-AllBelow ppu key n (i ∷ is) h b =
    switch (AllBelow n) (ltb (sprite_x ppu key) (sprite_x ppu i)) (λ _. (h, b))
      (λ _. (b.0, inserted-AllBelow ppu key n is h b.1))

inserted-Perm : (ppu : Ppu) (key : ℕ) (is : List ℕ) → Perm (inserted ppu key is) (key ∷ is)
unfolding inserted
inserted-Perm ppu key [] = Perm.refl (key ∷ [])
inserted-Perm ppu key (i ∷ is) =
    switch (λ is'. Perm is' (key ∷ i ∷ is)) (ltb (sprite_x ppu key) (sprite_x ppu i))
      (λ _. Perm.refl (key ∷ i ∷ is))
      (λ _. Perm.trans (Perm.cons i (inserted-Perm ppu key is)) (Perm.swap key i is))

sorted_into-LastFirst :
    (ppu : Ppu) (n : ℕ) (sorted order : List ℕ)
    → AllBelow n sorted
    → Ascending n order
    → LastFirst ppu sorted
    → LastFirst ppu (sorted_into ppu sorted order)
unfolding sorted_into
sorted_into-LastFirst ppu n sorted [] b a s = s
sorted_into-LastFirst ppu n sorted (key ∷ order) b a s =
    let below = AllBelow-weaken n key sorted a.0 b in
    sorted_into-LastFirst ppu (key + 1) (inserted ppu key sorted) order
      (inserted-AllBelow ppu key (key + 1) sorted (omega arith)
        (AllBelow-weaken key (key + 1) sorted (omega arith) below))
      a.1 (inserted-LastFirst ppu key sorted below s)

sorted_into-Perm :
    (ppu : Ppu) (sorted order : List ℕ) → Perm (sorted_into ppu sorted order) (order ++ sorted)
unfolding sorted_into
sorted_into-Perm ppu sorted [] = Perm.refl sorted
sorted_into-Perm ppu sorted (key ∷ order) =
    Perm.trans (sorted_into-Perm ppu (inserted ppu key sorted) order) (
      Perm.trans (Perm.append_left order (inserted-Perm ppu key sorted)) (perm_middle order sorted))

-- The entries stand in OAM.
insert_sprite-eq-inserted :
    (ppu : Ppu) (key : ℕ) (is : List ℕ)
    → AllBelow 40 is
    → insert_sprite ppu key (sprite_x ppu key) is ≡ some (inserted ppu key is)
unfolding insert_sprite inserted
insert_sprite-eq-inserted ppu key [] b = refl
insert_sprite-eq-inserted ppu key (i ∷ is) b =
    let inside : i * 4 + 1 < oam_size = omega (arith, b.0) in
    ground (arith, inside, insert_sprite-eq-inserted ppu key is b.1)

sort_sprites-eq-sorted_into :
    (ppu : Ppu) (sorted order : List ℕ)
    → AllBelow 40 sorted
    → AllBelow 40 order
    → sort_sprites ppu sorted order ≡ some (sorted_into ppu sorted order)
unfolding sort_sprites sorted_into
sort_sprites-eq-sorted_into ppu sorted [] b a = refl
sort_sprites-eq-sorted_into ppu sorted (key ∷ order) b a =
    let inside : key * 4 + 1 < oam_size = omega (arith, a.0) in
    rw (load_lem ppu.oam inside, insert_sprite-eq-inserted ppu key sorted b)
      (sort_sprites-eq-sorted_into ppu (inserted ppu key sorted) order
        (inserted-AllBelow ppu key 40 sorted a.0 b) a.1)

sort_order-eq-sorted_into :
    (ppu : Ppu) (order : List ℕ)
    → AllBelow 40 order
    → sort_order ppu order ≡ some (sorted_into ppu [] order)
unfolding sort_order sorted_into inserted
sort_order-eq-sorted_into ppu [] a = refl
sort_order-eq-sorted_into ppu (first ∷ order) a =
    sort_sprites-eq-sorted_into ppu (first ∷ []) order (a.0, tt) a.1

sorted_into-AllBelow :
    (ppu : Ppu) (sorted order : List ℕ)
    → AllBelow 40 sorted
    → AllBelow 40 order
    → AllBelow 40 (sorted_into ppu sorted order)
unfolding sorted_into
sorted_into-AllBelow ppu sorted [] b a = b
sorted_into-AllBelow ppu sorted (key ∷ order) b a =
    sorted_into-AllBelow ppu (inserted ppu key sorted) order
      (inserted-AllBelow ppu key 40 sorted a.0 b) a.1

keep_covering-AllBelow :
    (left i : ℕ) (ppu : Ppu) → left + i ≤ 40 → AllBelow 40 (keep_covering left i ppu)
keep_covering-AllBelow zero i ppu h = tt
keep_covering-AllBelow (suc left) i ppu h =
    let rest = keep_covering-AllBelow left (i + 1) ppu (omega arith) in
    branches (AllBelow 40) (covers ppu (ppu.oam (i * 4))) (λ _. (omega arith, rest)) (λ _. rest)

take-AllBelow : (n m : ℕ) (is : List ℕ) → AllBelow m is → AllBelow m (take n is)
take-AllBelow zero m is h = tt
take-AllBelow (suc n) m [] h = tt
take-AllBelow (suc n) m (i ∷ is) h = (h.0, take-AllBelow n m is h.1)

ten-AllBelow : (ppu : Ppu) → AllBelow 40 (take 10 (covering ppu))
ten-AllBelow ppu =
    take-AllBelow 10 40 (covering ppu) (keep_covering-AllBelow 40 0 ppu (omega arith))

sprite_order-eq-sorted_into :
    (ppu : Ppu) → sprite_order ppu ≡ some (sorted_into ppu [] (take 10 (covering ppu)))
unfolding sprite_order
sprite_order-eq-sorted_into ppu =
    rw (pick_sprites-eq-take 40 0 0 ppu 10 (omega arith) (omega arith))
      (sort_order-eq-sorted_into ppu (take 10 (covering ppu)) (ten-AllBelow ppu))

-- The order is that of entries of OAM.
pub sprite_order-AllBelow :
    (ppu : Ppu) → (order : List ℕ) × (sprite_order ppu ≡ some order) × AllBelow 40 order
sprite_order-AllBelow ppu = (
  sorted_into ppu [] (take 10 (covering ppu)),
  sprite_order-eq-sorted_into ppu,
  sorted_into-AllBelow ppu [] (take 10 (covering ppu)) tt (ten-AllBelow ppu),
)

-- The selection and the sort of the sprites of a line stay inside OAM and inside the array of 40
-- indices, and give the first ten entries of OAM that cover the line, drawn in the order of their X,
-- those of the same X in OAM order: the list, the last one first, is a permutation of those ten or
-- fewer entries, and each precedes the ones before it in the list.
pub sprite_order_lem :
    (ppu : Ppu)
    → (order : List ℕ) × (sprite_order ppu ≡ some order)
      × Perm order (take 10 (covering ppu))
      × LastFirst ppu order
      × (length (take 10 (covering ppu)) ≤ 10)
sprite_order_lem ppu =
    let ten = take 10 (covering ppu) in
    (
      sorted_into ppu [] ten,
      sprite_order-eq-sorted_into ppu,
      rw (append-nil ten) at (sorted_into-Perm ppu [] ten),
      sorted_into-LastFirst ppu 0 [] ten tt
          (take-Ascending 10 0 (covering ppu) (keep_covering-Ascending 40 0 ppu)) tt,
      length-take 10 (covering ppu),
    )
