-- ===== src/Prelude/Tables.antt =====
-- C arrays as functions of the index, and the loops over them: the first index that passes a test,
-- and the number of those that do.
use Prim.Native.Nat.{ℕ, zero, suc, ◌+◌, ◌≤◌, ◌<◌}
use mathlib.Core.Path.{◌≡◌, refl, fun_ext}
use mathlib.Core.Logic.{◌≢◌, inl, inr}
use mathlib.Core.Bool.{Bool, true, false}
use mathlib.Core.Option.{Option, none, some}
use native.Mathlib.Omega.{arith}
use drqueue.Prelude.Tests.{◌==◌, if◌then◌else◌, Bool-cases}

-- A write: the array `f` with `v` in cell `i`.
abbrev pub update {ℓ} : {A : Type ℓ} → (ℕ → A) → ℕ → A → ℕ → A
update f i v j = if j == i then v else f j

pub update_self {ℓ} : {A : Type ℓ} (f : ℕ → A) (i : ℕ) (v : A) → update f i v i ≡ v
update_self f i v = ground arith

pub update_ne {ℓ} : {A : Type ℓ} (f : ℕ → A) (i j : ℕ) (v : A) → j ≢ i → update f i v j ≡ f j
update_ne f i j v h = ground arith

pub update_same {ℓ} : {A : Type ℓ} (f : ℕ → A) (i : ℕ) → update f i (f i) ≡ f
update_same f i = fun_ext (λ j. ground arith)

-- The rounds of `for (j = i; j < i + k; j++) if (p (j)) { r = j; break; }`.
pub search_up : ℕ → ℕ → (ℕ → Bool) → Option ℕ
search_up zero i p = none
search_up (suc k) i p = let rest = search_up k (i + 1) p in if p i then some i else rest

-- `for (j = 0; j < n; j++) if (p (j)) { r = j; break; }`.
unfoldable pub find_first : ℕ → (ℕ → Bool) → Option ℕ
unfolding search_up
find_first n p = search_up n 0 p

search_up-some :
    (k i : ℕ) (p : ℕ → Bool) (r : ℕ)
    → search_up k i p ≡ some r
    → (i ≤ r) × (r < i + k) × (p r ≡ true)
unfolding search_up
search_up-some zero i p r e = ground arith
search_up-some (suc k) i p r e = ground (arith, search_up-some k (i + 1) p r)

search_up_least :
    (k i : ℕ) (p : ℕ → Bool) (r j : ℕ) → search_up k i p ≡ some r → i ≤ j → j < r → p j ≡ false
unfolding search_up
search_up_least zero i p r j e h l = ground arith
search_up_least (suc k) i p r j e h l = elim (Bool-cases (p i)) [
  | inl hit ↦ absurd (ground arith)
  | inr miss ↦ elim (Bool-cases (i == j)) [
    | inl same ↦ ground arith
    | inr further ↦ search_up_least k (i + 1) p r j (ground arith) (ground arith) l
  ]
]

search_up-none :
    (k i : ℕ) (p : ℕ → Bool) (j : ℕ) → search_up k i p ≡ none → i ≤ j → j < i + k → p j ≡ false
unfolding search_up
search_up-none zero i p j e h l = absurd (omega arith)
search_up-none (suc k) i p j e h l = elim (Bool-cases (p i)) [
  | inl hit ↦ absurd (ground arith)
  | inr miss ↦ elim (Bool-cases (i == j)) [
    | inl same ↦ ground arith
    | inr further ↦ search_up-none k (i + 1) p j (ground arith) (ground arith) (omega arith)
  ]
]

pub find_first-some :
    (n : ℕ) (p : ℕ → Bool) (r : ℕ) → find_first n p ≡ some r → (r < n) × (p r ≡ true)
unfolding find_first
find_first-some n p r e = ground (arith, search_up-some n 0 p r e)

pub find_first_least :
    (n : ℕ) (p : ℕ → Bool) (r j : ℕ) → find_first n p ≡ some r → j < r → p j ≡ false
unfolding find_first
find_first_least n p r j e l = search_up_least n 0 p r j e (omega arith) l

pub find_first-none : (n : ℕ) (p : ℕ → Bool) (j : ℕ) → find_first n p ≡ none → j < n → p j ≡ false
unfolding find_first
find_first-none n p j e l = search_up-none n 0 p j e (omega arith) (omega arith)

-- The number of indices below `n` that pass the test.
unfoldable pub count_below : ℕ → (ℕ → Bool) → ℕ
count_below zero p = 0
count_below (suc n) p = count_below n p + (if p n then 1 else 0)

pub count_below-le : (n : ℕ) (p : ℕ → Bool) → count_below n p ≤ n
unfolding count_below
count_below-le zero p = omega arith
count_below-le (suc n) p = ground (arith, count_below-le n p)

-- Two tests that agree below `n` count alike.
pub count_below_congr :
    (n : ℕ) (p q : ℕ → Bool) → ((j : ℕ) → j < n → p j ≡ q j) → count_below n p ≡ count_below n q
unfolding count_below
count_below_congr zero p q h = refl
count_below_congr (suc n) p q h =
    ground (arith, count_below_congr n p q (λ j l. h j (omega arith)), h n (omega arith))

-- A test that changes at one index only moves the count by what it says there.
pub count_below_change :
    (n i : ℕ) (p q : ℕ → Bool)
    → i < n
    → ((j : ℕ) → j ≢ i → p j ≡ q j)
    → count_below n p + (if q i then 1 else 0) ≡ count_below n q + (if p i then 1 else 0)
unfolding count_below
count_below_change zero i p q l h = absurd (omega arith)
count_below_change (suc n) i p q l h = elim (Bool-cases (n == i)) [
  | inl last ↦ ground (arith, count_below_congr n p q (λ j b. h j (ground arith)))
  | inr before ↦ ground (arith, count_below_change n i p q (ground arith) h, h n (ground arith))
]

-- Where the count is 0 no index passes.
pub count_below_zero : (n : ℕ) (p : ℕ → Bool) (j : ℕ) → count_below n p ≡ 0 → j < n → p j ≡ false
unfolding count_below
count_below_zero zero p j e l = absurd (omega arith)
count_below_zero (suc n) p j e l = elim (Bool-cases (n == j)) [
  | inl last ↦ ground arith
  | inr before ↦ count_below_zero n p j (ground arith) (ground arith)
]
