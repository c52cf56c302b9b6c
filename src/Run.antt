-- ===== src/Run.antt =====
-- How a C routine ends: with a value, in undefined behaviour, or, in the model only, out of the
-- rounds that a loop was given. Counted loops and the rule for them.
use codingforfun.Prelude.{
  ℕ, zero, suc, ◌+◌, ◌≤◌, ◌<◌, ◌≡◌, refl, Bool, true, false, Option, none, some, arith,
  if◌then◌else◌,
}

-- `fault` stands for an access outside an object, or through a null or dangling pointer, and where
-- the definition says so for a sum of `int`s or a shift that is undefined.
pub data Run {ℓ} (A : Type ℓ) : Type ℓ where
  done : A → Run A
  fault : Run A
  no_fuel : Run A

infixl 5 ◌>>=◌
abbrev pub ◌>>=◌ {ℓ κ} : {S : Type ℓ} {T : Type κ} → Run S → (S → Run T) → Run T
done s >>= next = next s
no_fuel >>= next = no_fuel
fault >>= next = fault

abbrev pub or_fault {ℓ} : {S : Type ℓ} → Option S → Run S
or_fault (some s) = done s
or_fault none = fault

-- The run ends with a value, and the value has the property.
pub data Returns {ℓ κ} {S : Type ℓ} (Post : S → Type κ) : Run S → Type (ℓ ⊔ κ) where
  returns : {s : S} → Post s → Returns Post (done s)

-- One statement after another.
pub Returns-bind {ℓ κ μ ν} :
    {S : Type ℓ} {T : Type κ} {Mid : S → Type μ} {Post : T → Type ν} {first : Run S}
    {next : S → Run T}
    → Returns Mid first
    → ((s : S) → Mid s → Returns Post (next s))
    → Returns Post (first >>= next)
Returns-bind (returns {s} mid) rest = rest s mid

-- Two statements, and those behind them.
pub Returns-bind_two {ℓ κ τ μ ν} :
    {S : Type ℓ} {T : Type κ} {U : Type τ} {Mid : T → Type μ} {Post : U → Type ν} (first : Run S)
    (second : S → Run T) {next : T → Run U}
    → Returns Mid (first >>= second)
    → ((t : T) → Mid t → Returns Post (next t))
    → Returns Post (first >>= λ s. second s >>= next)
Returns-bind_two (done s) second both rest = Returns-bind both rest
Returns-bind_two fault second both rest = elim both [ ]
Returns-bind_two no_fuel second both rest = elim both [ ]

-- A weaker property.
pub Returns-mono {ℓ κ μ} :
    {S : Type ℓ} {Strong : S → Type κ} {Weak : S → Type μ} {run : Run S}
    → Returns Strong run
    → ((s : S) → Strong s → Weak s)
    → Returns Weak run
Returns-mono (returns {s} strong) weaken = returns (weaken s strong)

-- Either branch of a test.
pub Returns-if {ℓ κ} :
    {S : Type ℓ} {Post : S → Type κ} {yes_run no_run : Run S} (test : Bool)
    → (test ≡ true → Returns Post yes_run)
    → (test ≡ false → Returns Post no_run)
    → Returns Post (if test then yes_run else no_run)
Returns-if false on_true on_false = on_false refl
Returns-if true on_true on_false = on_true refl

-- `for (i = start; rounds are left; i++) s = body(i, s)`
unfoldable pub for_up {ℓ} : {S : Type ℓ} → ℕ → ℕ → (ℕ → S → Run S) → S → Run S
for_up zero i body s = done s
for_up (suc n) i body s = body i s >>= for_up n (i + 1) body

-- `for (i = rounds - 1; i >= 0; i--) s = body(i, s)`
unfoldable pub for_down {ℓ} : {S : Type ℓ} → ℕ → (ℕ → S → Run S) → S → Run S
for_down zero body s = done s
for_down (suc i) body s = body i s >>= for_down i body

module _ {ℓ κ} {S : Type ℓ} (P : ℕ → S → Type κ) (body : ℕ → S → Run S) where
  pub for_up-Returns :
      (n i j : ℕ) (s : S)
      → i + n ≡ j
      → ((k : ℕ) (t : S) → i ≤ k → k < j → P k t → Returns (P (k + 1)) (body k t))
      → P i s
      → Returns (P j) (for_up n i body s)
  unfolding for_up
  for_up-Returns zero i j s e keep h = let same : i ≡ j = omega arith in rw (← same) (returns h)
  for_up-Returns (suc n) i j s e keep h =
      Returns-bind (keep i s (omega arith) (omega arith) h) λ t h'.
        for_up-Returns n (i + 1) j t (omega arith) (λ k u lo hi. keep k u (omega arith) hi) h'

  pub for_down-Returns :
      (n : ℕ) (s : S)
      → ((k : ℕ) (t : S) → k < n → P (suc k) t → Returns (P k) (body k t))
      → P n s
      → Returns (P 0) (for_down n body s)
  unfolding for_down
  for_down-Returns zero s keep h = returns h
  for_down-Returns (suc n) s keep h =
      Returns-bind (keep n s (omega arith) h)
        λ t h'. for_down-Returns n t (λ k u hi. keep k u (omega arith)) h'
