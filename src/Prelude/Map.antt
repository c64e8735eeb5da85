-- ===== src/Prelude/Map.antt =====
-- `std::map` and `std::unordered_map` as association lists with one entry for each key.
use mathlib.Core.Path.{◌≡◌, refl, sym, ap, ◌∙◌, subst}
use mathlib.Core.Logic.{◌≢◌, ◌⊎◌, inl, inr}
use mathlib.Core.Option.{Option, none, some}
use mathlib.Core.List.{List, [], ◌∷◌, Memᴰ}
use native.Mathlib.Omega.{arith}
use http2_server.Prelude.Tests.{Eq, ◌==◌, eq_iff, if◌then◌else◌, Bool-cases}
use http2_server.Prelude.Lists.{All}

abbrev pub Map {ℓ κ} : Type ℓ → Type κ → Type (ℓ ⊔ κ)
Map K V = List (K × V)

module _ {ℓ κ} {K : Type ℓ} ⦃e : Eq K⦄ {V : Type κ} where
  -- `find`
  unfoldable pub lookup : K → Map K V → Option V
  lookup k [] = none
  lookup k ((j, v) ∷ m) = if j == k then some v else lookup k m

  -- `m[k] = v`
  unfoldable pub insert : K → V → Map K V → Map K V
  insert k v [] = (k, v) ∷ []
  insert k v ((j, w) ∷ m) = if j == k then (k, v) ∷ m else (j, w) ∷ insert k v m

  unfoldable pub erase : K → Map K V → Map K V
  erase k [] = []
  erase k ((j, v) ∷ m) = if j == k then m else (j, v) ∷ erase k m

  -- The key has no entry.
  abbrev pub Fresh : K → Map K V → Type ℓ
  Fresh k = All (λ p. p.0 ≢ k)

  -- No key has two entries.
  abbrev pub Distinct : Map K V → Type ℓ
  Distinct [] = Unit
  Distinct ((k, v) ∷ m) = Fresh k m × Distinct m

  pub lookup_of_Fresh : (k : K) (m : Map K V) → Fresh k m → lookup k m ≡ none
  unfolding lookup
  lookup_of_Fresh k [] h = refl
  lookup_of_Fresh k ((j, v) ∷ m) h = ground (arith, eq_iff j k, lookup_of_Fresh k m h.1)

  pub Fresh-of_lookup : (k : K) (m : Map K V) → lookup k m ≡ none → Fresh k m
  unfolding lookup
  Fresh-of_lookup k [] h = tt
  Fresh-of_lookup k ((j, v) ∷ m) h = elim (Bool-cases (j == k)) [
    | inl q ↦ ground arith
    | inr q ↦ ((λ p. ground (arith, eq_iff j k)), Fresh-of_lookup k m (ground arith))
  ]

  -- An assignment answers for its key and for no other.
  pub lookup-insert :
      (k j : K) (v : V) (m : Map K V)
      → lookup j (insert k v m) ≡ (if k == j then some v else lookup j m)
  unfolding insert lookup
  lookup-insert key other new [] = refl
  lookup-insert key other new ((i, old) ∷ rest) =
      ground
        (arith, lookup-insert key other new rest, eq_iff i other, eq_iff i key, eq_iff key other)

  pub Fresh-insert : (j k : K) (v : V) (m : Map K V) → Fresh j m → k ≢ j → Fresh j (insert k v m)
  unfolding insert
  Fresh-insert j k v [] h n = (n, tt)
  Fresh-insert j k v ((i, w) ∷ m) h n = ground (arith, Fresh-insert j k v m h.1 n)

  pub Fresh-erase : (j k : K) (m : Map K V) → Fresh j m → Fresh j (erase k m)
  unfolding erase
  Fresh-erase j k [] h = tt
  Fresh-erase j k ((i, w) ∷ m) h = ground (arith, Fresh-erase j k m h.1)

  pub insert-Distinct : (k : K) (v : V) (m : Map K V) → Distinct m → Distinct (insert k v m)
  unfolding insert
  insert-Distinct k v [] d = (tt, tt)
  insert-Distinct k v ((j, w) ∷ m) d = elim (Bool-cases (j == k)) [
    | inl q ↦ ground (arith, eq_iff j k)
    | inr q ↦ ground (
      arith,
      eq_iff j k,
      insert-Distinct k v m d.1,
      Fresh-insert j k v m d.0 (λ p. ground (arith, eq_iff j k)),
    )
  ]

  pub erase-Distinct : (k : K) (m : Map K V) → Distinct m → Distinct (erase k m)
  unfolding erase
  erase-Distinct k [] d = tt
  erase-Distinct k ((j, w) ∷ m) d = ground (arith, erase-Distinct k m d.1, Fresh-erase j k m d.0)

  pub lookup-erase :
      (k j : K) (m : Map K V)
      → Distinct m
      → lookup j (erase k m) ≡ (if k == j then none else lookup j m)
  unfolding lookup erase
  lookup-erase k j [] d = ground arith
  lookup-erase k j ((i, w) ∷ m) d =
      ground
        (arith, eq_iff k j, eq_iff i k, eq_iff i j, lookup-erase k j m d.1, lookup_of_Fresh i m d.0)

  pub ne_of_Fresh-mem : (j k : K) (v : V) (m : Map K V) → Fresh j m → Memᴰ (k, v) m → k ≢ j
  ne_of_Fresh-mem j k v [] h p = elim p [ ]
  ne_of_Fresh-mem j k v (q ∷ m) h (Memᴰ.head p) = λ r. h.0 (ap (λ (a : K × V). a.0) (sym p) ∙ r)
  ne_of_Fresh-mem j k v (q ∷ m) h (Memᴰ.tail p) = ne_of_Fresh-mem j k v m h.1 p

  -- An entry is found by its key.
  pub lookup_of_mem :
      (k : K) (v : V) (m : Map K V) → Distinct m → Memᴰ (k, v) m → lookup k m ≡ some v
  unfolding lookup
  lookup_of_mem k v [] d p = elim p [ ]
  lookup_of_mem k v ((j, w) ∷ m) d (Memᴰ.head p) = ground (arith, eq_iff j k)
  lookup_of_mem k v ((j, w) ∷ m) d (Memᴰ.tail p) = ground (
    arith,
    eq_iff j k,
    lookup_of_mem k v m d.1 p,
    (λ (q : j ≡ k). ne_of_Fresh-mem j k v m d.0 p (sym q)),
  )

  pub mem_of_lookup : (k : K) (v : V) (m : Map K V) → lookup k m ≡ some v → Memᴰ (k, v) m
  unfolding lookup
  mem_of_lookup k v [] h = cc
  mem_of_lookup k v ((j, w) ∷ m) h = elim (Bool-cases (j == k)) [
    | inl q ↦ Memᴰ.head (ground (arith, eq_iff j k))
    | inr q ↦ Memᴰ.tail (mem_of_lookup k v m (ground arith))
  ]

  mem-of_mem_erase : (k : K) {p : K × V} (m : Map K V) → Memᴰ p (erase k m) → Memᴰ p m
  unfolding erase
  mem-of_mem_erase k [] h = elim h [ ]
  mem-of_mem_erase k {p} ((j, w) ∷ m) h = elim (Bool-cases (j == k)) [
    | inl q ↦ Memᴰ.tail (subst (λ b. Memᴰ p (if b then m else (j, w) ∷ erase k m)) q h)
    | inr q ↦
        mem-of_mem_cons (subst (λ b. Memᴰ p (if b then m else (j, w) ∷ erase k m)) q h)
          (mem-of_mem_erase k m)
  ]
    where
      mem-of_mem_cons :
          {a b : K × V} {xs ys : Map K V}
          → Memᴰ a (b ∷ xs)
          → (Memᴰ a xs → Memᴰ a ys)
          → Memᴰ a (b ∷ ys)
      mem-of_mem_cons (Memᴰ.head r) f = Memᴰ.head r
      mem-of_mem_cons (Memᴰ.tail r) f = Memᴰ.tail (f r)

  pub lookup-insert_eq : {k j : K} (v : V) (m : Map K V) → k ≡ j → lookup j (insert k v m) ≡ some v
  lookup-insert_eq {k} {j} v m h = ground (arith, lookup-insert k j v m, eq_iff k j)

  pub lookup-insert_ne :
      {k j : K} (v : V) (m : Map K V) → k ≢ j → lookup j (insert k v m) ≡ lookup j m
  lookup-insert_ne {k} {j} v m h = ground (arith, lookup-insert k j v m, eq_iff k j)

  pub lookup-erase_eq : {k j : K} (m : Map K V) → Distinct m → k ≡ j → lookup j (erase k m) ≡ none
  lookup-erase_eq {k} {j} m d h = ground (arith, lookup-erase k j m d, eq_iff k j)

  pub lookup-erase_ne :
      {k j : K} (m : Map K V) → Distinct m → k ≢ j → lookup j (erase k m) ≡ lookup j m
  lookup-erase_ne {k} {j} m d h = ground (arith, lookup-erase k j m d, eq_iff k j)

  -- What is found after an assignment was assigned, or was there under another key.
  pub lookup-insert_cases :
      (k j : K) (v : V) (m : Map K V) {x : V}
      → lookup j (insert k v m) ≡ some x
      → ((k ≡ j) × (v ≡ x)) ⊎ ((k ≢ j) × (lookup j m ≡ some x))
  lookup-insert_cases k j v m h = elim (Bool-cases (k == j)) [
    | inl q ↦ inl (ground (arith, eq_iff k j), ground (arith, lookup-insert k j v m))
    | inr q ↦ inr ((λ e. ground (arith, eq_iff k j)), ground (arith, lookup-insert k j v m))
  ]

  pub lookup-erase_cases :
      (k j : K) (m : Map K V) {x : V}
      → Distinct m
      → lookup j (erase k m) ≡ some x
      → (k ≢ j) × (lookup j m ≡ some x)
  lookup-erase_cases k j m d h = elim (Bool-cases (k == j)) [
    | inl q ↦ absurd (ground (arith, lookup-erase k j m d))
    | inr q ↦ ((λ e. ground (arith, eq_iff k j)), ground (arith, lookup-erase k j m d))
  ]
