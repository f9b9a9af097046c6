-- ===== src/Base/Dict.antt =====
-- `std::unordered_map`: an association list. Its order stands for the order of iteration, which the
-- standard leaves open.
use working_for_codex.Base.Tests.{if◌then◌else◌, HasEquality, ◌==◌}
use mathlib.Core.Path.{◌≡◌, refl}
use mathlib.Core.Bool.{Bool}
use mathlib.Core.Option
use mathlib.Core.Option.{Option, none, some}
use mathlib.Core.List.{List, [], ◌∷◌}
use native.Mathlib.Omega.{arith}

abbrev pub Dict {ℓ κ} : Type ℓ → Type κ → Type (ℓ ⊔ κ)
Dict K V = List (K × V)

abbrev pub kept {ℓ} : {V : Type ℓ} → (V → Bool) → Option V → Option V
kept keep none = none
kept keep (some v) = if keep v then some v else none

module _ {ℓ κ} {K : Type ℓ} {V : Type κ} ⦃e : HasEquality K⦄ where
  unfoldable pub find : K → Dict K V → Option V
  find k [] = none
  find k ((j, v) ∷ m) = if j == k then some v else find k m

  unfoldable pub erase : K → Dict K V → Dict K V
  erase k [] = []
  erase k ((j, v) ∷ m) = let rest = erase k m in if j == k then rest else (j, v) ∷ rest

  unfoldable pub put : K → V → Dict K V → Dict K V
  put k v [] = (k, v) ∷ []
  put k v ((j, w) ∷ m) = if j == k then (k, v) ∷ m else (j, w) ∷ put k v m

  pub find-erase :
      (k j : K) (m : Dict K V) → find j (erase k m) ≡ (if k == j then none else find j m)
  unfolding find erase
  find-erase k j [] = ground arith
  find-erase k j ((i, w) ∷ m) =
      ground (arith, e.equal_iff k j, e.equal_iff i k, e.equal_iff i j, find-erase k j m)

  pub find-put :
      (k j : K) (v : V) (m : Dict K V) → find j (put k v m) ≡ (if k == j then some v else find j m)
  unfolding find put
  find-put k j v [] = refl
  find-put k j v ((i, w) ∷ m) =
      ground (arith, e.equal_iff k j, e.equal_iff i k, e.equal_iff i j, find-put k j v m)

  -- No key stands twice.
  abbrev pub Unique : Dict K V → Type (ℓ ⊔ κ)
  Unique [] = Unit
  Unique ((k, v) ∷ m) = (find k m ≡ none) × Unique m

  pub erase-Unique : (k : K) (m : Dict K V) → Unique m → Unique (erase k m)
  unfolding erase
  erase-Unique k [] u = tt
  erase-Unique k ((j, v) ∷ m) u = ground (arith, find-erase k j m, erase-Unique k m u.1)

  pub put-Unique : (k : K) (v : V) (m : Dict K V) → Unique m → Unique (put k v m)
  unfolding put find
  put-Unique k v [] u = (refl, tt)
  put-Unique k v ((j, w) ∷ m) u =
      ground (arith, find-put k j v m, put-Unique k v m u.1, e.equal_iff k j, e.equal_iff j k)

  -- `for (auto it = m.begin(); …)` with `it = m.erase(it)` where the test fails.
  unfoldable pub retain : (V → Bool) → Dict K V → Dict K V
  retain keep [] = []
  retain keep ((k, v) ∷ m) = let rest = retain keep m in if keep v then (k, v) ∷ rest else rest

  pub find-retain :
      (keep : V → Bool) (k : K) (m : Dict K V)
      → Unique m
      → find k (retain keep m) ≡ kept keep (find k m)
  unfolding find retain
  find-retain keep k [] u = refl
  find-retain keep k ((j, v) ∷ m) u = ground (arith, find-retain keep k m u.1, e.equal_iff j k)

  -- A write through the iterator that `m.find(k)` returns.
  unfoldable pub modify : K → (V → V) → Dict K V → Dict K V
  modify k f [] = []
  modify k f ((j, v) ∷ m) = if j == k then (j, f v) ∷ m else (j, v) ∷ modify k f m

  pub find-modify :
      (k j : K) (f : V → V) (m : Dict K V)
      → find j (modify k f m) ≡ (if k == j then Option.map f (find j m) else find j m)
  unfolding find modify
  find-modify k j f [] = ground arith
  find-modify k j f ((i, w) ∷ m) =
      ground (arith, e.equal_iff k j, e.equal_iff i k, e.equal_iff i j, find-modify k j f m)
