-- ===== src/Common/Dict.antt =====
-- `HashMap<String, V>` as an association list. The order of the entries is that of the first
-- insertion; where the source depends on the iteration order, the model takes it as a parameter.
pub mod Keys
use Prim.Native.Nat.{suc}
use mathlib.Core.Path.{◌≡◌, refl}
use mathlib.Core.Logic.{ite, ◌≢◌}
use mathlib.Core.List.{List, [], ◌∷◌, map}
use mathlib.Core.Option.{Option, none, some}
use native.Mathlib.Omega.{arith}
unfoldable use native.Mathlib.Decide.{ℕ_discrete}
use vela_network.Common.Words.{Text}
use vela_network.Common.Lists.{length, All}

unfoldable pub text_discrete : Discrete Text
text_discrete = hlevel ℕ_discrete

abbrev pub Dict {ℓ} : Type ℓ → Type ℓ
Dict V = List (Text × V)

module _ {ℓ} {V : Type ℓ} where
  -- `m.get(k)`
  unfoldable pub lookup : Text → Dict V → Option V
  lookup k [] = none
  lookup k ((j, v) ∷ m) = ite (text_discrete k j) (some v) (lookup k m)

  -- `m.insert(k, v)`
  unfoldable pub insert : Text → V → Dict V → Dict V
  insert k v [] = (k, v) ∷ []
  insert k v ((j, w) ∷ m) = ite (text_discrete k j) ((k, v) ∷ m) ((j, w) ∷ insert k v m)

  -- `m.remove(k)`
  unfoldable pub remove : Text → Dict V → Dict V
  remove k [] = []
  remove k ((j, w) ∷ m) = ite (text_discrete k j) m ((j, w) ∷ remove k m)

  -- `m.values()`
  abbrev pub values : Dict V → List V
  values = map (λ e. e.1)

  abbrev pub or_default : V → Option V → V
  or_default d none = d
  or_default d (some v) = v

  -- `f` applied in place to `m.entry(k).or_insert(d)`
  unfoldable pub upsert : Text → V → (V → V) → Dict V → Dict V
  upsert k d f m = insert k (f (or_default d (lookup k m))) m

  -- `m.entry(k).and_modify(f)`
  unfoldable pub and_modify : Text → (V → V) → Dict V → Dict V
  and_modify k f m = elim (lookup k m) [ none ↦ m | some v ↦ insert k (f v) m ]

  pub lookup-insert :
      (j k : Text) (v : V) (m : Dict V)
      → lookup j (insert k v m) ≡ ite (text_discrete j k) (some v) (lookup j m)
  unfolding lookup insert
  lookup-insert j k v [] = refl
  lookup-insert j k v ((i, w) ∷ m) = ground (arith, lookup-insert j k v m)

  pub lookup-insert_self : (k : Text) (v : V) (m : Dict V) → lookup k (insert k v m) ≡ some v
  lookup-insert_self k v m = ground (arith, lookup-insert k k v m)

  lookup-insert_ne :
      (j k : Text) (v : V) (m : Dict V) → j ≢ k → lookup j (insert k v m) ≡ lookup j m
  lookup-insert_ne j k v m h = ground (arith, lookup-insert j k v m)

  lookup-remove_ne : (j k : Text) (m : Dict V) → j ≢ k → lookup j (remove k m) ≡ lookup j m
  unfolding lookup remove
  lookup-remove_ne j k [] h = refl
  lookup-remove_ne j k ((i, w) ∷ m) h = ground (arith, lookup-remove_ne j k m h)

  -- No key stands twice.
  abbrev pub IsDict : Dict V → Type ℓ
  IsDict [] = Unit
  IsDict ((k, v) ∷ m) = (lookup k m ≡ none) × IsDict m

  pub insert-IsDict : (k : Text) (v : V) (m : Dict V) → IsDict m → IsDict (insert k v m)
  unfolding insert lookup
  insert-IsDict k v [] h = (refl, tt)
  insert-IsDict k v ((i, w) ∷ m) h = ground (arith, insert-IsDict k v m h.1, lookup-insert i k v m)

  pub remove-IsDict : (k : Text) (m : Dict V) → IsDict m → IsDict (remove k m)
  unfolding remove lookup
  remove-IsDict k [] h = tt
  remove-IsDict k ((i, w) ∷ m) h = ground (arith, remove-IsDict k m h.1, lookup-remove_ne i k m)

  lookup-remove_self : (k : Text) (m : Dict V) → IsDict m → lookup k (remove k m) ≡ none
  unfolding remove lookup
  lookup-remove_self k [] h = refl
  lookup-remove_self k ((i, w) ∷ m) h = ground (arith, lookup-remove_self k m h.1)

  pub lookup-remove :
      (j k : Text) (m : Dict V)
      → IsDict m
      → lookup j (remove k m) ≡ ite (text_discrete j k) none (lookup j m)
  lookup-remove j k m h = ground (arith, lookup-remove_self k m h, lookup-remove_ne j k m)

  pub length-insert :
      (k : Text) (v : V) (m : Dict V)
      → length (insert k v m) ≡ elim (lookup k m) [ none ↦ suc (length m) | some _ ↦ length m ]
  unfolding insert lookup
  length-insert k v [] = refl
  length-insert k v ((i, w) ∷ m) = ground (arith, length-insert k v m)

  -- A predicate on entries is kept by an insertion that satisfies it.
  pub insert-All {κ} :
      (P : Text × V → Type κ) (k : Text) (v : V) (m : Dict V)
      → P (k, v)
      → All P m
      → All P (insert k v m)
  unfolding insert
  insert-All P k v [] p h = (p, tt)
  insert-All P k v ((i, w) ∷ m) p h = ground (arith, insert-All P k v m p h.1)

  pub All-lookup {κ} :
      (P : Text × V → Type κ) (k : Text) (v : V) (m : Dict V)
      → All P m
      → lookup k m ≡ some v
      → P (k, v)
  unfolding lookup
  All-lookup P k v [] h e = cc
  All-lookup P k v ((i, w) ∷ m) h e = ground (arith, All-lookup P k v m h.1)
