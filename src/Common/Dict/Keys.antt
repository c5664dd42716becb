-- ===== src/Common/Dict/Keys.antt =====
-- The keys of an association list that is a map are distinct; lists that differ in order only have
-- one length.
use mathlib.Core.HLevel.{⊥_prop}
use mathlib.Core.List.{
  Mem, Nodup, Nodup-cons, Nodup-nil, Perm, Permᴰ, not-mem-nil, eq-or-mem_of_mem-cons, mem-cons_self,
  mem-cons_of_mem,
}
use mathlib.Core.Logic.Or
use mathlib.Core.Option
use mathlib.Core.Logic.{∥∥₁_elim}
use native.Mathlib.Nat.{ℕ_set}
use vela_network.Common.Lists.{length, All}
use vela_network.Common.Words.{Text}
use vela_network.Common.Dict.{Dict, IsDict, lookup, values, text_discrete}
use mathlib.Core.Path.{◌≡◌, refl, ap, ◌∙◌}
use mathlib.Core.List.{List, [], ◌∷◌, map}
use mathlib.Core.Option.{Option, none, some, some-injective}
use native.Mathlib.Omega.{arith}
use Prim.Native.Nat.{suc}

module _ {ℓ} {A : Type ℓ} where
  length-permᴰ : {xs ys : List A} → Permᴰ xs ys → length xs ≡ length ys
  length-permᴰ Permᴰ.nil = refl
  length-permᴰ (Permᴰ.cons e p) = ap suc (length-permᴰ p)
  length-permᴰ (Permᴰ.swap e d) = refl
  length-permᴰ (Permᴰ.trans p q) = length-permᴰ p ∙ length-permᴰ q

  pub length-perm : {xs ys : List A} → Perm xs ys → length xs ≡ length ys
  length-perm p = ∥∥₁_elim p (ℕ_set _ _) length-permᴰ

module _ {ℓ} {V : Type ℓ} where
  abbrev pub keys : Dict V → List Text
  keys = map (λ e. e.0)

  not-mem_of_none : (k : Text) (m : Dict V) → lookup k m ≡ none → ¬ Mem k (keys m)
  unfolding lookup
  not-mem_of_none k [] e = not-mem-nil
  not-mem_of_none k ((j, v) ∷ m) e = λ found.
      Or.elim ⊥_prop (eq-or-mem_of_mem-cons found) (λ here. ground arith)
        (not-mem_of_none k m (ground arith))

  pub keys-Nodup : (m : Dict V) → IsDict m → Nodup (keys m)
  keys-Nodup [] h = Nodup-nil
  keys-Nodup ((k, v) ∷ m) h = Nodup-cons.1 (not-mem_of_none k m h.0, keys-Nodup m h.1)

  -- Entries that are filed under a key of their values.
  abbrev pub Filed : (V → Text) → Dict V → Type 0
  Filed key m = All (λ (e : Text × V). e.0 ≡ key e.1) m

  pub map-values : (key : V → Text) (m : Dict V) → Filed key m → map key (values m) ≡ keys m
  map-values key [] h = refl
  map-values key ((k, v) ∷ m) h = ground (arith, map-values key m h.1)

  pub mem_of_lookup : (k : Text) (v : V) (m : Dict V) → lookup k m ≡ some v → Mem v (values m)
  unfolding lookup
  mem_of_lookup k v [] e = cc
  mem_of_lookup k v ((j, w) ∷ m) e = elim (text_discrete k j) [
    | yes p ↦ rw (some-injective w v (ground arith)) mem-cons_self
    | no p ↦ mem-cons_of_mem w (mem_of_lookup k v m (ground arith))
  ]

  pub lookup_of_mem :
      (key : V → Text) (m : Dict V)
      → IsSet V
      → IsDict m
      → Filed key m
      → (v : V) → Mem v (values m)
      → lookup (key v) m ≡ some v
  unfolding lookup
  lookup_of_mem key [] set d h v found = absurd (not-mem-nil found)
  lookup_of_mem key ((k, w) ∷ m) set d h v found =
      Or.elim (Option.is_set set _ _) (eq-or-mem_of_mem-cons found) (λ here. ground arith)
        (λ there. ground (arith, lookup_of_mem key m set d.1 h.1 v there))
