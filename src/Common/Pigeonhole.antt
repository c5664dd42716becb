-- ===== src/Common/Pigeonhole.antt =====
-- Lists of texts without repetition: how many fit into another list, and what two of them share.
use mathlib.Core.List.{Mem, Nodup, Nodup-cons, mem-cons_self, mem-cons_of_mem}
use Prim.Native.Nat.{suc, ◌+◌, ◌≤◌, ◌<◌}
use mathlib.Core.Path.{◌≡◌, refl, sym, ◌∙◌}
use mathlib.Core.Logic.{ite, ◌≢◌, inl, inr}
use mathlib.Core.Bool.{Bool, true, false}
use mathlib.Core.List.{List, [], ◌∷◌, map}
use native.Mathlib.Omega.{arith}
use vela_network.Common.Words.{Text}
use vela_network.Common.Lists.{length}
use vela_network.Common.Tests.{Bool-cases, if◌then◌else◌}
use vela_network.Common.Dict.{text_discrete}

unfoldable pub is_in : Text → List Text → Bool
is_in k [] = false
is_in k (j ∷ js) = ite (text_discrete k j) true (is_in k js)

-- No text stands twice.
abbrev pub Apart : List Text → Type 0
Apart [] = Unit {0}
Apart (k ∷ ks) = (is_in k ks ≡ false) × Apart ks

abbrev pub Within : List Text → List Text → Type 0
Within a v = (k : Text) → is_in k a ≡ true → is_in k v ≡ true

-- The list without the first occurrence of a text.
drop_one : Text → List Text → List Text
drop_one k [] = []
drop_one k (j ∷ js) = ite (text_discrete k j) js (j ∷ drop_one k js)

length-drop_one :
    (k : Text) (v : List Text) → is_in k v ≡ true → suc (length (drop_one k v)) ≡ length v
unfolding is_in drop_one
length-drop_one k [] h = cc
length-drop_one k (j ∷ js) h = ground (arith, length-drop_one k js)

is_in-drop_one : (j k : Text) (v : List Text) → j ≢ k → is_in j (drop_one k v) ≡ is_in j v
unfolding is_in drop_one
is_in-drop_one j k [] h = refl
is_in-drop_one j k (i ∷ v) h = ground (arith, is_in-drop_one j k v h)

is_in-ne : (j k : Text) (a : List Text) → is_in k a ≡ false → is_in j a ≡ true → j ≢ k
is_in-ne j k a left found e = cc

Within-drop_one :
    (k : Text) (a v : List Text) → is_in k a ≡ false → Within a v → Within a (drop_one k v)
Within-drop_one k a v left h j found = is_in-drop_one j k v (is_in-ne j k a left found) ∙ h j found

Within-tail : (k : Text) (a v : List Text) → Within (k ∷ a) v → Within a v
unfolding is_in
Within-tail k a v h j found = h j (ground arith)

Within-head : (k : Text) (a v : List Text) → Within (k ∷ a) v → is_in k v ≡ true
unfolding is_in
Within-head k a v h = h k (ground arith)

pigeonhole : (a v : List Text) → Apart a → Within a v → length a ≤ length v
pigeonhole [] v p h = omega arith
pigeonhole (k ∷ a) v p h =
    let rest = pigeonhole a (drop_one k v) p.1 (Within-drop_one k a v p.0 (Within-tail k a v h)) in
    omega (arith, rest, length-drop_one k v (Within-head k a v h))

pub common : List Text → List Text → List Text
common [] b = []
common (k ∷ a) b = if is_in k b then k ∷ common a b else common a b

-- Two lists without repetition within a third share at least what they are longer than it.
pub length-common :
    (a b v : List Text)
    → Apart a
    → Apart b
    → Within a v
    → Within b v
    → length a + length b ≤ length v + length (common a b)
unfolding common
length-common [] b v p q h k = omega (arith, pigeonhole b v q k)
length-common (i ∷ a) b v p q h k = elim (Bool-cases (is_in i b)) [
  | inl e ↦ rw e (omega (arith, length-common a b v p.1 q (Within-tail i a v h) k))
  | inr e ↦
      let rest =
        length-common a b (drop_one i v) p.1 q (Within-drop_one i a v p.0 (Within-tail i a v h))
          (Within-drop_one i b v e k) in
      rw e (omega (arith, rest, length-drop_one i v (Within-head i a v h)))
]

pub is_in-common :
    (k : Text) (a b : List Text)
    → is_in k (common a b) ≡ true
    → (is_in k a ≡ true) × (is_in k b ≡ true)
unfolding common is_in
is_in-common k [] b h = cc
is_in-common k (i ∷ a) b h = ground (arith, is_in-common k a b)

pub common-Apart : (a b : List Text) → Apart a → Apart (common a b)
unfolding common
common-Apart [] b p = tt
common-Apart (k ∷ a) b p = elim (Bool-cases (is_in k b)) [
  | inl e ↦ rw e (
    elim (Bool-cases (is_in k (common a b))) [
      | inl twice ↦ absurd (cc (p.0, (is_in-common k a b twice).0))
      | inr once ↦ once
    ],
    common-Apart a b p.1,
  )
  | inr e ↦ rw e (common-Apart a b p.1)
]

-- A list without repetition that is longer than another has an entry that is not in it.
pub is_in-outside :
    (a v : List Text)
    → Apart a
    → length v < length a
    → (k : Text) × (is_in k a ≡ true) × (is_in k v ≡ false)
unfolding is_in
is_in-outside [] v p h = absurd (omega arith)
is_in-outside (k ∷ a) v p h = elim (Bool-cases (is_in k v)) [
  | inr e ↦ (k, ground arith, e)
  | inl e ↦
      let (j, found, apart) =
        is_in-outside a (drop_one k v) p.1 (omega (arith, length-drop_one k v e)) in
      (j, ground arith, sym (is_in-drop_one j k v (is_in-ne j k a p.0 found)) ∙ apart)
]

mem_of_is_in : (k : Text) (a : List Text) → is_in k a ≡ true → Mem k a
unfolding is_in
mem_of_is_in k [] h = cc
mem_of_is_in k (j ∷ a) h = elim (text_discrete k j) [
  | yes e ↦ rw e mem-cons_self
  | no d ↦ mem-cons_of_mem j (mem_of_is_in k a (ground arith))
]

pub Nodup-Apart : (a : List Text) → Nodup a → Apart a
Nodup-Apart [] h = tt
Nodup-Apart (k ∷ a) h =
    let (apart, rest) = Nodup-cons.0 h in
    (
      elim (Bool-cases (is_in k a)) [ inl e ↦ absurd (apart (mem_of_is_in k a e)) | inr e ↦ e ],
      Nodup-Apart a rest,
    )

-- What is among the keys of values is the key of one.
pub is_in-map {ℓ} :
    {V : Type ℓ} (key : V → Text) (k : Text) (vs : List V)
    → is_in k (map key vs) ≡ true
    → (v : V) × Mem v vs × (key v ≡ k)
unfolding is_in
is_in-map key k [] h = cc
is_in-map key k (v ∷ vs) h = elim (text_discrete k (key v)) [
  | yes e ↦ (v, mem-cons_self, sym e)
  | no d ↦ let (w, found, e) = is_in-map key k vs (ground arith) in (w, mem-cons_of_mem v found, e)
]
