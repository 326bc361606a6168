-- ===== src/Prelude/Labels.antt =====
-- Go's `map[string]V` as an association list. A key occurs once, since writes replace.
use Prim.Native.String.{String}
use mathlib.Core.Path.{◌≡◌, refl, ◌∙◌}
use mathlib.Core.Bool.{Bool, ◌&&◌, true}
use mathlib.Core.Option.{Option, none, some}
use mathlib.Core.List.{List, [], ◌∷◌}
use native.Mathlib.Omega.{arith}
use text.Mathlib.TextEquality.{eq_iff}
use text.Mathlib.TextPositions.{eq_refl}
use mathlib.Core.Logic.{◌↔◌, inl, inr}
use gateway_operator.Prelude.Tests.{
  ◌==◌, Eq, string_eq, option_eq, nat_eq, if◌then◌else◌, Bool-cases, nat_beq_iff, option_beq_iff,
  Option-cases,
}
use gateway_operator.Prelude.Lists.{length, all_of, All}
use Prim.Native.Nat.{suc, ◌≤◌}

module _ {ℓ} {V : Type ℓ} where
  -- m[key]
  unfoldable pub lookup : String → List (String × V) → Option V
  lookup key [] = none
  lookup key (entry ∷ rest) = if entry.0 == key then some entry.1 else lookup key rest

  -- m[key] = value
  unfoldable pub insert : String → V → List (String × V) → List (String × V)
  insert key value [] = (key, value) ∷ []
  insert key value (entry ∷ rest) =
      let written = insert key value rest in
      if entry.0 == key then (key, value) ∷ rest else entry ∷ written

  -- for k, v := range new { m[k] = v }
  unfoldable pub insert_all : List (String × V) → List (String × V) → List (String × V)
  insert_all [] m = m
  insert_all ((k, v) ∷ new) m = insert_all new (insert k v m)

  -- A write is seen at its own key and nowhere else.
  pub lookup-insert :
      (key other : String) (value : V) (entries : List (String × V))
      → lookup other (insert key value entries)
        ≡ (if key == other then some value else lookup other entries)
  unfolding lookup insert
  lookup-insert key other value [] = refl
  lookup-insert key other value (entry ∷ rest) = ground (
    arith,
    lookup-insert key other value rest,
    eq_iff key other,
    eq_iff entry.0 key,
    eq_iff entry.0 other,
  )

module _ {ℓ} {V : Type ℓ} ⦃e : Eq V⦄ where
  -- every entry of `a` is in `b`
  unfoldable pub contained : List (String × V) → List (String × V) → Bool
  contained a b = all_of (λ p. option_eq.beq (lookup p.0 b) (some p.1)) a

  -- reflect.DeepEqual of two maps: as many entries, and the same value at each key
  unfoldable pub same_entries : List (String × V) → List (String × V) → Bool
  same_entries a b = length a == length b && contained a b

module _ {ℓ} {V : Type ℓ} where
  -- A key occurs once, as in a map.
  abbrev pub IsMap : List (String × V) → Type ℓ
  IsMap [] = Unit
  IsMap ((k, v) ∷ m) = (lookup k m ≡ none) × IsMap m

  -- Every entry of `new` is in `m`.
  abbrev pub Within : List (String × V) → List (String × V) → Type ℓ
  Within new m = All (λ p. lookup p.0 m ≡ some p.1) new

  pub insert-IsMap : (k : String) (v : V) (m : List (String × V)) → IsMap m → IsMap (insert k v m)
  unfolding insert lookup
  insert-IsMap k v [] h = (refl, tt)
  insert-IsMap k v ((j, w) ∷ m) h = elim (Bool-cases (j == k)) [
    | inl same ↦ rw (same) (rw (← (eq_iff j k).0 same) h)
    | inr other ↦
        rw (other)
          (ground (arith, eq_iff k j, eq_iff j k, lookup-insert k j v m), insert-IsMap k v m h.1)
  ]

  pub insert_all-IsMap : (new m : List (String × V)) → IsMap m → IsMap (insert_all new m)
  unfolding insert_all
  insert_all-IsMap [] m h = h
  insert_all-IsMap ((k, v) ∷ new) m h = insert_all-IsMap new (insert k v m) (insert-IsMap k v m h)

  -- a write of what is there already changes nothing
  insert_present :
      (k : String) (v : V) (m : List (String × V)) → lookup k m ≡ some v → insert k v m ≡ m
  unfolding insert lookup
  insert_present k v [] h = cc
  insert_present k v ((j, w) ∷ m) h = ground (arith, eq_iff j k, insert_present k v m)

  pub insert_all-Within : (new m : List (String × V)) → Within new m → insert_all new m ≡ m
  unfolding insert_all
  insert_all-Within [] m h = refl
  insert_all-Within ((k, v) ∷ new) m h = rw (insert_present k v m h.0) (insert_all-Within new m h.1)

  lookup-insert_all-none :
      (k : String) (new m : List (String × V))
      → lookup k new ≡ none
      → lookup k (insert_all new m) ≡ lookup k m
  unfolding insert_all lookup
  lookup-insert_all-none k [] m h = refl
  lookup-insert_all-none k ((j, v) ∷ new) m h =
      ground (arith, eq_iff j k, lookup-insert j k v m, lookup-insert_all-none k new (insert j v m))

  -- the entries of `new` survive each other's writes, since no key occurs twice
  pub Within-insert_all : (new m : List (String × V)) → IsMap new → Within new (insert_all new m)
  unfolding insert_all
  Within-insert_all [] m h = tt
  Within-insert_all ((k, v) ∷ new) m h = (
    ground (arith, lookup-insert_all-none k new (insert k v m), lookup-insert k k v m, eq_iff k k),
    Within-insert_all new (insert k v m) h.1,
  )

  Within-cons :
      (k : String) (v : V) (new m : List (String × V))
      → lookup k new ≡ none
      → Within new m
      → Within new ((k, v) ∷ m)
  unfolding lookup
  Within-cons k v [] m h w = tt
  Within-cons k v ((j, u) ∷ new) m h w = (
    ground (arith, eq_iff k j, eq_iff j k),
    Within-cons k v new m (ground (arith, eq_iff j k)) w.1,
  )

  pub Within-self : (m : List (String × V)) → IsMap m → Within m m
  unfolding lookup
  Within-self [] h = tt
  Within-self ((k, v) ∷ m) h = (rw (eq_refl k), Within-cons k v m m h.0 (Within-self m h.1))

module _ {ℓ} {V : Type ℓ} ⦃e : Eq V⦄ where
  pub contained_iff : (a b : List (String × V)) → (contained a b ≡ true) ↔ Within a b
  unfolding contained
  contained_iff [] b = ground arith
  contained_iff ((k, v) ∷ a) b =
      ground (arith, option_beq_iff (lookup k b) (some v), contained_iff a b)

  pub same_entries_refl : (m : List (String × V)) → IsMap m → same_entries m m ≡ true
  unfolding same_entries
  same_entries_refl m h =
      ground (arith, nat_beq_iff (length m) (length m), (contained_iff m m).1 (Within-self m h))

  pub same_entries-Within : (a b : List (String × V)) → same_entries a b ≡ true → Within a b
  unfolding same_entries
  same_entries-Within a b h = (contained_iff a b).0 (ground arith)

module _ {ℓ} {V : Type ℓ} where
  length-insert :
      (k : String) (v : V) (m : List (String × V))
      → length (insert k v m) ≡ elim (lookup k m) [ none ↦ suc (length m) | some w ↦ length m ]
  unfolding insert lookup
  length-insert k v [] = refl
  length-insert k v ((j, w) ∷ m) = ground (arith, length-insert k v m)

  length-insert_all-le : (new m : List (String × V)) → length m ≤ length (insert_all new m)
  unfolding insert_all
  length-insert_all-le [] m = omega arith
  length-insert_all-le ((k, v) ∷ new) m =
      ground (arith, length-insert k v m, length-insert_all-le new (insert k v m))

  -- Every key of `new` is a key of `m`.
  abbrev KeysIn : List (String × V) → List (String × V) → Type ℓ
  KeysIn new m = All (λ p. (v : V) × (lookup p.0 m ≡ some v)) new

  found-insert :
      (k j : String) (v u : V) (m : List (String × V))
      → ((w : V) × (lookup k m ≡ some w))
      → lookup j (insert k v m) ≡ some u
      → (w : V) × (lookup j m ≡ some w)
  found-insert k j v u m (w, f) h = elim (Bool-cases (k == j)) [
    | inl same ↦ (w, rw (← (eq_iff k j).0 same) f)
    | inr other ↦ (u, ground (arith, lookup-insert k j v m))
  ]

  KeysIn-insert :
      (k : String) (v : V) (new m : List (String × V))
      → ((w : V) × (lookup k m ≡ some w))
      → KeysIn new (insert k v m)
      → KeysIn new m
  KeysIn-insert k v [] m f h = tt
  KeysIn-insert k v ((j, _) ∷ new) m f h =
      (found-insert k j v h.0.0 m f h.0.1, KeysIn-insert k v new m f h.1)

  found_of_length :
      (k : String) (v : V) (m : List (String × V))
      → length (insert k v m) ≡ length m
      → (w : V) × (lookup k m ≡ some w)
  found_of_length k v m e = elim (Option-cases (lookup k m)) [
    | inl nowhere ↦ absurd (ground (arith, length-insert k v m))
    | inr found ↦ found
  ]

  KeysIn-of_length :
      (new m : List (String × V)) → length m ≡ length (insert_all new m) → KeysIn new m
  unfolding insert_all
  KeysIn-of_length [] m e = tt
  KeysIn-of_length ((k, v) ∷ new) m e =
      let grown = length-insert_all-le new (insert k v m) in
      let same : length (insert k v m) ≡ length m = ground (arith, grown, length-insert k v m) in
      let found = found_of_length k v m same in
      (found, KeysIn-insert k v new m found (KeysIn-of_length new (insert k v m) (same ∙ e)))

  Within-lookup :
      (k : String) (v : V) (m n : List (String × V))
      → Within m n
      → lookup k m ≡ some v
      → lookup k n ≡ some v
  unfolding lookup
  Within-lookup k v [] n h e = cc
  Within-lookup k v ((j, w) ∷ m) n h e = elim (Bool-cases (j == k)) [
    | inl same ↦ rw (← (eq_iff j k).0 same) (h.0 ∙ ground arith)
    | inr other ↦ Within-lookup k v m n h.1 (ground arith)
  ]

  Within-of_keys :
      (new m n : List (String × V)) → KeysIn new m → Within new n → Within m n → Within new m
  Within-of_keys [] m n k w h = tt
  Within-of_keys ((j, v) ∷ new) m n k w h =
      let here = Within-lookup j k.0.0 m n h k.0.1 in
      (ground (arith, here, k.0.1, w.0), Within-of_keys new m n k.1 w.1 h)

  -- If the writes add no key and keep every entry, each of them was there already.
  pub Within-of_same :
      (new m : List (String × V))
      → IsMap new
      → length m ≡ length (insert_all new m)
      → Within m (insert_all new m)
      → Within new m
  Within-of_same new m n e w =
      Within-of_keys new m (insert_all new m) (KeysIn-of_length new m e) (Within-insert_all new m n)
        w
