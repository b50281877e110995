-- ===== src/Base/Dict.antt =====
-- A `HashMap<String, V>` as an association list. `insert` replaces the entry of an equal key.
use Prim.Native.Nat.{ℕ, suc, ◌+◌, ◌≤◌}
use Prim.Native.String.{String}
use mathlib.Core.Path.{◌≡◌, refl}
use mathlib.Core.Bool.{true}
use mathlib.Core.Option.{Option, none, some}
use mathlib.Core.List.{List, [], ◌∷◌}
use native.Mathlib.Omega.{arith}
use text.Mathlib.Text.{◌==◌ as str_eq}
use text.Mathlib.TextEquality.{eq_iff}
use unitree_webrtc_rs.Base.Checks.{if◌then◌else◌}
use unitree_webrtc_rs.Base.Lists.{length}

pub str_eq_refl : (s : String) → str_eq s s ≡ true
str_eq_refl s = (eq_iff s s).1 refl

abbrev pub Dict : Type 0 → Type 0
Dict V = List (String × V)

module _ {V : Type 0} where
  unfoldable pub lookup : String → Dict V → Option V
  lookup k [] = none
  lookup k ((j, v) ∷ m) = if str_eq j k then some v else lookup k m

  unfoldable pub insert : String → V → Dict V → Dict V
  insert k v [] = (k, v) ∷ []
  insert k v ((j, w) ∷ m) = if str_eq j k then (k, v) ∷ m else (j, w) ∷ insert k v m

  unfoldable pub remove : String → Dict V → Dict V
  remove k [] = []
  remove k ((j, v) ∷ m) = let rest = remove k m in if str_eq j k then rest else (j, v) ∷ rest

  pub lookup-insert :
      (k j : String) (v : V) (m : Dict V)
      → lookup j (insert k v m) ≡ (if str_eq k j then some v else lookup j m)
  unfolding lookup insert
  lookup-insert key other new [] = refl
  lookup-insert key other new ((here, old) ∷ rest) =
      let later = lookup-insert key other new rest in
      ground (arith, later, eq_iff here key, eq_iff here other, eq_iff key other)

  pub lookup-insert_self : (k : String) (v : V) (m : Dict V) → lookup k (insert k v m) ≡ some v
  lookup-insert_self k v m = rw (lookup-insert, str_eq_refl)

  pub lookup-remove :
      (k j : String) (m : Dict V)
      → lookup j (remove k m) ≡ (if str_eq k j then none else lookup j m)
  unfolding lookup remove
  lookup-remove k j [] = ground arith
  lookup-remove k j ((i, w) ∷ m) =
      ground (arith, eq_iff k j, eq_iff i k, eq_iff i j, lookup-remove k j m)

  pub lookup-remove_self : (k : String) (m : Dict V) → lookup k (remove k m) ≡ none
  lookup-remove_self k m = rw (lookup-remove, str_eq_refl)

  pub remove-insert : (k : String) (v : V) (m : Dict V) → remove k (insert k v m) ≡ remove k m
  unfolding insert remove
  remove-insert k v [] = ground (arith, str_eq_refl k)
  remove-insert k v ((j, w) ∷ m) = ground (arith, str_eq_refl k, remove-insert k v m)

  -- The size grows by one for a new key only.
  pub length-insert :
      (k : String) (v : V) (m : Dict V)
      → length (insert k v m) ≡ (elim (lookup k m) [ none ↦ suc (length m) | some _ ↦ length m ])
  unfolding lookup insert
  length-insert k v [] = refl
  length-insert k v ((j, w) ∷ m) = ground (arith, length-insert k v m)

  pub length-remove-le : (k : String) (m : Dict V) → length (remove k m) ≤ length m
  unfolding remove
  length-remove-le k [] = omega arith
  length-remove-le k ((j, w) ∷ m) = ground (arith, length-remove-le k m)

  -- No key stands twice.
  abbrev pub HasDistinctKeys : Dict V → Type 0
  HasDistinctKeys [] = Unit
  HasDistinctKeys ((k, v) ∷ m) = (lookup k m ≡ none) × HasDistinctKeys m

  pub insert-HasDistinctKeys :
      (k : String) (v : V) (m : Dict V) → HasDistinctKeys m → HasDistinctKeys (insert k v m)
  unfolding lookup insert
  insert-HasDistinctKeys k v [] d = (refl, tt)
  insert-HasDistinctKeys k v ((j, w) ∷ m) d =
      ground
        (arith, eq_iff j k, eq_iff k j, lookup-insert k j v m, insert-HasDistinctKeys k v m d.1)

  pub remove-HasDistinctKeys :
      (k : String) (m : Dict V) → HasDistinctKeys m → HasDistinctKeys (remove k m)
  unfolding remove
  remove-HasDistinctKeys k [] d = tt
  remove-HasDistinctKeys k ((j, w) ∷ m) d =
      ground (arith, lookup-remove k j m, remove-HasDistinctKeys k m d.1)

  -- A predicate of every entry.
  abbrev pub Every : (String → V → Type 0) → Dict V → Type 0
  Every P [] = Unit
  Every P ((k, v) ∷ m) = P k v × Every P m

module _ {V : Type 0} (P : String → V → Type 0) where
  pub insert-Every : (k : String) (v : V) (m : Dict V) → P k v → Every P m → Every P (insert k v m)
  unfolding insert
  insert-Every k v [] p h = (p, tt)
  insert-Every k v ((j, w) ∷ m) p h = ground (arith, insert-Every k v m p h.1)

  pub remove-Every : (k : String) (m : Dict V) → Every P m → Every P (remove k m)
  unfolding remove
  remove-Every k [] h = tt
  remove-Every k ((j, w) ∷ m) h = ground (arith, remove-Every k m h.1)

  pub lookup-Every : (k : String) (m : Dict V) (v : V) → Every P m → lookup k m ≡ some v → P k v
  unfolding lookup
  lookup-Every k [] v h e = cc
  lookup-Every k ((j, w) ∷ m) v h e = ground (arith, eq_iff j k, lookup-Every k m v h.1)

-- The sum of a measure over the entries.
module _ {V : Type 0} (f : V → ℕ) where
  abbrev pub sum_of : Dict V → ℕ
  sum_of [] = 0
  sum_of ((k, v) ∷ m) = f v + sum_of m

  pub sum_of-insert_new :
      (k : String) (v : V) (m : Dict V) → lookup k m ≡ none → sum_of (insert k v m) ≡ sum_of m + f v
  unfolding lookup insert
  sum_of-insert_new k v [] e = omega arith
  sum_of-insert_new k v ((j, w) ∷ m) e = ground (arith, sum_of-insert_new k v m)

  pub sum_of-insert_old :
      (k : String) (v w : V) (m : Dict V)
      → lookup k m ≡ some w
      → sum_of (insert k v m) + f w ≡ sum_of m + f v
  unfolding lookup insert
  sum_of-insert_old k v w [] e = cc
  sum_of-insert_old k v w ((j, u) ∷ m) e = ground (arith, sum_of-insert_old k v w m)

  pub sum_of-remove-le : (k : String) (m : Dict V) → sum_of (remove k m) ≤ sum_of m
  unfolding remove
  sum_of-remove-le k [] = omega arith
  sum_of-remove-le k ((j, w) ∷ m) = ground (arith, sum_of-remove-le k m)
