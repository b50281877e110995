-- ===== src/Events/SizeBound.antt =====
-- The loop of `json_size` against the sum over the tree.
use Prim.Native.Nat.{◌+◌, ◌*◌, ◌≤◌, ◌<◌}
use unitree_webrtc_rs.Base.{
  ℕ, zero, suc, ◌≡◌, subst, inl, inr, Option-cases, Option, none, some, List, [], ◌∷◌, leb,
  if◌then◌else◌, arith,
}
use unitree_webrtc_rs.Events.Size.{
  Sizes, json_size, size_loop, visit, add_members, extend, saturating_add, usize_max, size_passes,
}
use unitree_webrtc_rs.Events.{control_bytes}
use unitree_webrtc_rs.Json.{
  Value, Values, Members, null, bool, number, string, array, object, nil, cons, end, member,
}

-- The bytes of a tree, by recursion and without bounds.
unfoldable mutual
  pub weight : Sizes → Value → ℕ
  weight z (string s) = 128 + z.text_capacity s
  weight z (array vs) = 128 + z.array_capacity vs * z.size_of_value + weights z vs
  weight z (object ms) = 128 + member_weights z ms
  weight z null = 128
  weight z (bool b) = 128
  weight z (number n) = 128

  pub weights : Sizes → Values → ℕ
  weights z nil = 0
  weights z (cons v vs) = weight z v + weights z vs

  pub member_weights : Sizes → Members → ℕ
  member_weights z end = 0
  member_weights z (member key v ms) = z.text_capacity key + 128 + weight z v + member_weights z ms

unfoldable total : Sizes → List Value → ℕ
unfolding weight
total z [] = 0
total z (v ∷ vs) = weight z v + total z vs

total-extend :
    (z : Sizes) (vs : Values) (pending : List Value)
    → total z (extend vs pending) ≡ weights z vs + total z pending
unfolding total extend weight
total-extend z nil pending = omega arith
total-extend z (cons v vs) pending = omega (arith, total-extend z vs (v ∷ pending))

-- The size of a whole tree if it is within the budget of control events, else `usize::MAX`.
abbrev pub capped : ℕ → ℕ
capped n = if leb n control_bytes then n else usize_max

-- A pass keeps the sum of what was counted and what is pending, or stops as that sum is too large.
abbrev Counts : Sizes → ℕ → ℕ → Option (ℕ × List Value) → Type 0
Counts z low amount none = control_bytes < amount
Counts z low amount (some (size, pending)) =
    (low ≤ size)
    × ((size ≤ control_bytes → size + total z pending ≡ amount)
        × (control_bytes < size → control_bytes < amount))

add_members-Counts :
    (z : Sizes) (ms : Members) (size : ℕ) (pending : List Value)
    → Counts z size (size + member_weights z ms + total z pending) (add_members z ms size pending)
unfolding add_members total weight
add_members-Counts z end size pending = ground arith
add_members-Counts z (member key v ms) size pending =
    let size' = saturating_add (saturating_add size (z.text_capacity key)) 128 in
    ground (arith, add_members-Counts z ms size' (v ∷ pending))

visit-Counts :
    (z : Sizes) (v : Value) (size : ℕ) (pending : List Value)
    → size ≤ control_bytes
    → Counts z
        (size + 128)
        (size + weight z v + total z pending)
        (visit z v (saturating_add size 128) pending)
unfolding visit weight
visit-Counts z null size pending h = ground arith
visit-Counts z (bool b) size pending h = ground arith
visit-Counts z (number n) size pending h = ground arith
visit-Counts z (string s) size pending h = ground arith
visit-Counts z (array vs) size pending h = ground (arith, total-extend z vs pending)
visit-Counts z (object ms) size pending h =
    ground (arith, add_members-Counts z ms (saturating_add size 128) pending)

size_loop-capped :
    (z : Sizes) (fuel size : ℕ) (pending : List Value)
    → size ≤ control_bytes
    → control_bytes < size + 128 * fuel
    → size_loop z fuel size pending ≡ some (capped (size + total z pending))
unfolding size_loop total
size_loop-capped z zero size pending h enough = absurd (omega arith)
size_loop-capped z (suc fuel) size [] h enough = ground arith
size_loop-capped z (suc fuel) size (v ∷ pending) h enough =
    let now = size + weight z v + total z pending in
    let c = visit-Counts z v size pending h in
    elim (Option-cases (visit z v (saturating_add size 128) pending)) [
      | inl e ↦
          let over : control_bytes < now = subst (Counts z (size + 128) now) e c in
          rw (e, size_loop) (ground arith)
      | inr ((size', pending'), e) ↦
          let kept : Counts z (size + 128) now (some (size', pending')) =
            subst (Counts z (size + 128) now) e c in
          rw (e, size_loop) (ground (arith, size_loop-capped z fuel size' pending'))
    ]

-- `json_size` always returns within the passes that its budget leaves it. It returns the sum over the
-- tree, in whatever order the loop took it, if that is at most 2 MiB, and `usize::MAX` if it is more.
pub json_size_lem :
    (z : Sizes) (v : Value)
    → json_size z v ≡ some (if leb (weight z v) control_bytes then weight z v else usize_max)
unfolding json_size total
json_size_lem z v = ground (arith, size_loop-capped z size_passes 0 (v ∷ []))
