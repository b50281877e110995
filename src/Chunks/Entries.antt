-- ===== src/Chunks/Entries.antt =====
-- A `BTreeMap<usize, Vec<u8>>` as the list of its entries by ascending key.
use unitree_webrtc_rs.Base.{
  ℕ, zero, suc, ◌+◌, ◌≤◌, ◌<◌, ◌≡◌, refl, ap, ◌≢◌, Option, none, some, List, [], ◌∷◌, ◌++◌, Bytes,
  ltb, ◌==◌, if◌then◌else◌, length, flatten, get_elem?, length-append, arith,
}

abbrev pub Ordered : Type 0
Ordered = List (ℕ × Bytes)

unfoldable pub get : ℕ → Ordered → Option Bytes
get i [] = none
get i ((j, b) ∷ m) = if j == i then some b else get i m

unfoldable pub put : ℕ → Bytes → Ordered → Ordered
put i b [] = (i, b) ∷ []
put i b ((j, c) ∷ m) =
    let rest = put i b m in
    if ltb i j then (i, b) ∷ (j, c) ∷ m else if i == j then (i, b) ∷ m else (j, c) ∷ rest

-- `into_values().flatten().collect()`
abbrev pub values : Ordered → Bytes
values [] = []
values ((i, b) ∷ m) = b ++ values m

abbrev pub size : Ordered → ℕ
size [] = 0
size ((i, b) ∷ m) = length b + size m

-- The keys ascend from above `lo` to `hi` at most.
abbrev pub Within : ℕ → ℕ → Ordered → Type 0
Within lo hi [] = Unit {0}
Within lo hi ((i, b) ∷ m) = (lo < i) × (i ≤ hi) × Within i hi m

pub put-Within :
    (i lo hi : ℕ) (b : Bytes) (m : Ordered)
    → lo < i
    → i ≤ hi
    → Within lo hi m
    → Within lo hi (put i b m)
unfolding put
put-Within i lo hi b [] p q w = (p, q, tt)
put-Within i lo hi b ((j, c) ∷ m) p q w = ground (arith, put-Within i j hi b m)

pub length-put :
    (i : ℕ) (b : Bytes) (m : Ordered) → get i m ≡ none → length (put i b m) ≡ suc (length m)
unfolding get put
length-put i b [] e = refl
length-put i b ((j, c) ∷ m) e = ground (arith, length-put i b m)

pub size-put :
    (i : ℕ) (b : Bytes) (m : Ordered) → get i m ≡ none → size (put i b m) ≡ size m + length b
unfolding get put
size-put i b [] e = omega arith
size-put i b ((j, c) ∷ m) e = ground (arith, size-put i b m)

pub get-put_ne : (i j : ℕ) (b : Bytes) (m : Ordered) → i ≢ j → get j (put i b m) ≡ get j m
unfolding get put
get-put_ne i j b [] n = ground arith
get-put_ne i j b ((k, c) ∷ m) n = ground (arith, get-put_ne i j b m)

pub length-le-Within : (lo hi : ℕ) (m : Ordered) → lo ≤ hi → Within lo hi m → length m + lo ≤ hi
length-le-Within lo hi [] h w = omega arith
length-le-Within lo hi ((i, b) ∷ m) h w = omega (arith, length-le-Within i hi m w.1 w.2)

-- `m` holds some of the parts, each at its position counted from `lo + 1`.
pub data Selects : ℕ → List Bytes → Ordered → Type 0 where
  finish : {lo : ℕ} → Selects lo [] []
  skip :
      {lo : ℕ} {p : Bytes} {ps : List Bytes} {m : Ordered}
      → Selects (suc lo) ps m
      → Selects lo (p ∷ ps) m
  keep :
      {lo : ℕ} {p : Bytes} {ps : List Bytes} {m : Ordered}
      → Selects (suc lo) ps m
      → Selects lo (p ∷ ps) ((suc lo, p) ∷ m)

pub Selects-none : (lo : ℕ) (ps : List Bytes) → Selects lo ps []
Selects-none lo [] = finish
Selects-none lo (p ∷ ps) = skip (Selects-none (suc lo) ps)

pub size-le-Selects :
    {lo : ℕ} {ps : List Bytes} {m : Ordered} → Selects lo ps m → size m ≤ length (flatten ps)
size-le-Selects finish = omega arith
size-le-Selects (skip {p = p} {ps = ps} s) =
    omega (arith, size-le-Selects s, length-append p (flatten ps))
size-le-Selects (keep {p = p} {ps = ps} s) =
    omega (arith, size-le-Selects s, length-append p (flatten ps))

pub length-le-Selects :
    {lo : ℕ} {ps : List Bytes} {m : Ordered} → Selects lo ps m → length m ≤ length ps
length-le-Selects finish = omega arith
length-le-Selects (skip s) = omega (arith, length-le-Selects s)
length-le-Selects (keep s) = omega (arith, length-le-Selects s)

-- As many entries as parts: all of them, in order.
pub values-Selects :
    {lo : ℕ} {ps : List Bytes} {m : Ordered}
    → Selects lo ps m
    → length m ≡ length ps
    → values m ≡ flatten ps
values-Selects finish e = refl
values-Selects (skip s) e = absurd (omega (arith, length-le-Selects s))
values-Selects (keep {p = p} s) e = ap (◌++◌ p) (values-Selects s (omega arith))

abbrev Above : ℕ → Ordered → Type 0
Above lo [] = Unit {0}
Above lo ((i, b) ∷ m) = (lo < i) × Above lo m

Selects-Above :
    {lo : ℕ} {ps : List Bytes} {m : Ordered} (k : ℕ) → k ≤ lo → Selects lo ps m → Above k m
Selects-Above k h finish = tt
Selects-Above k h (skip s) = Selects-Above k (omega arith) s
Selects-Above k h (keep s) = (omega arith, Selects-Above k (omega arith) s)

put_front : (i : ℕ) (b : Bytes) (m : Ordered) → Above i m → put i b m ≡ (i, b) ∷ m
unfolding put
put_front i b [] a = refl
put_front i b ((j, c) ∷ m) a = ground arith

-- A part that was missing is put in its place.
pub put-Selects :
    {lo : ℕ} {ps : List Bytes} {m : Ordered} (i k : ℕ) (b : Bytes)
    → Selects lo ps m
    → i ≡ suc (lo + k)
    → get_elem? ps k ≡ some b
    → get i m ≡ none
    → Selects lo ps (put i b m)
unfolding get put
put-Selects i k b finish e p g = cc
put-Selects i zero b (skip {lo = lo} {p = q} {m = m} s) e p g =
    let at : i ≡ suc lo = omega arith in
    let part : q ≡ b = ground arith in
    rw (put_front i b m (Selects-Above i (omega arith) s)) (rw (at, ← part) (keep s))
put-Selects i (suc k) b (skip s) e p g = skip (put-Selects i k b s (omega arith) p g)
put-Selects i zero b (keep s) e p g = ground arith
put-Selects i (suc k) b (keep {lo = lo} {p = q} {m = m} s) e p g =
    let behind : put i b ((suc lo, q) ∷ m) ≡ (suc lo, q) ∷ put i b m = ground arith in
    rw behind (keep (put-Selects i k b s (omega arith) p (ground arith)))
