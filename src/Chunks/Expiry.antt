-- ===== src/Chunks/Expiry.antt =====
-- The sweep of the transfers whose time has run out.
use text.Mathlib.Text.{◌==◌ as str_eq}
use text.Mathlib.TextEquality.{eq_iff}
use unitree_webrtc_rs.Base.Dict.{Dict, HasDistinctKeys, lookup, lookup-remove}
use unitree_webrtc_rs.Base.{
  ℕ, ◌≡◌, refl, Bool, false, ◌||◌, Option, none, some, List, [], ◌∷◌, String, leb, if◌then◌else◌,
  arith,
}
use unitree_webrtc_rs.Chunks.Invariant.{IsValid}
use unitree_webrtc_rs.Chunks.{Transfer, ChunkAssembler, remove, remove_all, expired_keys, expire}

abbrev pub contains : String → List String → Bool
contains j [] = false
contains j (k ∷ ks) = str_eq k j || contains j ks

lookup-remove_all :
    (a : ChunkAssembler) (keys : List String) (j : String)
    → lookup j (remove_all a keys).transfers
      ≡ (if contains j keys then none else lookup j a.transfers)
unfolding remove_all remove
lookup-remove_all a [] j = refl
lookup-remove_all a (k ∷ ks) j =
    ground (arith, lookup-remove_all (remove a k) ks j, lookup-remove k j a.transfers)

abbrev pub is_over : ℕ → Option Transfer → Bool
is_over now none = false
is_over now (some t) = leb t.deadline now

contains-expired_keys :
    (now : ℕ) (m : Dict Transfer) (j : String)
    → HasDistinctKeys m
    → contains j (expired_keys now m) ≡ is_over now (lookup j m)
unfolding expired_keys lookup
contains-expired_keys now [] j d = refl
contains-expired_keys now ((k, t) ∷ m) j d =
    ground (arith, eq_iff k j, contains-expired_keys now m j d.1)

-- A sweep takes out the transfers whose deadline is not after `now`, names them, and leaves every
-- other transfer as it is.
pub expire_lem :
    (a : ChunkAssembler) (now : ℕ) (j : String)
    → IsValid a
    → (contains j (expire a now).1 ≡ is_over now (lookup j a.transfers))
      × (lookup j (expire a now).0.transfers
          ≡ (if is_over now (lookup j a.transfers) then none else lookup j a.transfers))
unfolding expire
expire_lem a now j v =
    let named = contains-expired_keys now a.transfers j v.distinct in
    (named, rw (← named) (lookup-remove_all a (expired_keys now a.transfers) j))
