-- ===== src/Security/Blocks.antt =====
-- A cipher over whole blocks: `chunks_exact_mut(AES_BLOCK_SIZE)`.
use mathlib.Core.Path.{ap₂}
use unitree_webrtc_rs.Base.{
  ℕ, zero, suc, ◌+◌, ◌-◌, ◌%◌, ◌≡◌, refl, sym, ap, ◌∙◌, false, inl, inr, ◌++◌, Bytes, ltb,
  if◌then◌else◌, length, take, drop, length-append, length-take, length-drop, take-append,
  drop-append, take-append-drop, Bool-cases, arith,
}

abbrev pub aes_block_size : ℕ
aes_block_size = 16

-- Each block of 16 bytes is replaced; what is left over stays. The fuel is the length.
pub map_blocks : ℕ → (Bytes → Bytes) → Bytes → Bytes
map_blocks zero f bytes = bytes
map_blocks (suc fuel) f bytes =
    let rest = map_blocks fuel f (drop aes_block_size bytes) in
    if ltb (length bytes) aes_block_size then bytes else f (take aes_block_size bytes) ++ rest

-- The tests on one block, apart from the blocks themselves.
whole_block : (bytes : Bytes) → ltb (length bytes) 16 ≡ false → length (take 16 bytes) ≡ 16
whole_block bytes long = length-take 16 bytes ∙ ground arith

rejoin : (bytes : Bytes) → ltb (length bytes) 16 ≡ false → 16 + (length bytes - 16) ≡ length bytes
rejoin bytes long = ground arith

fewer :
    (bytes : Bytes)
    → ltb (length bytes) 16 ≡ false
    → length bytes % 16 ≡ 0
    → length (drop 16 bytes) % 16 ≡ 0
fewer bytes long whole = ap (λ n. n % 16) (length-drop 16 bytes) ∙ ground arith

still_long : (head rest : Bytes) → length head ≡ 16 → ltb (length (head ++ rest)) 16 ≡ false
still_long head rest h = ap (λ n. ltb n 16) (length-append head rest) ∙ ground arith

module _ (f g : Bytes → Bytes) (sized : (b : Bytes) → length b ≡ 16 → length (f b) ≡ 16) where
  pub length-map_blocks :
      (fuel : ℕ) (bytes : Bytes) → length (map_blocks fuel f bytes) ≡ length bytes
  unfolding map_blocks
  length-map_blocks zero bytes = refl
  length-map_blocks (suc fuel) bytes = elim (Bool-cases (ltb (length bytes) 16)) [
    | inl short ↦ rw short
    | inr long ↦
        let sixteen : length (take 16 bytes) ≡ 16 = whole_block bytes long in
        rw long (
          length-append (f (take 16 bytes)) (map_blocks fuel f (drop 16 bytes))
          ∙ ap₂ ◌+◌ (sized (take 16 bytes) sixteen)
              (length-map_blocks fuel (drop 16 bytes) ∙ length-drop 16 bytes)
          ∙ rejoin bytes long)
  ]

  module _ (inverse : (b : Bytes) → length b ≡ 16 → g (f b) ≡ b) where
    -- A block function that is undone on blocks is undone on whole blocks.
    pub map_blocks_inverse :
        (fuel : ℕ) (bytes : Bytes)
        → length bytes % 16 ≡ 0
        → map_blocks fuel g (map_blocks fuel f bytes) ≡ bytes
    unfolding map_blocks
    map_blocks_inverse zero bytes whole = refl
    map_blocks_inverse (suc fuel) bytes whole =
        let head = f (take 16 bytes) in
        let rest = map_blocks fuel f (drop 16 bytes) in
        elim (Bool-cases (ltb (length bytes) 16)) [
          | inl short ↦ rw (short, short)
          | inr long ↦
              let sixteen : length (take 16 bytes) ≡ 16 = whole_block bytes long in
              let h16 = sized (take 16 bytes) sixteen in
              let long' = still_long head rest h16 in
              rw (long, long')
                (ap₂ ◌++◌
                    (ap g (take-append head rest 16 (sym h16)) ∙ inverse (take 16 bytes) sixteen)
                    (ap (map_blocks fuel g) (drop-append head rest 16 (sym h16))
                      ∙ map_blocks_inverse fuel (drop 16 bytes) (fewer bytes long whole))
                  ∙ take-append-drop 16 bytes)
        ]
