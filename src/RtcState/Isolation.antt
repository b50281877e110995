-- ===== src/RtcState/Isolation.antt =====
-- A reset gives the holder a byte of its own, which no callback of an earlier session can reach.
use unitree_webrtc_rs.Base.{
  ℕ, zero, suc, ◌<◌, ◌≡◌, ◌≢◌, refl, ap, ◌∙◌, List, [], ◌∷◌, ◌++◌, length, length-append, All,
  arith,
}
use unitree_webrtc_rs.RtcState.Lifecycle.{from_u8-to_u8}
use unitree_webrtc_rs.RtcState.{
  RtcReadyState, RtcStateEvent, closed, to_u8, from_u8, ReadyStateHolder, read_cell, write_cell,
  get, set, reset, callback,
}

read-write_self : (cs : List ℕ) (i v : ℕ) → i < length cs → read_cell (write_cell cs i v) i ≡ v
read-write_self [] i v h = absurd (omega arith)
read-write_self (c ∷ cs) zero v h = refl
read-write_self (c ∷ cs) (suc i) v h = read-write_self cs i v (omega arith)

read-write_ne : (cs : List ℕ) (i j v : ℕ) → i ≢ j → read_cell (write_cell cs i v) j ≡ read_cell cs j
read-write_ne [] i j v n = refl
read-write_ne (c ∷ cs) zero zero v n = absurd (n refl)
read-write_ne (c ∷ cs) zero (suc j) v n = refl
read-write_ne (c ∷ cs) (suc i) zero v n = refl
read-write_ne (c ∷ cs) (suc i) (suc j) v n = read-write_ne cs i j v (λ e. n (ap suc e))

-- The callbacks of earlier sessions, each with the `Arc` that it captured.
abbrev pub callbacks : ReadyStateHolder → List (ℕ × RtcStateEvent) → ReadyStateHolder
callbacks h [] = h
callbacks h ((captured, event) ∷ rest) = callbacks (callback h captured event) rest

get-callbacks :
    (h : ReadyStateHolder) (late : List (ℕ × RtcStateEvent))
    → All (λ c. c.0 ≢ h.inner) late
    → get (callbacks h late) ≡ get h
unfolding get callback
get-callbacks h [] n = refl
get-callbacks h ((i, e) ∷ rest) n =
    get-callbacks (callback h i e) rest n.1 ∙ ap from_u8 (read-write_ne h.cells i h.inner _ n.0)

old_ne :
    (k : ℕ) (late : List (ℕ × RtcStateEvent)) → All (λ c. c.0 < k) late → All (λ c. c.0 ≢ k) late
old_ne k [] h = tt
old_ne k (c ∷ rest) h = ((λ e. omega arith), old_ne k rest h.1)

-- After a reset and a new state, whatever the callbacks of earlier sessions do, the holder reads the
-- new state.
pub get-reset :
    (h : ReadyStateHolder) (state : RtcReadyState) (late : List (ℕ × RtcStateEvent))
    → All (λ c. c.0 < length h.cells) late
    → get (callbacks (set (reset h) state) late) ≡ state
unfolding set reset get
get-reset h state late old =
    get-callbacks (set (reset h) state) late (old_ne (length h.cells) late old)
    ∙ ap from_u8 (
        read-write_self (h.cells ++ to_u8 closed ∷ []) (length h.cells) (to_u8 state)
          (omega (arith, length-append h.cells (to_u8 closed ∷ []))))
    ∙ from_u8-to_u8 state
