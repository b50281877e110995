-- ===== src/Events/Delivery.antt =====
-- The operations of the queue keep the budget.
use unitree_webrtc_rs.Base.{
  ℕ, zero, suc, ◌≡◌, ◌⊎◌, refl, ap, sym, ◌∙◌, subst, inl, inr, Bool, true, false, List, [], ◌∷◌,
  Bool-cases,
}
use unitree_webrtc_rs.Events.Budget.{
  IsBudgeted, release-IsBudgeted, popped-Fits, with-Fits, distinct_media, distinct_control,
}
use unitree_webrtc_rs.Events.Queue.{
  EventDelivery, Hub, disconnected, Received, delivered, empty, out_of_fuel, Popped, popped, lane,
  release, pop, pop_any, pop_from, taken, or_then, still_there, try_delivery, settle, skip,
  is_current, end_of,
}
use unitree_webrtc_rs.Events.{Class, control, media}

pub List-cases {ℓ} :
    {A : Type ℓ} (xs : List A) → (xs ≡ []) ⊎ ((x : A) × (ys : List A) × (xs ≡ x ∷ ys))
List-cases [] = inl refl
List-cases (x ∷ xs) = inr (x, xs, refl)

-- After an empty control channel the pass is that of the media channel.
or_then-pop :
    (hub : Hub) (b : Bool) (q : List EventDelivery)
    → hub.media_lane.queue ≡ q
    → b ≡ hub.connected
    → or_then (hub, end_of b) (pop media) ≡ pop_from media hub q
unfolding or_then pop
or_then-pop hub true [] e f =
    ap (λ x. still_there (pop_from media hub x)) e
    ∙ ap (λ b. still_there (hub, end_of b)) (sym f)
    ∙ ap (λ b. (hub, end_of b)) f
or_then-pop hub true (d ∷ rest) e f = ap (λ x. still_there (pop_from media hub x)) e
or_then-pop hub false q e f = ap (pop_from media hub) e

-- What a pass does: it takes the head of the control queue, or else of the media queue, or neither.
pub pop_any-cases :
    (hub : Hub)
    → ((d : EventDelivery) × (rest : List EventDelivery) × (hub.control_lane.queue ≡ d ∷ rest)
        × (pop_any hub ≡ (taken control rest hub, popped d)))
      ⊎ ((hub.control_lane.queue ≡ [])
          × (((d : EventDelivery) × (rest : List EventDelivery) × (hub.media_lane.queue ≡ d ∷ rest)
                × (pop_any hub ≡ (taken media rest hub, popped d)))
              ⊎ ((hub.media_lane.queue ≡ []) × (pop_any hub ≡ (hub, end_of hub.connected)))))
unfolding pop_any pop
pop_any-cases hub = elim (List-cases hub.control_lane.queue) [
  | inr (d, rest, e) ↦ inl (d, rest, e, ap (λ q. or_then (pop_from control hub q) (pop media)) e)
  | inl e ↦
      let first : pop_any hub ≡ or_then (hub, end_of hub.connected) (pop media) =
        ap (λ q. or_then (pop_from control hub q) (pop media)) e in
      inr (
        e,
        elim (List-cases hub.media_lane.queue) [
          | inr (d, rest, f) ↦
              inl (d, rest, f, first ∙ or_then-pop hub hub.connected (d ∷ rest) f refl)
          | inl f ↦ inr (f, first ∙ or_then-pop hub hub.connected [] f refl)
        ],
      )
]

taken-IsBudgeted :
    (c : Class) (hub : Hub) (d : EventDelivery) (rest held : List EventDelivery)
    → (lane c hub).queue ≡ d ∷ rest
    → IsBudgeted hub held
    → IsBudgeted (taken c rest hub) (d ∷ held)
taken-IsBudgeted control hub d rest held e v =
    let (p, f) = popped-Fits control hub.capacity hub.control_lane d rest held e v.control_fits in
    record {
      control_fits = f;
      media_fits =
          with-Fits media hub.capacity hub.media_lane d held (distinct_control d.class p)
            v.media_fits;
    }
taken-IsBudgeted media hub d rest held e v =
    let (p, f) = popped-Fits media hub.capacity hub.media_lane d rest held e v.media_fits in
    record {
      control_fits =
          with-Fits control hub.capacity hub.control_lane d held (distinct_media d.class p)
            v.control_fits;
      media_fits = f;
    }

-- What the dispatcher holds once the receiver returned.
abbrev pub with_received : Received → List EventDelivery → List EventDelivery
with_received (delivered d) held = d ∷ held
with_received empty held = held
with_received disconnected held = held
with_received out_of_fuel held = held

-- A returned state with what the dispatcher holds then.
abbrev pub Ok : List EventDelivery → Hub × Received → Type 0
Ok held (hub, r) = IsBudgeted hub (with_received r held)

-- `try_delivery` by the result of its first pass.
abbrev pub step : ℕ → Hub × Popped → Hub × Received
step fuel pass = settle pass (try_delivery fuel (skip pass))

settled-Ok :
    (fuel : ℕ) (h : Hub) (d : EventDelivery) (held : List EventDelivery)
    → IsBudgeted h (d ∷ held)
    → Ok held (try_delivery fuel (release d h))
    → Ok held (step fuel (h, popped d))
unfolding settle skip
settled-Ok fuel h d held w later = elim (Bool-cases (is_current h.current d)) [
  | inl f ↦ rw f w
  | inr f ↦ rw f later
]

pub try_delivery-IsBudgeted :
    (fuel : ℕ) (hub : Hub) (held : List EventDelivery)
    → IsBudgeted hub held
    → Ok held (try_delivery fuel hub)
unfolding try_delivery settle skip
try_delivery-IsBudgeted zero hub held v = v
try_delivery-IsBudgeted (suc fuel) hub held v = elim (pop_any-cases hub) [
  | inl (d, rest, e, p) ↦
      let w = taken-IsBudgeted control hub d rest held e v in
      subst (Ok held) (sym (ap (step fuel) p)) (
        settled-Ok fuel (taken control rest hub) d held w (
          try_delivery-IsBudgeted fuel (release d (taken control rest hub)) held
            (release-IsBudgeted d (taken control rest hub) held w)))
  | inr (e, inl (d, rest, f, p)) ↦
      let w = taken-IsBudgeted media hub d rest held f v in
      subst (Ok held) (sym (ap (step fuel) p)) (
        settled-Ok fuel (taken media rest hub) d held w (
          try_delivery-IsBudgeted fuel (release d (taken media rest hub)) held
            (release-IsBudgeted d (taken media rest hub) held w)))
  | inr (e, inr (f, p)) ↦ elim (Bool-cases hub.connected) [
    | inl g ↦ subst (Ok held) (sym (ap (step fuel) (p ∙ ap (λ b. (hub, end_of b)) g))) v
    | inr g ↦ subst (Ok held) (sym (ap (step fuel) (p ∙ ap (λ b. (hub, end_of b)) g))) v
  ]
]
