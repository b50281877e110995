-- ===== src/Events/View.antt =====
-- The queue as its consumer sees it: the events of the current session, control before media.
use Prim.Native.Nat.{◌+◌, ◌≤◌}
use mathlib.Core.List.{append_assoc}
use unitree_webrtc_rs.Base.{
  ℕ, zero, suc, ◌≡◌, ◌⊎◌, refl, ap, sym, ◌∙◌, subst, inl, inr, true, List, [], ◌∷◌, ◌++◌, length,
  Bool-cases, if◌then◌else◌, arith,
}
use unitree_webrtc_rs.Events.Admission.{SendOutcome, enqueued, envelope, try_send_lem}
use unitree_webrtc_rs.Events.Budget.{Class-cases, IsBudgeted}
use unitree_webrtc_rs.Events.Delivery.{pop_any-cases, step}
use unitree_webrtc_rs.Events.Queue.{
  EventDelivery, Hub, Received, delivered, empty, disconnected, popped, sent, full, try_send, lane,
  put_lane, release, try_delivery, settle, skip, passes, is_current, taken, end_of,
}
use unitree_webrtc_rs.Events.Queue.SendResult.{disconnected as refused}
use unitree_webrtc_rs.Events.Size.{Sizes}
use unitree_webrtc_rs.Events.{CallbackEvent, Class, control, media}

-- The abstract queue: what is current, in the order of its delivery.
unfoldable pub currents : ℕ → List EventDelivery → List EventDelivery
currents generation [] = []
currents generation (d ∷ ds) =
    let rest = currents generation ds in if is_current generation d then d ∷ rest else rest

abbrev pub view : Hub → List EventDelivery
view hub = currents hub.current (hub.control_lane.queue ++ hub.media_lane.queue)

-- What a consumer of the abstract queue gets, and what it leaves.
pub Served : List EventDelivery → Hub × Received → Type 0
Served [] (hub, r) = (view hub ≡ []) × ((r ≡ empty) ⊎ (r ≡ disconnected))
Served (d ∷ ds) (hub, r) = (view hub ≡ ds) × (r ≡ delivered d)

view-release : (d : EventDelivery) (hub : Hub) → view (release d hub) ≡ view hub
unfolding release
view-release d hub = elim (Class-cases d.class) [
  | inl e ↦ rw (e, release) refl
  | inr e ↦ rw (e, release) refl
]

settled-Served :
    (fuel : ℕ) (hub h : Hub) (d : EventDelivery)
    → view hub ≡ currents h.current (d ∷ (h.control_lane.queue ++ h.media_lane.queue))
    → Served (view (release d h)) (try_delivery fuel (release d h))
    → Served (view hub) (step fuel (h, popped d))
unfolding Served currents settle skip
settled-Served fuel hub h d q later = elim (Bool-cases (is_current h.current d)) [
  | inl e ↦ let now : view hub ≡ d ∷ view h = q ∙ rw e refl in rw (now, e, Served) (refl, refl)
  | inr e ↦
      let now : view hub ≡ view (release d h) = q ∙ rw e refl ∙ sym (view-release d h) in
      rw (e, now) later
]

empty_step :
    (fuel : ℕ) (hub : Hub) → view hub ≡ [] → Served [] (step fuel (hub, end_of hub.connected))
unfolding Served settle skip
empty_step fuel hub e = elim (Bool-cases hub.connected) [
  | inl f ↦ subst (λ b. Served [] (step fuel (hub, end_of b))) (sym f) (e, inl refl)
  | inr f ↦ subst (λ b. Served [] (step fuel (hub, end_of b))) (sym f) (e, inr refl)
]

fewer : (d : EventDelivery) (h : Hub) → passes (release d h) ≡ passes h
unfolding release
fewer d h = elim (Class-cases d.class) [
  | inl e ↦ rw (e, release) refl
  | inr e ↦ rw (e, release) refl
]

delivery_from :
    (fuel : ℕ) (hub : Hub) → passes hub ≤ fuel → Served (view hub) (try_delivery fuel hub)
unfolding Served try_delivery currents
delivery_from zero hub h = absurd (omega arith)
delivery_from (suc fuel) hub h = elim (pop_any-cases hub) [
  | inl (d, rest, e, p) ↦
      let h' = taken control rest hub in
      let shorter : passes hub ≡ suc (passes h') =
        ap (λ q. suc (length q + length hub.media_lane.queue)) e ∙ omega arith in
      let later = delivery_from fuel (release d h') (omega (arith, shorter, h, fewer d h')) in
      subst (Served (view hub)) (sym (ap (step fuel) p)) (
        settled-Served fuel hub h' d (ap (λ q. currents hub.current (q ++ hub.media_lane.queue)) e)
          later)
  | inr (e, inl (d, rest, f, p)) ↦
      let h' = taken media rest hub in
      let shorter : passes hub ≡ suc (passes h') =
        ap (λ q. suc (length hub.control_lane.queue + length q)) f ∙ omega arith in
      let later = delivery_from fuel (release d h') (omega (arith, shorter, h, fewer d h')) in
      let same : view hub ≡ currents hub.current (d ∷ (hub.control_lane.queue ++ rest)) =
        ap (λ q. currents hub.current (q ++ hub.media_lane.queue)) e
        ∙ ap (currents hub.current) f
        ∙ ap (λ q. currents hub.current (d ∷ (q ++ rest))) (sym e) in
      subst (Served (view hub)) (sym (ap (step fuel) p)) (settled-Served fuel hub h' d same later)
  | inr (e, inr (f, p)) ↦
      let none_left : view hub ≡ [] =
        ap (λ q. currents hub.current (q ++ hub.media_lane.queue)) e
        ∙ ap (currents hub.current) f in
      subst (Served (view hub)) (sym (ap (step fuel) p))
        (rw (none_left, Served) (empty_step fuel hub none_left))
]

-- `try_delivery` always returns: the passes over its queues are enough. It hands out the head of the
-- abstract queue, which holds the current events, control before media and each class in the order of
-- its admission, and leaves the tail; if the abstract queue is empty it says so. No stale event is
-- ever delivered.
pub try_delivery-Served : (hub : Hub) → Served (view hub) (try_delivery (passes hub) hub)
try_delivery-Served hub = delivery_from (passes hub) hub (omega arith)

currents-append :
    (g : ℕ) (xs ys : List EventDelivery) → currents g (xs ++ ys) ≡ currents g xs ++ currents g ys
unfolding currents
currents-append g [] ys = refl
currents-append g (d ∷ xs) ys = elim (Bool-cases (is_current g d)) [
  | inl e ↦ rw (e, currents) (ap (d ∷◌) (currents-append g xs ys))
  | inr e ↦ rw (e, currents) (currents-append g xs ys)
]

-- The abstract queue with an envelope as the last of its class.
abbrev pub inserted : Class → Hub → EventDelivery → List EventDelivery
inserted control hub d =
    currents hub.current hub.control_lane.queue ++ d ∷ currents hub.current hub.media_lane.queue
inserted media hub d = view hub ++ d ∷ []

module _ (hub : Hub) (d : EventDelivery) (e : hub.current ≡ d.generation) where
  single : currents hub.current (d ∷ []) ≡ d ∷ []
  unfolding currents
  single = let now : is_current hub.current d ≡ true = ground arith in rw (now, currents) refl

  entered : (c : Class) → view (put_lane c (enqueued (lane c hub) d) hub) ≡ inserted c hub d
  unfolding currents
  entered control =
      let g = hub.current in
      let cq = hub.control_lane.queue in
      let mq = hub.media_lane.queue in
      currents-append g (cq ++ d ∷ []) mq
      ∙ ap (λ q. q ++ currents g mq) (currents-append g cq (d ∷ []))
      ∙ ap (λ q. (currents g cq ++ q) ++ currents g mq) single
      ∙ append_assoc (currents g cq) (d ∷ []) (currents g mq)
  entered media =
      let g = hub.current in
      let cq = hub.control_lane.queue in
      let mq = hub.media_lane.queue in
      ap (currents g) (sym (append_assoc cq mq (d ∷ [])))
      ∙ currents-append g (cq ++ mq) (d ∷ [])
      ∙ ap (λ q. currents g (cq ++ mq) ++ q) single

-- A send that is accepted puts its event into the abstract queue as the last of its class; one that is
-- refused hands the event back and leaves the abstract queue as it was. The budget holds before.
pub try_send-inserted :
    (z : Sizes) (observed generation : ℕ) (event : CallbackEvent) (hub : Hub)
    (held : List EventDelivery)
    → IsBudgeted hub held
    → ((view (try_send z observed generation event hub).0
          ≡ inserted (envelope z generation event).class hub (envelope z generation event))
        × ((try_send z observed generation event hub).1 ≡ sent))
      ⊎ ((view (try_send z observed generation event hub).0 ≡ view hub)
          × (((try_send z observed generation event hub).1 ≡ full event)
              ⊎ ((try_send z observed generation event hub).1 ≡ refused event)))
unfolding SendOutcome envelope
try_send-inserted z observed generation event hub held v =
    let d = envelope z generation event in
    elim (try_send_lem z observed generation event hub held v) [
      | inl (c, g, o, p, r) ↦ inl (ap view p ∙ entered hub d g d.class, r)
      | inr (p, inl r) ↦ inr (ap view p, inl r)
      | inr (p, inr (r, c)) ↦ inr (ap view p, inr r)
    ]
