-- ===== src/Events/History.antt =====
-- Histories of the event queue: its operations in any order keep the budget.
use unitree_webrtc_rs.Base.{
  ℕ, ◌≡◌, ◌≢◌, refl, sym, ◌∙◌, true, false, List, [], ◌∷◌, ◌++◌, ok, All, arith,
}
use unitree_webrtc_rs.Events.Admission.{try_send-IsBudgeted}
use unitree_webrtc_rs.Events.Budget.{
  IsBudgeted, Fits, charge, tally, charge-append, tally-append, Fits-held, free_of,
  moved-IsBudgeted, release-IsBudgeted, event_channel-IsBudgeted, distinct_media, distinct_control,
}
use unitree_webrtc_rs.Events.Delivery.{try_delivery-IsBudgeted, with_received}
use unitree_webrtc_rs.Events.Queue.{
  EventDelivery, Lane, Hub, event_channel, set_generation, release, try_send, try_delivery, passes,
  drain, close, emptied, lane,
}
use unitree_webrtc_rs.Events.Size.{Sizes}
use unitree_webrtc_rs.Events.{CallbackEvent, Class, control, media}

-- The hub and what the dispatcher holds, after a history that began with `event_channel capacity`.
pub data Reachable (z : Sizes) (capacity : ℕ) : Hub → List EventDelivery → Type 0 where
  starts : (hub : Hub) → event_channel capacity ≡ ok hub → Reachable z capacity hub []
  sends :
      (hub : Hub) (held : List EventDelivery) (observed generation : ℕ) (event : CallbackEvent)
      → Reachable z capacity hub held
      → Reachable z capacity (try_send z observed generation event hub).0 held
  receives :
      (hub : Hub) (held : List EventDelivery)
      → Reachable z capacity hub held
      → Reachable z capacity
          (try_delivery (passes hub) hub).0
          (with_received (try_delivery (passes hub) hub).1 held)
  finishes :
      (hub : Hub) (xs ys : List EventDelivery) (d : EventDelivery)
      → Reachable z capacity hub (xs ++ d ∷ ys)
      → Reachable z capacity (release d hub) (xs ++ ys)
  turns :
      (hub : Hub) (held : List EventDelivery) (generation : ℕ)
      → Reachable z capacity hub held
      → Reachable z capacity (set_generation generation hub) held
  loses_producers :
      (hub : Hub) (held : List EventDelivery)
      → Reachable z capacity hub held
      → Reachable z capacity (record hub { connected = false }) held
  closes :
      (hub : Hub) (held : List EventDelivery)
      → Reachable z capacity hub held
      → Reachable z capacity (close hub) held

foreign_queue :
    (c : Class) (e : Class) (ds : List EventDelivery)
    → e ≢ c
    → All (λ d. d.class ≡ e) ds
    → (charge c ds ≡ 0) × (tally c ds ≡ 0)
unfolding charge tally
foreign_queue c e [] other all = (refl, refl)
foreign_queue c e (d ∷ ds) other (p, all) =
    let (x, y) = free_of c d (λ q. other (sym p ∙ q)) in
    let (xs, ys) = foreign_queue c e ds other all in (omega (arith, x, xs), omega (arith, y, ys))

-- A drained queue is held by the loop that drops it.
emptied_own :
    (c : Class) (capacity : ℕ) (l : Lane) (held : List EventDelivery)
    → Fits c capacity l held
    → Fits c capacity (record l { queue = [] }) (l.queue ++ held)
unfolding charge tally
emptied_own c capacity l held f = record {
  bytes_used = omega (arith, f.bytes_used, charge-append c l.queue held);
  slots_used = omega (arith, f.slots_used, tally-append c l.queue held);
  bytes_bound = f.bytes_bound;
  slots_bound = f.slots_bound;
  pure = tt;
}

emptied_other :
    (c e : Class) (capacity : ℕ) (l : Lane) (ds held : List EventDelivery)
    → e ≢ c
    → All (λ d. d.class ≡ e) ds
    → Fits c capacity l held
    → Fits c capacity l (ds ++ held)
emptied_other c e capacity l ds held other all =
    let (x, y) = foreign_queue c e ds other all in
    Fits-held c capacity l held (ds ++ held) (omega (arith, x, charge-append c ds held))
      (omega (arith, y, tally-append c ds held))

emptied-IsBudgeted :
    (c : Class) (hub : Hub) (held : List EventDelivery)
    → IsBudgeted hub held
    → IsBudgeted (emptied c hub) ((lane c hub).queue ++ held)
emptied-IsBudgeted control hub held v = record {
  control_fits = emptied_own control hub.capacity hub.control_lane held v.control_fits;
  media_fits =
      emptied_other media control hub.capacity hub.media_lane hub.control_lane.queue held
        (distinct_control control refl) v.control_fits.pure v.media_fits;
}
emptied-IsBudgeted media hub held v = record {
  control_fits =
      emptied_other control media hub.capacity hub.control_lane hub.media_lane.queue held
        (distinct_media media refl) v.media_fits.pure v.control_fits;
  media_fits = emptied_own media hub.capacity hub.media_lane held v.media_fits;
}

drain-IsBudgeted :
    (ds : List EventDelivery) (hub : Hub) (held : List EventDelivery)
    → IsBudgeted hub (ds ++ held)
    → IsBudgeted (drain ds hub) held
unfolding drain
drain-IsBudgeted [] hub held v = v
drain-IsBudgeted (d ∷ ds) hub held v =
    drain-IsBudgeted ds (release d hub) held (release-IsBudgeted d hub (ds ++ held) v)

close-IsBudgeted :
    (hub : Hub) (held : List EventDelivery) → IsBudgeted hub held → IsBudgeted (close hub) held
unfolding close
close-IsBudgeted hub held v =
    let shut = record hub { closed = true } in
    let half = drain shut.control_lane.queue (emptied control shut) in
    let w : IsBudgeted shut held = record {
      control_fits = v.control_fits;
      media_fits = v.media_fits;
    } in
    let u =
      drain-IsBudgeted shut.control_lane.queue (emptied control shut) held
        (emptied-IsBudgeted control shut held w) in
    drain-IsBudgeted half.media_lane.queue (emptied media half) held
      (emptied-IsBudgeted media half held u)

-- In every state of the queue that a history of sends, receptions, ends of callbacks, turns of the
-- session and closings reaches, the bytes and the count charged to each class are exactly those of
-- its queued and held envelopes, and they are within the class's limits: 2 MiB and the capacity for
-- control events, 32 MiB and at most 4 for media.
pub Reachable-IsBudgeted :
    (z : Sizes) (capacity : ℕ) (hub : Hub) (held : List EventDelivery)
    → Reachable z capacity hub held
    → IsBudgeted hub held
Reachable-IsBudgeted z capacity _ _ (starts hub e) = event_channel-IsBudgeted capacity hub e
Reachable-IsBudgeted z capacity _ _ (sends hub held observed generation event r) =
    try_send-IsBudgeted z observed generation event hub held
      (Reachable-IsBudgeted z capacity hub held r)
Reachable-IsBudgeted z capacity _ _ (receives hub held r) =
    try_delivery-IsBudgeted (passes hub) hub held (Reachable-IsBudgeted z capacity hub held r)
Reachable-IsBudgeted z capacity _ _ (finishes hub xs ys d r) =
    release-IsBudgeted d hub (xs ++ ys)
      (moved-IsBudgeted d hub xs ys (Reachable-IsBudgeted z capacity hub (xs ++ d ∷ ys) r))
Reachable-IsBudgeted z capacity _ _ (turns hub held generation r) =
    let v = Reachable-IsBudgeted z capacity hub held r in
    record { control_fits = v.control_fits; media_fits = v.media_fits }
Reachable-IsBudgeted z capacity _ _ (loses_producers hub held r) =
    let v = Reachable-IsBudgeted z capacity hub held r in
    record { control_fits = v.control_fits; media_fits = v.media_fits }
Reachable-IsBudgeted z capacity _ _ (closes hub held r) =
    close-IsBudgeted hub held (Reachable-IsBudgeted z capacity hub held r)
