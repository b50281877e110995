-- ===== src/Events/Admission.antt =====
-- Admission charges the budget before the channel, which then never refuses.
use Prim.Native.Nat.{◌+◌, ◌-◌, min}
use unitree_webrtc_rs.Base.{
  ℕ, ◌≡◌, ◌⊎◌, ◌||◌, refl, sym, subst, inl, inr, Bool, true, false, List, [], ◌∷◌, ◌++◌, length,
  All, Bool-cases, ltb, leb, ◌==◌, arith,
}
use unitree_webrtc_rs.Events.Budget.{
  IsBudgeted, Fits, Class-cases, charge, tally, charge-append, tally-append, tally-pure, cost, one,
}
use unitree_webrtc_rs.Events.Queue.{
  EventDelivery, Lane, Hub, SendResult, sent, full, disconnected, lane, put_lane, byte_limit,
  count_limit, channel_try_send, admit, try_send,
}
use unitree_webrtc_rs.Events.Size.{Sizes, event_size}
use unitree_webrtc_rs.Events.{CallbackEvent, Class, control, media}

lane-Fits :
    (c : Class) (hub : Hub) (held : List EventDelivery)
    → IsBudgeted hub held
    → Fits c hub.capacity (lane c hub) held
lane-Fits control hub held v = v.control_fits
lane-Fits media hub held v = v.media_fits

put_lane-IsBudgeted :
    (c : Class) (l : Lane) (hub : Hub) (held : List EventDelivery)
    → IsBudgeted hub held
    → Fits c hub.capacity l held
    → IsBudgeted (put_lane c l hub) held
put_lane-IsBudgeted control l hub held v f = record { control_fits = f; media_fits = v.media_fits }
put_lane-IsBudgeted media l hub held v f = record { control_fits = v.control_fits; media_fits = f }

own_cost : (d : EventDelivery) → (cost d.class d ≡ d.bytes) × (one d.class d ≡ 1)
own_cost d = elim (Class-cases d.class) [
  | inl e ↦ (rw e refl, rw e refl)
  | inr e ↦ (rw e refl, rw e refl)
]

-- A class once an envelope is charged to it and stands at the end of its queue.
abbrev pub enqueued : Lane → EventDelivery → Lane
enqueued l d = record { bytes = l.bytes + d.bytes; count = l.count + 1; queue = l.queue ++ d ∷ [] }

abbrev charged : Lane → EventDelivery → Lane
charged l d = record l { bytes = l.bytes + d.bytes; count = l.count + 1 }

-- An envelope that the budget of its class does not take.
abbrev pub is_over : Hub → EventDelivery → Bool
is_over hub d =
    let l = lane d.class hub in
    ltb (byte_limit d.class - l.bytes) d.bytes || leb (count_limit d.class hub.capacity) l.count

All-snoc :
    (c : Class) (ds : List EventDelivery) (d : EventDelivery)
    → All (λ x. x.class ≡ c) ds
    → d.class ≡ c
    → All (λ x. x.class ≡ c) (ds ++ d ∷ [])
All-snoc c [] d ps p = (p, tt)
All-snoc c (x ∷ ds) d (q, ps) p = (q, All-snoc c ds d ps p)

enqueued-Fits :
    (hub : Hub) (d : EventDelivery) (held : List EventDelivery)
    → is_over hub d ≡ false
    → IsBudgeted hub held
    → Fits d.class hub.capacity (enqueued (lane d.class hub) d) held
unfolding charge tally
enqueued-Fits hub d held h v =
    let l = lane d.class hub in
    let f = lane-Fits d.class hub held v in
    let (p, q) = own_cost d in
    record {
      bytes_used = omega (arith, f.bytes_used, p, charge-append d.class l.queue (d ∷ []));
      slots_used = omega (arith, f.slots_used, q, tally-append d.class l.queue (d ∷ []));
      bytes_bound = ground (arith, h, f.bytes_bound);
      slots_bound = ground (arith, h, f.slots_bound);
      pure = All-snoc d.class l.queue d f.pure refl;
    }

-- The queue of a class is no longer than its count, so a charged envelope finds room.
roomy :
    (hub : Hub) (d : EventDelivery) (held : List EventDelivery)
    → is_over hub d ≡ false
    → IsBudgeted hub held
    → leb (count_limit d.class hub.capacity) (length (lane d.class hub).queue) ≡ false
roomy hub d held h v =
    let f = lane-Fits d.class hub held v in
    ground (arith, h, f.slots_used, tally-pure d.class (lane d.class hub).queue f.pure)

-- A channel with room takes the charged envelope.
sends :
    (hub : Hub) (d : EventDelivery)
    → hub.closed ≡ false
    → leb (count_limit d.class hub.capacity) (length (lane d.class hub).queue) ≡ false
    → channel_try_send d (put_lane d.class (charged (lane d.class hub) d) hub)
      ≡ (put_lane d.class (enqueued (lane d.class hub) d) hub, sent)
unfolding channel_try_send
sends hub d h room = elim (Class-cases d.class) [
  | inl e ↦
      let room' : leb hub.capacity (length hub.control_lane.queue) ≡ false =
        ground (arith, e, room) in
      simp (e, h, room', channel_try_send) refl
  | inr e ↦
      let room' : leb (min hub.capacity 4) (length hub.media_lane.queue) ≡ false =
        ground (arith, e, room) in
      simp (e, h, room', channel_try_send) refl
]

pub admit_lem :
    (hub : Hub) (d : EventDelivery) (held : List EventDelivery)
    → hub.closed ≡ false
    → IsBudgeted hub held
    → ((is_over hub d ≡ true) × (admit d hub ≡ (hub, full d.event)))
      ⊎ ((is_over hub d ≡ false)
          × (admit d hub ≡ (put_lane d.class (enqueued (lane d.class hub) d) hub, sent)))
unfolding admit channel_try_send
admit_lem hub d held h v = elim (Bool-cases (is_over hub d)) [
  | inl e ↦ inl (e, rw (e, admit) refl)
  | inr e ↦ inr (e, rw (e, admit) (sends hub d h (roomy hub d held e v)))
]

-- Sending an event: it is charged and queued last in its class, for the session that it names, which is
-- current; or it is handed back, and nothing changed.
unfoldable pub SendOutcome : Hub → EventDelivery → Hub × SendResult → Type 0
SendOutcome hub d (hub', r) =
    ((hub.closed ≡ false)
      × (hub.current ≡ d.generation)
      × (is_over hub d ≡ false)
      × (hub' ≡ put_lane d.class (enqueued (lane d.class hub) d) hub)
      × (r ≡ sent))
    ⊎ ((hub' ≡ hub) × ((r ≡ full d.event) ⊎ ((r ≡ disconnected d.event) × (hub.closed ≡ true))))

unfoldable pub envelope : Sizes → ℕ → CallbackEvent → EventDelivery
unfolding event_size
envelope z generation event =
    let (class, bytes) = event_size z event in
    record { event = event; generation = generation; class = class; bytes = bytes }

pub try_send_lem :
    (z : Sizes) (observed generation : ℕ) (event : CallbackEvent) (hub : Hub)
    (held : List EventDelivery)
    → IsBudgeted hub held
    → SendOutcome hub (envelope z generation event) (try_send z observed generation event hub)
unfolding try_send SendOutcome envelope
try_send_lem z observed generation event hub held v =
    let d = envelope z generation event in
    let run = try_send z observed generation event hub in
    let from : (x : Hub × SendResult) → run ≡ x → SendOutcome hub d x → SendOutcome hub d run =
      λ x p o. subst (SendOutcome hub d) (sym p) o in
    elim (Bool-cases (observed == generation)) [
      | inr e ↦ from (hub, full event) (rw (e, try_send) refl) (inr (refl, inl refl))
      | inl e ↦ elim (Bool-cases hub.closed) [
        | inl f ↦
            from (hub, disconnected event) (simp (e, f, try_send) refl) (inr (refl, inr (refl, f)))
        | inr f ↦ elim (Bool-cases (hub.current == generation)) [
          | inr g ↦ from (hub, full event) (simp (e, f, g, try_send) refl) (inr (refl, inl refl))
          | inl g ↦ elim (admit_lem hub d held f v) [
            | inl (o, p) ↦
                from (hub, full event) (simp (e, f, g, p, try_send) refl) (inr (refl, inl refl))
            | inr (o, p) ↦
                from (put_lane d.class (enqueued (lane d.class hub) d) hub, sent)
                  (simp (e, f, g, p, try_send) refl) (inl (f, ground arith, o, refl, refl))
          ]
        ]
      ]
    ]

pub try_send-IsBudgeted :
    (z : Sizes) (observed generation : ℕ) (event : CallbackEvent) (hub : Hub)
    (held : List EventDelivery)
    → IsBudgeted hub held
    → IsBudgeted (try_send z observed generation event hub).0 held
unfolding SendOutcome
try_send-IsBudgeted z observed generation event hub held v =
    let d = envelope z generation event in
    elim (try_send_lem z observed generation event hub held v) [
      | inl (c, g, o, p, r) ↦ rw p (
          put_lane-IsBudgeted d.class (enqueued (lane d.class hub) d) hub held v
            (enqueued-Fits hub d held o v))
      | inr (p, r) ↦ rw p v
    ]
