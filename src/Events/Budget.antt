-- ===== src/Events/Budget.antt =====
-- What is charged to each class is what its queue and the dispatcher hold, within its limits.
use Prim.Native.Nat.{◌+◌, ◌-◌, ◌≤◌}
use unitree_webrtc_rs.Base.{
  ℕ, ◌≡◌, ◌≢◌, ◌⊎◌, ◌||◌, refl, ap, subst, inl, inr, true, false, List, [], ◌∷◌, ◌++◌, ok, length,
  All, Bool-cases, ltb, arith,
}
use unitree_webrtc_rs.Events.Queue.{
  EventDelivery, Lane, Hub, byte_limit, count_limit, event_channel, release, empty_lane,
}
use unitree_webrtc_rs.Events.{Class, control, media}

pub Class-cases : (c : Class) → (c ≡ control) ⊎ (c ≡ media)
Class-cases control = inl refl
Class-cases media = inr refl

-- What an envelope counts for in a class.
abbrev pub cost : Class → EventDelivery → ℕ
cost control d = elim d.class [ control ↦ d.bytes | media ↦ 0 ]
cost media d = elim d.class [ control ↦ 0 | media ↦ d.bytes ]

abbrev pub one : Class → EventDelivery → ℕ
one control d = elim d.class [ control ↦ 1 | media ↦ 0 ]
one media d = elim d.class [ control ↦ 0 | media ↦ 1 ]

unfoldable pub charge : Class → List EventDelivery → ℕ
charge c [] = 0
charge c (d ∷ ds) = cost c d + charge c ds

unfoldable pub tally : Class → List EventDelivery → ℕ
tally c [] = 0
tally c (d ∷ ds) = one c d + tally c ds

-- One class: its usage is the sum over its queue and what is held, and no more than the limits.
pub record Fits (c : Class) (capacity : ℕ) (l : Lane) (held : List EventDelivery) : Type 0 where
  pub bytes_used : l.bytes ≡ charge c l.queue + charge c held
  pub slots_used : l.count ≡ tally c l.queue + tally c held
  pub bytes_bound : l.bytes ≤ byte_limit c
  pub slots_bound : l.count ≤ count_limit c capacity
  pub pure : All (λ d. d.class ≡ c) l.queue

pub record IsBudgeted (hub : Hub) (held : List EventDelivery) : Type 0 where
  pub control_fits : Fits control hub.capacity hub.control_lane held
  pub media_fits : Fits media hub.capacity hub.media_lane held

pub charge-append :
    (c : Class) (xs ys : List EventDelivery) → charge c (xs ++ ys) ≡ charge c xs + charge c ys
unfolding charge
charge-append c [] ys = omega arith
charge-append c (x ∷ xs) ys = omega (arith, charge-append c xs ys)

pub tally-append :
    (c : Class) (xs ys : List EventDelivery) → tally c (xs ++ ys) ≡ tally c xs + tally c ys
unfolding tally
tally-append c [] ys = omega arith
tally-append c (x ∷ xs) ys = omega (arith, tally-append c xs ys)

-- A queue of one class counts for its whole length.
pub tally-pure :
    (c : Class) (ds : List EventDelivery) → All (λ d. d.class ≡ c) ds → tally c ds ≡ length ds
unfolding tally
tally-pure c [] all = refl
tally-pure control (d ∷ ds) (p, all) = ground (arith, p, tally-pure control ds all)
tally-pure media (d ∷ ds) (p, all) = ground (arith, p, tally-pure media ds all)

pub event_channel-IsBudgeted :
    (capacity : ℕ) (hub : Hub) → event_channel capacity ≡ ok hub → IsBudgeted hub []
unfolding event_channel charge tally
event_channel-IsBudgeted capacity hub h = elim (Bool-cases (ltb capacity 1 || ltb 256 capacity)) [
  | inl e ↦ ground arith
  | inr e ↦
      let start : Hub = record {
        capacity = capacity;
        current = 0;
        closed = false;
        connected = true;
        control_lane = empty_lane;
        media_lane = empty_lane;
      } in
      let same : start ≡ hub = ground arith in
      subst (λ x. IsBudgeted x []) same
        (record {
          control_fits = record {
            bytes_used = refl;
            slots_used = refl;
            bytes_bound = omega arith;
            slots_bound = omega arith;
            pure = tt;
          };
          media_fits = record {
            bytes_used = refl;
            slots_used = refl;
            bytes_bound = omega arith;
            slots_bound = omega arith;
            pure = tt;
          };
        })
]

-- What is held matters by its sums only.
pub Fits-held :
    (c : Class) (capacity : ℕ) (l : Lane) (held held' : List EventDelivery)
    → charge c held ≡ charge c held'
    → tally c held ≡ tally c held'
    → Fits c capacity l held
    → Fits c capacity l held'
Fits-held c capacity l held held' p q f = record {
  bytes_used = omega (arith, f.bytes_used, p);
  slots_used = omega (arith, f.slots_used, q);
  bytes_bound = f.bytes_bound;
  slots_bound = f.slots_bound;
  pure = f.pure;
}

pub moved-IsBudgeted :
    (d : EventDelivery) (hub : Hub) (xs ys : List EventDelivery)
    → IsBudgeted hub (xs ++ d ∷ ys)
    → IsBudgeted hub (d ∷ (xs ++ ys))
unfolding charge tally
moved-IsBudgeted d hub xs ys v =
    let sums : (c : Class) → charge c (xs ++ d ∷ ys) ≡ charge c (d ∷ (xs ++ ys)) =
      λ c. omega (arith, charge-append c xs (d ∷ ys), charge-append c xs ys) in
    let slots : (c : Class) → tally c (xs ++ d ∷ ys) ≡ tally c (d ∷ (xs ++ ys)) =
      λ c. omega (arith, tally-append c xs (d ∷ ys), tally-append c xs ys) in
    record {
      control_fits =
          Fits-held control hub.capacity hub.control_lane _ _ (sums control) (slots control)
            v.control_fits;
      media_fits =
          Fits-held media hub.capacity hub.media_lane _ _ (sums media) (slots media) v.media_fits;
    }

-- A lane after the release of an envelope of its class.
abbrev pub freed : Lane → EventDelivery → Lane
freed l d = record l { bytes = l.bytes - d.bytes; count = l.count - 1 }

freed-Fits :
    (c : Class) (capacity : ℕ) (l : Lane) (d : EventDelivery) (held : List EventDelivery)
    → d.class ≡ c
    → Fits c capacity l (d ∷ held)
    → Fits c capacity (freed l d) held
unfolding charge tally
freed-Fits control capacity l d held e f = record {
  bytes_used = ground (arith, e, f.bytes_used);
  slots_used = ground (arith, e, f.slots_used);
  bytes_bound = omega (arith, f.bytes_bound);
  slots_bound = omega (arith, f.slots_bound);
  pure = f.pure;
}
freed-Fits media capacity l d held e f = record {
  bytes_used = ground (arith, e, f.bytes_used);
  slots_used = ground (arith, e, f.slots_used);
  bytes_bound = omega (arith, f.bytes_bound);
  slots_bound = omega (arith, f.slots_bound);
  pure = f.pure;
}

-- An envelope of the other class counts for nothing.
pub free_of : (c : Class) (d : EventDelivery) → d.class ≢ c → (cost c d ≡ 0) × (one c d ≡ 0)
free_of control d e = elim (Class-cases d.class) [
  | inl f ↦ absurd (e f)
  | inr f ↦ (rw f refl, rw f refl)
]
free_of media d e = elim (Class-cases d.class) [
  | inl f ↦ (rw f refl, rw f refl)
  | inr f ↦ absurd (e f)
]

module _ (c : Class) (capacity : ℕ) (l : Lane) (d : EventDelivery) (held : List EventDelivery)
    (e : d.class ≢ c) where
  without-Fits : Fits c capacity l (d ∷ held) → Fits c capacity l held
  unfolding charge tally
  without-Fits =
      let (p, q) = free_of c d e in
      Fits-held c capacity l (d ∷ held) held (omega (arith, p)) (omega (arith, q))

  pub with-Fits : Fits c capacity l held → Fits c capacity l (d ∷ held)
  unfolding charge tally
  with-Fits =
      let (p, q) = free_of c d e in
      Fits-held c capacity l held (d ∷ held) (omega (arith, p)) (omega (arith, q))

pub distinct_media : (c : Class) → c ≡ media → c ≢ control
distinct_media c e f = absurd (cc)

pub distinct_control : (c : Class) → c ≡ control → c ≢ media
distinct_control c e f = absurd (cc)

pub release-IsBudgeted :
    (d : EventDelivery) (hub : Hub) (held : List EventDelivery)
    → IsBudgeted hub (d ∷ held)
    → IsBudgeted (release d hub) held
unfolding release
release-IsBudgeted d hub held v = elim (Class-cases d.class) [
  | inl e ↦
      rw (e, release)
        (record {
          control_fits = freed-Fits control hub.capacity hub.control_lane d held e v.control_fits;
          media_fits =
              without-Fits media hub.capacity hub.media_lane d held (distinct_control d.class e)
                v.media_fits;
        })
  | inr e ↦
      rw (e, release)
        (record {
          control_fits =
              without-Fits control hub.capacity hub.control_lane d held (distinct_media d.class e)
                v.control_fits;
          media_fits = freed-Fits media hub.capacity hub.media_lane d held e v.media_fits;
        })
]

-- A lane whose queue loses its head to the dispatcher.
pub popped-Fits :
    (c : Class) (capacity : ℕ) (l : Lane) (d : EventDelivery) (rest held : List EventDelivery)
    → l.queue ≡ d ∷ rest
    → Fits c capacity l held
    → (d.class ≡ c) × Fits c capacity (record l { queue = rest }) (d ∷ held)
unfolding charge tally
popped-Fits c capacity l d rest held e f =
    let sums : charge c l.queue ≡ cost c d + charge c rest = ap (charge c) e in
    let slots : tally c l.queue ≡ one c d + tally c rest = ap (tally c) e in
    let (p, ps) : (d.class ≡ c) × All (λ x. x.class ≡ c) rest =
      subst (All (λ x. x.class ≡ c)) e f.pure in
    (
      p,
      record {
        bytes_used = omega (arith, f.bytes_used, sums);
        slots_used = omega (arith, f.slots_used, slots);
        bytes_bound = f.bytes_bound;
        slots_bound = f.slots_bound;
        pure = ps;
      },
    )
