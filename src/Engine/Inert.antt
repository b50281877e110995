-- ===== src/Engine/Inert.antt =====
-- What the callbacks of rtc_engine/handlers.rs and a failed command do to the engine.
use Prim.Native.Nat.{◌≤◌, ◌<◌}
use unitree_webrtc_rs.Base.{
  ℕ, ◌≡◌, ◌≢◌, ◌⊎◌, refl, ap, sym, ◌∙◌, subst, inl, inr, Bool, true, false, not, Option, none, some,
  List, [], ◌∷◌, ◌++◌, Bytes, ◌==◌, leb, length, length-append, if◌then◌else◌, All, if_elim, arith,
}
use unitree_webrtc_rs.Engine.Handlers.{
  PeerState, on_open, on_close, on_message, on_peer_state, enqueue_current, message_of,
  decode_text_message, message_size_allowed, is_over, if_some,
}
use unitree_webrtc_rs.Engine.{
  RtcEngine, QueueError, take_transport_error, full, hung_up, try_send, record_transport_fault,
  set_ingress_generation, fault_of, store,
}
use unitree_webrtc_rs.Ingress.{max_text_bytes, max_binary_bytes}
use unitree_webrtc_rs.Models.{DcMessage, IngressMessage, text, binary, transport_fault}
use unitree_webrtc_rs.RtcState.{closed, read_cell, from_u8}

-- The callbacks of a peer, and the end of its command task with an error, by the generation and the
-- ready state that they captured.
pub data Callback : Type 0 where
  opens : ℕ → ℕ → Callback
  closes : ℕ → ℕ → Callback
  receives : ℕ → ℕ → Bool → Bytes → Callback
  changes : ℕ → ℕ → PeerState → Callback
  send_fails : ℕ → ℕ → Callback

abbrev pub generation_of : Callback → ℕ
generation_of (opens generation cell) = generation
generation_of (closes generation cell) = generation
generation_of (receives generation cell is_string bytes) = generation
generation_of (changes generation cell state) = generation
generation_of (send_fails generation cell) = generation

-- A message that the transport may hand on.
abbrev pub Fits : DcMessage → Type 0
Fits (text bytes) = length bytes ≤ max_text_bytes
Fits (binary bytes) = length bytes ≤ max_binary_bytes
Fits (transport_fault e) = Unit

unfoldable pub Appends : RtcEngine → RtcEngine → Type 0
Appends e e' =
    (e'.incoming ≡ e.incoming)
    ⊎ ((m : IngressMessage) × (e'.incoming ≡ e.incoming ++ m ∷ [])
        × (m.generation ≡ e.ingress_generation)
        × Fits m.payload
        × (length e'.incoming ≤ e.incoming_capacity))

module _ (utf8 : Bytes → Bool) where
  unfoldable pub run_callback : Callback → RtcEngine → RtcEngine
  unfolding on_open on_close on_message on_peer_state record_transport_fault
  run_callback (opens generation cell) e = on_open utf8 generation cell e
  run_callback (closes generation cell) e = on_close utf8 generation cell e
  run_callback (receives generation cell is_string bytes) e =
      on_message utf8 generation cell is_string bytes e
  run_callback (changes generation cell state) e = on_peer_state utf8 generation cell state e
  run_callback (send_fails generation cell) e = record_transport_fault generation cell e

  unfoldable pub run_callbacks : List Callback → RtcEngine → RtcEngine
  unfolding run_callback
  run_callbacks [] e = e
  run_callbacks (c ∷ cs) e = run_callbacks cs (run_callback c e)

  stale_callback :
      (c : Callback) (e : RtcEngine) → generation_of c ≢ e.ingress_generation → run_callback c e ≡ e
  unfolding run_callback on_open on_close on_message on_peer_state record_transport_fault
  stale_callback (opens g cell) e h = ground arith
  stale_callback (closes g cell) e h = ground arith
  stale_callback (receives g cell is_string bytes) e h = ground arith
  stale_callback (changes g cell state) e h = ground arith
  stale_callback (send_fails g cell) e h = ground arith

  stale_callbacks :
      (cs : List Callback) (e : RtcEngine)
      → All (λ c. generation_of c ≢ e.ingress_generation) cs
      → run_callbacks cs e ≡ e
  unfolding run_callbacks
  stale_callbacks [] e all = refl
  stale_callbacks (c ∷ cs) e (h, all) =
      ap (run_callbacks cs) (stale_callback c e h) ∙ stale_callbacks cs e all

  -- Once a new generation is set, nothing that belongs to the peers of other generations changes the
  -- engine: not an opening or a closing, a message, a change of the peer's state, or a failed send.
  pub set_ingress_generation-inert :
      (cs : List Callback) (generation : ℕ) (e : RtcEngine)
      → All (λ c. generation_of c ≢ generation) cs
      → run_callbacks cs (set_ingress_generation generation e) ≡ set_ingress_generation generation e
  unfolding set_ingress_generation
  set_ingress_generation-inert cs generation e all =
      let same : (set_ingress_generation generation e).ingress_generation ≡ generation =
        ground arith in
      stale_callbacks cs (set_ingress_generation generation e)
        (subst (λ g. All (λ c. generation_of c ≢ g) cs) (sym same) all)

  try_send-Appends :
      (e : RtcEngine) (m : IngressMessage)
      → m.generation ≡ e.ingress_generation
      → Fits m.payload
      → Appends e (try_send e m).0
  unfolding Appends try_send
  try_send-Appends e m g f =
      if_elim (λ (x : RtcEngine × Option QueueError). Appends e x.0) (not e.incoming_alive)
        (e, some hung_up)
        (if leb e.incoming_capacity (length e.incoming)
          then (e, some full)
          else (record e { incoming = e.incoming ++ m ∷ [] }, none))
        (λ a. inl refl)
        λ a.
          if_elim (λ (x : RtcEngine × Option QueueError). Appends e x.0)
            (leb e.incoming_capacity (length e.incoming)) (e, some full)
            (record e { incoming = e.incoming ++ m ∷ [] }, none) (λ b. inl refl)
            λ b.
              let room : length e.incoming < e.incoming_capacity = ground (arith, b) in
              inr (m, refl, g, f, omega (arith, room, length-append e.incoming (m ∷ [])))

  enqueue_current-Appends :
      (generation : ℕ) (payload : DcMessage) (e : RtcEngine)
      → Fits payload
      → Appends e (enqueue_current generation payload e)
  unfolding Appends enqueue_current
  enqueue_current-Appends generation payload e f =
      if_elim (Appends e) (not (generation == e.ingress_generation)) e
        (try_send e (record { generation = generation; payload = payload })).0 (λ a. inl refl)
        λ a.
          try_send-Appends e (record { generation = generation; payload = payload })
            (ground (arith, a)) f

  -- What a decoded message keeps.
  message_of-Fits :
      (is_string : Bool) (bytes : Bytes) (payload : DcMessage)
      → message_size_allowed is_string (length bytes) ≡ true
      → message_of utf8 is_string bytes ≡ some payload
      → Fits payload
  unfolding decode_text_message
  message_of-Fits true bytes payload small h =
      let q : text bytes ≡ payload = ground (arith, h) in subst Fits q (ground (arith, small))
  message_of-Fits false bytes payload small h =
      let q : binary bytes ≡ payload = ground (arith, h) in subst Fits q (ground (arith, small))

  decoded-Appends :
      (generation : ℕ) (o : Option DcMessage) (e : RtcEngine)
      → ((p : DcMessage) → o ≡ some p → Fits p)
      → Appends e (if_some o (enqueue_current generation) e)
  unfolding Appends
  decoded-Appends generation none e k = inl refl
  decoded-Appends generation (some p) e k = enqueue_current-Appends generation p e (k p refl)

  -- A callback or a failed send puts at most one message into the incoming queue, as its last. It is of
  -- the generation that is current and within the limit of its kind, and the queue stays within its
  -- capacity.
  pub run_callback-Appends : (c : Callback) (e : RtcEngine) → Appends e (run_callback c e)
  unfolding Appends run_callback on_open on_close on_message on_peer_state record_transport_fault
      enqueue_current
  run_callback-Appends (opens g cell) e = ground arith
  run_callback-Appends (closes g cell) e = ground arith
  run_callback-Appends (receives g cell is_string bytes) e =
      if_elim (Appends e) (is_over (from_u8 (read_cell e.ready_state.cells cell))) e _
        (λ a. inl refl)
        λ a.
          if_elim (Appends e) (not (g == e.ingress_generation)) e _ (λ b. inl refl)
            λ b.
              if_elim (Appends e) (not (message_size_allowed is_string (length bytes))) e _
                (λ c. inl refl)
                λ c.
                  decoded-Appends g (message_of utf8 is_string bytes) e
                    (λ p q. message_of-Fits is_string bytes p (ground (arith, c)) q)
  run_callback-Appends (changes g cell state) e = ground arith
  run_callback-Appends (send_fails g cell) e =
      if_elim (Appends e) (not (g == e.ingress_generation)) e _ (λ a. inl refl)
        λ a.
          let e' = record (store cell closed e) { transport_error = some (fault_of g) } in
          try_send-Appends e' (fault_of g) (ground (arith, a)) tt

  -- A failed send of the current session closes its ready state and keeps its fault for whoever asks for
  -- it, whatever becomes of the copy in the incoming queue; asking for it takes it.
  pub record_transport_fault-retained :
      (cell : ℕ) (e : RtcEngine)
      → ((record_transport_fault e.ingress_generation cell e).transport_error
          ≡ some (fault_of e.ingress_generation))
        × ((record_transport_fault e.ingress_generation cell e).ready_state
            ≡ (store cell closed e).ready_state)
        × ((take_transport_error (record_transport_fault e.ingress_generation cell e)).1
            ≡ some (fault_of e.ingress_generation))
  unfolding record_transport_fault try_send take_transport_error
  record_transport_fault-retained cell e = (ground arith, ground arith, ground arith)
