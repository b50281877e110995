-- ===== src/Engine/Commands.antt =====
-- The commands of rtc_engine/engine.rs, from the port to the data channel, and the wait for its opening.
use Prim.Native.Nat.{◌+◌, ◌*◌, ◌≤◌, ◌<◌}
use unitree_webrtc_rs.Base.{
  ℕ, zero, suc, ◌≡◌, ◌≢◌, ◌⊎◌, refl, ap, inl, inr, true, false, not, Option, none, some, List, [],
  ◌∷◌, ◌++◌, String, Bytes, Result, ok, err, ◌==◌, ltb, length, All, Bool-cases, if_elim, arith,
}
use unitree_webrtc_rs.Engine.{
  RtcEngine, EngineCommand, command_queue_capacity, max_command_bytes, send_commands, wait_open,
  max_polls, is_open, polled, after_send,
}
use unitree_webrtc_rs.RtcState
use unitree_webrtc_rs.RtcState.{
  RtcReadyState, closed, connecting, opened, disconnected, failed, from_u8,
}

abbrev pub commands_of : List (ℕ × ℕ × EngineCommand) → List EngineCommand
commands_of [] = []
commands_of ((current, state, command) ∷ rest) = command ∷ commands_of rest

-- The reasons to refuse a command: its size, the channel, no peer, a task that has ended, a full queue.
abbrev pub Refusal : Bytes → RtcEngine → Type 0
Refusal bytes e =
    (max_command_bytes < length bytes)
    ⊎ ((is_open (RtcState.get e.ready_state) ≡ false)
        ⊎ ((e.command_tx ≡ none)
            ⊎ ((e.command_task ≡ none)
                ⊎ ((queue : List EngineCommand) × (e.command_tx ≡ some queue)
                    × (command_queue_capacity ≤ length queue)))))

-- A command that was accepted, or an engine that did not change and a reason.
unfoldable pub CommandOutcome :
    Bytes → EngineCommand → RtcEngine → RtcEngine × Result (Unit {0}) → Type 0
CommandOutcome bytes command e (e', r) =
    ((queue : List EngineCommand) × (e.command_tx ≡ some queue)
      × (e' ≡ record e { command_tx = some (queue ++ command ∷ []) })
      × (r ≡ ok tt)
      × (length bytes ≤ max_command_bytes)
      × (length queue < command_queue_capacity)
      × (is_open (RtcState.get e.ready_state) ≡ true))
    ⊎ ((t : String) × (e' ≡ e) × (r ≡ err t) × Refusal bytes e)

-- A command as the task receives it: the generation and the ready state then, and the command.
abbrev pub Item : Type 0
Item = ℕ × ℕ × EngineCommand

module _ (generation : ℕ) (send : EngineCommand → Result (Unit {0})) where
  -- Received in the task's own session, and while the channel was open.
  abbrev pub IsCurrent : Item → Type 0
  IsCurrent (current, state, command) = (generation ≡ current) × (is_open (from_u8 state) ≡ true)

  abbrev pub IsDelivered : Item → Type 0
  IsDelivered c = IsCurrent c × (send c.2 ≡ ok tt)

  -- What stopped the task at a command: another session, a closed channel, or a send that failed.
  abbrev pub StopsAt : Item → List EngineCommand → List EngineCommand → Result (Unit {0}) → Type 0
  StopsAt c delivered sent r =
      (◌≢◌ {A = ℕ} generation c.0 × (r ≡ ok tt) × (sent ≡ delivered))
      ⊎ (((generation ≡ c.0)
            × (is_open (from_u8 c.1) ≡ false)
            × (r ≡ err "DataChannel closed before queued command was sent")
            × (sent ≡ delivered))
          ⊎ ((e : String) × IsCurrent c
              × (send c.2 ≡ err e)
              × (r ≡ err e)
              × (sent ≡ delivered ++ c.2 ∷ [])))

  -- The commands that were delivered, in order, and what stopped the task behind them, if anything did.
  unfoldable pub IsFront : List Item → List EngineCommand × Result (Unit {0}) → Type 0
  IsFront commands (sent, r) =
      (front : List Item) × (rest : List Item) × (commands ≡ front ++ rest)
      × All IsDelivered front
      × (((rest ≡ []) × (r ≡ ok tt) × (sent ≡ commands_of front))
          ⊎ ((c : Item) × (later : List Item) × (rest ≡ c ∷ later)
              × StopsAt c (commands_of front) sent r))

  stopped-IsFront :
      (c : Item) (commands : List Item) (sent : List EngineCommand) (r : Result (Unit {0}))
      → StopsAt c [] sent r
      → IsFront (c ∷ commands) (sent, r)
  unfolding IsFront
  stopped-IsFront c commands sent r stop =
      ([], c ∷ commands, refl, tt, inr (c, commands, refl, stop))

  longer-StopsAt :
      (command : EngineCommand) (c : Item) (delivered sent : List EngineCommand)
      (r : Result (Unit {0}))
      → StopsAt c delivered sent r
      → StopsAt c (command ∷ delivered) (command ∷ sent) r
  longer-StopsAt command c delivered sent r (inl (n, p, q)) = inl (n, p, ap (λ cs. command ∷ cs) q)
  longer-StopsAt command c delivered sent r (inr (inl (g, o, p, q))) =
      inr (inl (g, o, p, ap (λ cs. command ∷ cs) q))
  longer-StopsAt command c delivered sent r (inr (inr (e, now, f, p, q))) =
      inr (inr (e, now, f, p, ap (λ cs. command ∷ cs) q))

  after_send-IsFront :
      (c : Item) (result : Result (Unit {0})) (commands : List Item)
      (x : List EngineCommand × Result (Unit {0}))
      → IsCurrent c
      → send c.2 ≡ result
      → IsFront commands x
      → IsFront (c ∷ commands) (after_send c.2 result x)
  unfolding IsFront
  after_send-IsFront c (err e) commands x now f front =
      stopped-IsFront c commands (c.2 ∷ []) (err e) (inr (inr (e, now, f, refl, refl)))
  after_send-IsFront c (ok u) commands (sent, r) now f (front, rest, p, all, inl (n, o, q)) =
      (c ∷ front, rest, ap (λ cs. c ∷ cs) p, ((now, f), all), inl (n, o, ap (λ cs. c.2 ∷ cs) q))
  after_send-IsFront c (ok u) commands (sent, r) now f
        (front, rest, p, all, inr (d, later, n, stop)) =
      (
        c ∷ front,
        rest,
        ap (λ cs. c ∷ cs) p,
        ((now, f), all),
        inr (d, later, n, longer-StopsAt c.2 d (commands_of front) sent r stop),
      )

  -- The commands reach the channel in the order in which they were queued. Those of a front of the queue
  -- were each received in the task's session, while the channel was open, and sent; and then the queue was
  -- empty, or the task stopped at the command behind them and handed over nothing more: because that was
  -- received in another session, which is no error; because the channel was no longer open; or because
  -- this command's own send failed.
  pub send_commands-IsFront :
      (commands : List Item) → IsFront commands (send_commands generation send commands)
  unfolding IsFront send_commands
  send_commands-IsFront [] = ([], [], refl, tt, inl (refl, refl, refl))
  send_commands-IsFront ((current, state, command) ∷ commands) =
      let c : Item = (current, state, command) in
      if_elim (IsFront (c ∷ commands)) (not (generation == current)) _ _
        (λ a. stopped-IsFront c commands [] _ (inl (λ p. ground (arith, a, p), refl, refl)))
        λ a.
          if_elim (IsFront (c ∷ commands)) (not (is_open (from_u8 state))) _ _
            (λ b.
              stopped-IsFront c commands [] _
                (inr (inl (ground (arith, a), ground (arith, b), refl, refl))))
            λ b.
              after_send-IsFront c (send command) commands (send_commands generation send commands)
                (ground (arith, a), ground (arith, b)) refl (send_commands-IsFront commands)

-- A poll that ends the wait, and where it found the channel open.
unfoldable pub Waited : (ℕ → RtcReadyState) → Option (Result (Unit {0})) → Type 0
Waited state o = (r : Result (Unit {0})) × (o ≡ some r) × (r ≡ ok tt → (k : ℕ) × (state k ≡ opened))

polled-Waited :
    (state : ℕ → RtcReadyState) (poll : ℕ) (s : RtcReadyState) (next : Option (Result (Unit {0})))
    → state poll ≡ s
    → Waited state next
    → Waited state (polled s next)
unfolding Waited
polled-Waited state poll opened next p w = (ok tt, refl, λ h. (poll, p))
polled-Waited state poll closed next p w = (_, refl, λ h. absurd (ground (arith, h)))
polled-Waited state poll failed next p w = (_, refl, λ h. absurd (ground (arith, h)))
polled-Waited state poll connecting next p w = w
polled-Waited state poll disconnected next p w = w

wait_from :
    (diagnostic : String) (state : ℕ → RtcReadyState) (elapsed : ℕ → ℕ) (fuel poll : ℕ)
    → ((k : ℕ) → 50 * k ≤ elapsed k)
    → 601 < fuel + poll
    → poll ≤ 601
    → Waited state (wait_open diagnostic state elapsed fuel poll)
unfolding Waited wait_open
wait_from diagnostic state elapsed zero poll paced enough low = absurd (omega arith)
wait_from diagnostic state elapsed (suc fuel) poll paced enough low =
    polled-Waited state poll (state poll) _ refl (elim (Bool-cases (ltb 30000 (elapsed poll))) [
      | inl e ↦ rw e (err diagnostic, refl, λ h. absurd (ground (arith, h)))
      | inr e ↦
          let early : poll ≤ 600 = ground (arith, e, paced poll) in
          rw e (
            wait_from diagnostic state elapsed fuel (poll + 1) paced (omega (arith, enough))
              (omega (arith, early)))
    ])

-- The wait for the data channel ends: if each poll comes 50 ms after the last at the earliest, it returns
-- after 602 polls at most. If it succeeds, some poll found the channel open.
pub wait_open-Waited :
    (diagnostic : String) (state : ℕ → RtcReadyState) (elapsed : ℕ → ℕ)
    → ((k : ℕ) → 50 * k ≤ elapsed k)
    → Waited state (wait_open diagnostic state elapsed max_polls 0)
wait_open-Waited diagnostic state elapsed paced =
    wait_from diagnostic state elapsed max_polls 0 paced (omega arith) (omega arith)
