-- ===== src/Tests/Transport.antt =====
-- An engine of one peer, its callbacks and its commands, and what the signaling client reads.
use Prim.Native.Nat.{◌*◌, ◌+◌}
use unitree_webrtc_rs.Base.{
  ℕ, suc, ◌≡◌, ◌≢◌, ◌⊎◌, ◌≤◌, ◌<◌, refl, Bool, true, false, List, [], ◌∷◌, Bytes, Result, ok, err,
  length, All, replicate, arith,
}
use unitree_webrtc_rs.Diagnostics.{default, u64_max}
use unitree_webrtc_rs.Diagnostics.Counting.{
  Step, records, flushes, reported, recorded, final, reported-recorded,
}
use unitree_webrtc_rs.Engine.Commands.{IsFront, send_commands-IsFront, Waited, wait_open-Waited}
use unitree_webrtc_rs.Engine.Handlers.{failed_peer}
use unitree_webrtc_rs.Engine.Inert.{
  Callback, generation_of, opens, receives, changes, send_fails, run_callback, run_callbacks,
  Appends, set_ingress_generation-inert, run_callback-Appends,
}
use unitree_webrtc_rs.Engine.{
  RtcEngine, EngineCommand, text_command, binary_command, new, start_peer, set_ingress_generation,
  send_command, send_commands, wait_open, max_polls,
}
use unitree_webrtc_rs.Models.{show_nat}
use unitree_webrtc_rs.RtcState.{RtcReadyState, connecting, opened, callback, apply_event}
use unitree_webrtc_rs.Signaling.Bodies.{IsRead, read_chunks-IsRead, signaling_url-names, IsNameByte}
use unitree_webrtc_rs.Signaling.Url.{Hosts, Endpoint, signaling_url}
use unitree_webrtc_rs.Signaling.Wrapper.{calc_local_path_ending}
use unitree_webrtc_rs.Signaling.{read_chunks}

abbrev utf8 : Bytes → Bool
utf8 bytes = true

-- Session 1 with a peer that is connecting.
abbrev engine : RtcEngine
engine = start_peer (set_ingress_generation 1 (new 8))

abbrev old_callbacks : List Callback
old_callbacks =
    opens 1 1 ∷ receives 1 1 true (104 ∷ 105 ∷ []) ∷ changes 1 1 failed_peer ∷ send_fails 1 1 ∷ []

one_not_two : ◌≢◌ {A = ℕ} 1 2
one_not_two p = absurd (omega (arith, p))

old_callbacks-old : All (λ (c : Callback). generation_of c ≢ 2) old_callbacks
old_callbacks-old = (one_not_two, (one_not_two, (one_not_two, (one_not_two, tt))))

set_ingress_generation-inert_example :
    run_callbacks utf8 old_callbacks (set_ingress_generation 2 engine)
    ≡ set_ingress_generation 2 engine
set_ingress_generation-inert_example =
    set_ingress_generation-inert utf8 old_callbacks 2 engine old_callbacks-old

run_callback-received :
    length (run_callback utf8 (receives 1 1 true (104 ∷ 105 ∷ [])) engine).incoming ≡ 1
unfolding run_callback start_peer set_ingress_generation new
run_callback-received = refl

run_callback-Appends_example :
    Appends engine (run_callback utf8 (receives 1 1 true (104 ∷ 105 ∷ [])) engine)
run_callback-Appends_example = run_callback-Appends utf8 (receives 1 1 true (104 ∷ 105 ∷ [])) engine

abbrev opened_engine : RtcEngine
opened_engine = run_callback utf8 (opens 1 1) engine

send_command-opened :
    (send_command (λ q. "refused") (104 ∷ []) (text_command (104 ∷ [])) opened_engine).1 ≡ ok tt
unfolding send_command run_callback start_peer set_ingress_generation new callback apply_event
send_command-opened = refl

abbrev queued : List (ℕ × ℕ × EngineCommand)
queued = (1, 2, text_command (104 ∷ [])) ∷ (1, 2, binary_command (1 ∷ [])) ∷ []

abbrev send_all : EngineCommand → Result (Unit {0})
send_all c = ok tt

send_commands-IsFront_example : IsFront 1 send_all queued (send_commands 1 send_all queued)
send_commands-IsFront_example = send_commands-IsFront 1 send_all queued

abbrev opens_later : ℕ → RtcReadyState
opens_later (suc (suc (suc k))) = opened
opens_later k = connecting

abbrev clock : ℕ → ℕ
clock k = 50 * k

clock-paced : (k : ℕ) → 50 * k ≤ clock k
clock-paced k = omega arith

wait_open-Waited_example :
    Waited opens_later (wait_open "did not open" opens_later clock max_polls 0)
wait_open-Waited_example = wait_open-Waited "did not open" opens_later clock clock-paced

abbrev history : List Step
history = records 0 ∷ records 7 ∷ records 9 ∷ records 6000000000 ∷ records 6000000001 ∷ flushes ∷ []

history-few : 0 + recorded history < u64_max
unfolding recorded
history-few = omega arith

reported-recorded_example :
    reported history default + (final history default).pending ≡ 0 + recorded history
reported-recorded_example = reported-recorded history default history-few

-- The second chunk fails, and a third is never read.
abbrev broken_body : List (Result Bytes)
broken_body = ok (1 ∷ 2 ∷ []) ∷ err "reset" ∷ ok (3 ∷ []) ∷ []

read_chunks-IsRead_example : IsRead [] broken_body (read_chunks [] broken_body)
read_chunks-IsRead_example = read_chunks-IsRead [] broken_body (omega arith)

path_of_symbols : calc_local_path_ending (replicate 20 66) ≡ "11111"
unfolding calc_local_path_ending show_nat
path_of_symbols = refl

abbrev names_only : Hosts
names_only = record { is_ip = λ h. false; is_ipv6 = λ h. false; keeps_host = λ h. true }

-- "go2.lan."
abbrev robot : Bytes
robot = 111 ∷ 50 ∷ 46 ∷ 108 ∷ 97 ∷ 110 ∷ 46 ∷ []

abbrev endpoint : Endpoint
endpoint = record { host = 103 ∷ robot; port = 8081; path = "/offer" }

robot-accepted : signaling_url names_only (103 ∷ robot) 8081 "/offer" ≡ ok endpoint
unfolding signaling_url
robot-accepted = refl

signaling_url-names_example :
    (endpoint ≡ record { host = 103 ∷ robot; port = 8081; path = "/offer" })
    × ((◌≡◌ {A = ℕ} 103 91) ⊎ ((false ≡ true) ⊎ All IsNameByte (103 ∷ robot)))
signaling_url-names_example =
    signaling_url-names names_only 103 robot 8081 "/offer" endpoint robot-accepted
