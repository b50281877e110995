-- ===== src/Connection/Settled.antt =====
-- How an attempt of src/connection/lifecycle.rs ends: connected, or with nothing left of it.
use unitree_webrtc_rs.Base.{
  ℕ, ◌≡◌, ◌⊎◌, refl, sym, ◌∙◌, subst, inl, inr, Bool, true, false, ◌&&◌, Option, String, Result, ok,
  err, and_both, Bool-cases, ◌==◌, if◌then◌else◌, arith,
}
use unitree_webrtc_rs.Connection.Lifecycle.{
  SessionConnect, is_connect, is_retry, stop_audio_in_attempt, prepare_ingress,
  connect_validated_session, stop_data_channel, start_cleanup, take_cleanup, undone_on_error,
  session_body,
}
use unitree_webrtc_rs.Connection.Done.{session_body-done}
use unitree_webrtc_rs.Connection.Laws.{Laws, IsOwned, IsClean, undo-IsClean}
use unitree_webrtc_rs.Connection.Service.{
  run, finished, cancelled_text, connect_inner, connect_in_attempt, in_time, rollback_in_attempt,
  target_ip, offer_payload, await, arrive, await_in_time, request_disconnect,
}
use unitree_webrtc_rs.Connection.{
  Ports, State, WebRtcConnectionMethod, Ending, done, failed, dropped, elapsed, of_result,
  ◌and_then◌,
}

and_then-keeps {ℓ κ λ' μ} :
    {S : Type ℓ} {A : Type κ} {B : Type λ'} (Q : S → Type μ) (r : S × Ending A)
    (next : A → S → S × Ending B)
    → Q r.0
    → ((a : A) (s : S) → Q s → Q (next a s).0)
    → Q (r and_then next).0
and_then-keeps Q (s, done a) next q k = k a s q
and_then-keeps Q (s, failed e) next q k = q
and_then-keeps Q (s, dropped) next q k = q
and_then-keeps Q (s, elapsed) next q k = q

module _ (P : Ports) where
  abbrev Owned : State P → Type 0
  Owned = IsOwned P

  await-IsOwned {ℓ} :
      {A : Type ℓ} (operation : P.World → P.World × Result A) (s : State P)
      → Owned s
      → Owned (await P operation s).0
  unfolding await arrive request_disconnect
  await-IsOwned operation s o = ground (arith, o)

  await_in_time-IsOwned {ℓ} :
      {A : Type ℓ} (operation : P.World → P.World × Result A) (s : State P)
      → Owned s
      → Owned (await_in_time P operation s).0
  unfolding await_in_time arrive request_disconnect
  await_in_time-IsOwned operation s o = ground (arith, o)

  stop_audio-IsOwned : (s : State P) → Owned s → Owned (stop_audio_in_attempt P s).0
  unfolding stop_audio_in_attempt start_cleanup take_cleanup await arrive request_disconnect
  stop_audio-IsOwned s o = ground (arith, o)

  module _ (method : WebRtcConnectionMethod) (ip : Option String) where
    inner-IsOwned : (s : State P) → Owned s → Owned (connect_inner P method ip s).0
    unfolding connect_inner
    inner-IsOwned s o =
        and_then-keeps Owned (s, of_result (target_ip P method ip)) _ o
          λ target s1 o1.
            and_then-keeps Owned (await_in_time P P.prepare_offer s1) _
              (await_in_time-IsOwned P.prepare_offer s1 o1)
              λ offer s2 o2.
                let exchange =
                  P.exchange_sdp target (P.print_json (offer_payload P method offer)) in
                and_then-keeps Owned (await_in_time P exchange s2) _
                  (await_in_time-IsOwned exchange s2 o2)
                  λ answer s3 o3.
                    and_then-keeps Owned (await_in_time P (P.apply_answer answer) s3) _
                      (await_in_time-IsOwned (P.apply_answer answer) s3 o3) λ u s4 o4. o4

    in_time-IsOwned : (r : State P × Ending (Unit {0})) → Owned r.0 → Owned (in_time P r).0
    unfolding in_time
    in_time-IsOwned (s, done u) o = o
    in_time-IsOwned (s, failed e) o = o
    in_time-IsOwned (s, dropped) o = o
    in_time-IsOwned (s, elapsed) o = o

    start-IsOwned :
        (reconnect : Bool) (s : State P)
        → Owned s
        → Owned (if reconnect then rollback_in_attempt P s else (s, done tt)).0
    unfolding rollback_in_attempt
    start-IsOwned false s o = o
    start-IsOwned true s o =
        await-IsOwned (λ w. (P.close w, ok tt)) (record s { is_connected = false }) o

    connect_in_attempt-IsOwned :
        (reconnect : Bool) (s : State P)
        → Owned s
        → Owned (connect_in_attempt P method ip reconnect s).0
    unfolding connect_in_attempt
    connect_in_attempt-IsOwned reconnect s o =
        let start = record s { is_connected = false } in
        and_then-keeps Owned (if reconnect then rollback_in_attempt P start else (start, done tt)) _
          (start-IsOwned reconnect start o)
          λ u s1 o1. in_time-IsOwned (connect_inner P method ip s1) (inner-IsOwned s1 o1)

    session_body-IsOwned :
        (mode : SessionConnect) (s : State P) → Owned s → Owned (session_body P method ip mode s).0
    unfolding session_body stop_data_channel prepare_ingress
    session_body-IsOwned mode s o =
        and_then-keeps Owned (stop_audio_in_attempt P s) _ (stop_audio-IsOwned s o) λ u s1 o1.
          and_then-keeps Owned (prepare_ingress P (stop_data_channel P s1)) _ o1 λ u s2 o2.
            let reconnect = if is_connect mode then false else true in
            and_then-keeps Owned (connect_in_attempt P method ip reconnect s2) _
              (connect_in_attempt-IsOwned reconnect s2 o2)
              λ u s3 o3. await-IsOwned P.wait_datachannel_open s3 o3

    -- The two ways in which an attempt ends.
    abbrev pub Established : ℕ → State P → State P → Type 0
    Established version s s' =
        (s'.is_connected ≡ true)
        × (P.is_open s'.world ≡ true)
        × (s'.intentional_disconnect ≡ false)
        × (s.version ≡ version)
        × (s'.version ≡ version)
        × IsOwned P s'

    unfoldable pub SettledAs : SessionConnect → ℕ → State P → State P × Result (Unit {0}) → Type 0
    SettledAs mode version s (s', r) =
        ((r ≡ ok tt) × Established version s s')
        ⊎ ((e : String) × (r ≡ err e)
            × (IsClean P s'
                ⊎ ((s' ≡ s) × (is_retry mode ≡ true) × (s.intentional_disconnect ≡ true))))

    ended-Settled :
        Laws P
        → (mode : SessionConnect) (version : ℕ) (s : State P) (x : State P × Ending (Unit {0}))
        → Owned x.0
        → (x ≡ (x.0, done tt) → Established version s x.0)
        → SettledAs mode version s (undone_on_error P (finished P x))
    unfolding SettledAs finished
    ended-Settled L mode version s (s', done u) o k = inl (refl, k refl)
    ended-Settled L mode version s (s', failed t) o k = inr (t, refl, inl (undo-IsClean P L s' o))
    ended-Settled L mode version s (s', dropped) o k = inr (_, refl, inl (undo-IsClean P L s' o))
    ended-Settled L mode version s (s', elapsed) o k = inr (_, refl, inl (undo-IsClean P L s' o))

    run-Settled :
        Laws P
        → (mode : SessionConnect) (version : ℕ) (s : State P) → Owned s
        → SettledAs mode version s
            (undone_on_error P (run P version (session_body P method ip mode) s))
    unfolding SettledAs run
    run-Settled L mode version s o =
        let start = record s { intentional_disconnect = false } in
        let body = session_body P method ip mode in
        let Goal : State P × Result (Unit {0}) → Type 0 =
          λ x. SettledAs mode version s (undone_on_error P x) in
        elim (Bool-cases (s.version == version)) [
          | inr e ↦
              let p : run P version body s ≡ (s, err (cancelled_text P)) = rw (e, run) refl in
              subst Goal (sym p) (inr (_, refl, inl (undo-IsClean P L s o)))
          | inl e ↦
              let p : run P version body s ≡ finished P (body start) = rw (e, run) refl in
              let same : s.version ≡ version = ground arith in
              subst Goal (sym p) (
                ended-Settled L mode version s (body start) (session_body-IsOwned mode start o) λ q.
                  let (c, o', uv) = session_body-done P method ip L mode start (body start).0 q in
                  (c, o', uv.0, same, uv.1 ∙ same, session_body-IsOwned mode start o))
        ]

    -- An attempt to connect a validated session either succeeds or is undone. It succeeds only if no
    -- disconnect was requested since it was queued, and then the transport is connected and the data
    -- channel validated. If it fails, at whatever step, the transport is closed and not connected, the
    -- data channel is not open, and no audio sender or cleanup is left; or it was a retry that found an
    -- intended disconnect, and changed nothing. Before, there is an audio sender or a cleanup at most.
    pub connect_validated_session-Settled :
        Laws P
        → (mode : SessionConnect) (version : ℕ) (s : State P) → IsOwned P s
        → SettledAs mode version s (connect_validated_session P method ip mode version s)
    unfolding SettledAs connect_validated_session
    connect_validated_session-Settled L mode version s o =
        elim (Bool-cases (is_retry mode && s.intentional_disconnect)) [
          | inl e ↦
              let (a, b) = and_both (is_retry mode) s.intentional_disconnect e in
              let p : connect_validated_session P method ip mode version s
                  ≡ (s, err "Reconnect cancelled by intentional disconnect") =
                rw (e, connect_validated_session) refl in
              subst (SettledAs mode version s) (sym p) (inr (_, refl, inr (refl, a, b)))
          | inr e ↦
              let p : connect_validated_session P method ip mode version s
                  ≡ undone_on_error P (run P version (session_body P method ip mode) s) =
                rw (e, connect_validated_session) refl in
              subst (SettledAs mode version s) (sym p) (run-Settled L mode version s o)
        ]
