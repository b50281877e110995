-- ===== src/Connection/Done.antt =====
-- What an attempt of src/connection that ended well did: it was never cut short.
use unitree_webrtc_rs.Base.{
  ◌≡◌, refl, ap, sym, ◌∙◌, Bool, true, false, Option, String, Result, ok, if◌then◌else◌, arith,
}
use unitree_webrtc_rs.Connection.Lifecycle.{
  SessionConnect, is_connect, stop_audio_in_attempt, prepare_ingress, stop_data_channel,
  start_cleanup, take_cleanup, session_body,
}
use unitree_webrtc_rs.Connection.Laws.{Laws}
use unitree_webrtc_rs.Connection.Service.{
  connect_inner, connect_in_attempt, in_time, rollback_in_attempt, target_ip, offer_payload, await,
  arrive, await_in_time,
}
use unitree_webrtc_rs.Connection.{
  Ports, State, WebRtcConnectionMethod, Ending, done, failed, dropped, elapsed, of_result,
  ◌and_then◌,
}

and_then-done {ℓ κ λ'} :
    {S : Type ℓ} {A : Type κ} {B : Type λ'} (r : S × Ending A) (next : A → S → S × Ending B)
    (s' : S) (b : B)
    → (r and_then next) ≡ (s', done b)
    → (a : A) × (s : S) × (r ≡ (s, done a)) × (next a s ≡ (s', done b))
and_then-done (s, done a) next s' b h = (a, s, refl, h)
and_then-done (s, failed e) next s' b h = absurd (ground arith)
and_then-done (s, dropped) next s' b h = absurd (ground arith)
and_then-done (s, elapsed) next s' b h = absurd (ground arith)

module _ (P : Ports) where
  -- An operation that ended well kept all of this.
  pub record Stays (s s' : State P) : Type 0 where
    pub connected : s'.is_connected ≡ s.is_connected
    pub intention : s'.intentional_disconnect ≡ s.intentional_disconnect
    pub version : s'.version ≡ s.version

  await-done {ℓ} :
      {A : Type ℓ} (operation : P.World → P.World × Result A) (s s' : State P) (a : A)
      → await P operation s ≡ (s', done a)
      → Stays s s' × (s'.world ≡ (operation s.world).0) × ((operation s.world).1 ≡ ok a)
  unfolding await arrive
  await-done operation s s' a h = ground (arith, h)

  await_in_time-done {ℓ} :
      {A : Type ℓ} (operation : P.World → P.World × Result A) (s s' : State P) (a : A)
      → await_in_time P operation s ≡ (s', done a)
      → Stays s s'
  unfolding await_in_time arrive
  await_in_time-done operation s s' a h = ground (arith, h)

  -- What holds of the attempt's own cancellation after its successful part.
  abbrev pub Uncut : State P → State P → Type 0
  Uncut s s' = (s'.intentional_disconnect ≡ s.intentional_disconnect) × (s'.version ≡ s.version)

  uncut : (s s' s'' : State P) → Uncut s s' → Uncut s' s'' → Uncut s s''
  uncut s s' s'' (p, q) (p', q') = (p' ∙ p, q' ∙ q)

  along : (s s' : State P) → s ≡ s' → Uncut s s'
  along s s' p = (ap (λ x. x.intentional_disconnect) (sym p), ap (λ x. x.version) (sym p))

  of_stays : (s s' : State P) → Stays s s' → Uncut s s'
  of_stays s s' k = (k.intention, k.version)

  module _ (method : WebRtcConnectionMethod) (ip : Option String) where
    connect_inner-done :
        (s s' : State P)
        → connect_inner P method ip s ≡ (s', done tt)
        → (s'.is_connected ≡ true) × Uncut s s'
    unfolding connect_inner
    connect_inner-done s s' h =
        let (target, s1, e1, h1) = and_then-done (s, of_result (target_ip P method ip)) _ s' tt h in
        let (offer, s2, e2, h2) = and_then-done (await_in_time P P.prepare_offer s1) _ s' tt h1 in
        let (answer, s3, e3, h3) =
          and_then-done
            (await_in_time P (P.exchange_sdp target (P.print_json (offer_payload P method offer)))
              s2)
            _ s' tt h2 in
        let (u, s4, e4, h4) =
          and_then-done (await_in_time P (P.apply_answer answer) s3) _ s' tt h3 in
        let k2 = await_in_time-done P.prepare_offer s1 s2 offer e2 in
        let k3 =
          await_in_time-done (P.exchange_sdp target (P.print_json (offer_payload P method offer)))
            s2 s3 answer e3 in
        let k4 = await_in_time-done (P.apply_answer answer) s3 s4 u e4 in
        let p : s ≡ s1 = ap (λ x. x.0) e1 in
        let q : record s4 { is_connected = true } ≡ s' = ap (λ x. x.0) h4 in
        (
          ap (λ x. x.is_connected) (sym q),
          uncut s s1 s' (along s s1 p) (
              uncut s1 s2 s' (of_stays s1 s2 k2) (
                uncut s2 s3 s' (of_stays s2 s3 k3) (
                  uncut s3 s4 s' (of_stays s3 s4 k4)
                    (along (record s4 { is_connected = true }) s' q)))),
        )

    -- Of a started attempt, on whether it closes the engine first.
    begun :
        (reconnect : Bool) (s s' : State P) (u : Unit {0})
        → (if reconnect then rollback_in_attempt P s else (s, done tt)) ≡ (s', done u)
        → Uncut s s'
    unfolding rollback_in_attempt
    begun false s s' u h = along s s' (ap (λ x. x.0) h)
    begun true s s' u h =
        let start = record s { is_connected = false } in
        let (k, _, _) = await-done (λ w. (P.close w, ok tt)) start s' u h in of_stays start s' k

    in_time-done :
        (r : State P × Ending (Unit {0})) (s' : State P)
        → in_time P r ≡ (s', done tt)
        → r ≡ (s', done tt)
    unfolding in_time
    in_time-done (s, done u) s' h = h
    in_time-done (s, failed e) s' h = absurd (ground (arith, h))
    in_time-done (s, dropped) s' h = absurd (ground (arith, h))
    in_time-done (s, elapsed) s' h = absurd (ground (arith, h))

    connect_in_attempt-done :
        (reconnect : Bool) (s s' : State P)
        → connect_in_attempt P method ip reconnect s ≡ (s', done tt)
        → (s'.is_connected ≡ true) × Uncut s s'
    unfolding connect_in_attempt
    connect_in_attempt-done reconnect s s' h =
        let start = record s { is_connected = false } in
        let (u, s1, e1, h1) =
          and_then-done (if reconnect then rollback_in_attempt P start else (start, done tt)) _ s'
            tt h in
        let (c, k) = connect_inner-done s1 s' (in_time-done (connect_inner P method ip s1) s' h1) in
        (c, uncut start s1 s' (begun reconnect start s1 u e1) k)

    stop_audio_in_attempt-done :
        (s s' : State P) (u : Unit {0}) → stop_audio_in_attempt P s ≡ (s', done u) → Uncut s s'
    unfolding stop_audio_in_attempt start_cleanup take_cleanup await arrive
    stop_audio_in_attempt-done s s' u h = ground (arith, h)

    pub session_body-done :
        Laws P
        → (mode : SessionConnect) (s s' : State P) → session_body P method ip mode s ≡ (s', done tt)
        → (s'.is_connected ≡ true) × (P.is_open s'.world ≡ true) × Uncut s s'
    unfolding session_body prepare_ingress stop_data_channel
    session_body-done L mode s s' h =
        let (u1, s1, e1, h1) = and_then-done (stop_audio_in_attempt P s) _ s' tt h in
        let (u2, s2, e2, h2) =
          and_then-done (prepare_ingress P (stop_data_channel P s1)) _ s' tt h1 in
        let (u3, s3, e3, h3) =
          and_then-done
            (connect_in_attempt P method ip (if is_connect mode then false else true) s2) _ s' tt
            h2 in
        let k1 = stop_audio_in_attempt-done s s1 u1 e1 in
        let (c, k3) = connect_in_attempt-done (if is_connect mode then false else true) s2 s3 e3 in
        let (k4, w, o) = await-done P.wait_datachannel_open s3 s' tt h3 in
        let k2 : Uncut s1 s2 =
          along (prepare_ingress P (stop_data_channel P s1)).0 s2 (ap (λ x. x.0) e2) in
        (
          k4.connected ∙ c,
          ap P.is_open w ∙ L.wait-opened s3.world o,
          uncut s s1 s' k1 (uncut s1 s2 s' k2 (uncut s2 s3 s' k3 (of_stays s3 s' k4))),
        )
