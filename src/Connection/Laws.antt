-- ===== src/Connection/Laws.antt =====
-- What an attempt of src/connection relies on, and what is left once it was undone.
use unitree_webrtc_rs.Base.{◌≡◌, ◌⊎◌, refl, true, false, none, ok, arith}
use unitree_webrtc_rs.Connection.Lifecycle.{
  stop_audio_sender, stop_data_channel, start_cleanup, take_cleanup, undo,
}
use unitree_webrtc_rs.Connection.Service.{rollback_connection}
use unitree_webrtc_rs.Connection.{Ports, State}

-- What the data channel service and the engine promise to an attempt.
pub record Laws (P : Ports) : Type 0 where
  pub stop-closed : (w : P.World) → P.is_open (P.stop_background_tasks w) ≡ false
  pub close-closed : (w : P.World) → P.is_open w ≡ false → P.is_open (P.close w) ≡ false
  pub wait-opened :
      (w : P.World)
      → (P.wait_datachannel_open w).1 ≡ ok tt
      → P.is_open (P.wait_datachannel_open w).0 ≡ true

module _ (P : Ports) where
  -- Nothing of a session is left: the flag, the data channel, the audio, and the engine, which was
  -- closed last.
  pub record IsClean (s : State P) : Type 0 where
    pub disconnected : s.is_connected ≡ false
    pub channel : P.is_open s.world ≡ false
    pub sender : s.audio.sender ≡ none
    pub cleanup : s.audio.cleanup ≡ none
    pub engine : (w : P.World) × (s.world ≡ P.close w)

  -- One sender, or one cleanup task.
  abbrev pub IsOwned : State P → Type 0
  IsOwned s = (s.audio.cleanup ≡ none) ⊎ (s.audio.sender ≡ none)

  pub stopped-none :
      (s : State P)
      → IsOwned s
      → ((stop_audio_sender P s).0.audio.sender ≡ none)
        × ((stop_audio_sender P s).0.audio.cleanup ≡ none)
  unfolding stop_audio_sender start_cleanup take_cleanup
  stopped-none s o = ground (arith, o)

  -- What a rollback leaves alone.
  pub undo-IsClean : Laws P → (s : State P) → IsOwned s → IsClean (undo P s)
  unfolding undo stop_audio_sender stop_data_channel rollback_connection take_cleanup start_cleanup
  undo-IsClean L s o =
      let (p, q) = stopped-none s o in
      record {
        disconnected = refl;
        channel = L.close-closed _ (L.stop-closed _);
        sender = p;
        cleanup = q;
        engine = (_, refl);
      }
