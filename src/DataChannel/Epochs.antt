-- ===== src/DataChannel/Epochs.antt =====
-- A session that has ended leaves nothing behind, and nothing of it comes in any more.
use Prim.Native.Nat.{◌^◌}
use unitree_webrtc_rs.Base.{ℕ, ◌≡◌, ◌<◌, refl, false, none, some, [], String, ◌==◌, arith}
use unitree_webrtc_rs.Base.Dict.{lookup}
use unitree_webrtc_rs.Chunks
use unitree_webrtc_rs.DataChannel.Pending.{fail_all_pending}
use unitree_webrtc_rs.DataChannel.Router.{process_ingress, process_payload}
use unitree_webrtc_rs.DataChannel.Session.{
  next_session, start_new_session, stop_background_tasks, transport_failed, heartbeat_round,
}
use unitree_webrtc_rs.DataChannel.State.{Service, Port, PendingCallback}
use unitree_webrtc_rs.DataChannel.Waiters.{IsAnswered, fail_each_all}
use unitree_webrtc_rs.Lidar.Metadata.{Floats}
use unitree_webrtc_rs.Models.{DcMessage, transport_fault}

-- Nothing waits, nothing is half assembled, no worker runs, and the channel is not open.
pub record IsClosed (s : Service) : Type 0 where
  pub no_requests : s.pending_callbacks ≡ []
  pub no_chunks : s.chunk_data_storage ≡ Chunks.empty
  pub no_heartbeat : s.heartbeat_running ≡ false
  pub no_worker : s.heartbeat_stop_tx ≡ none
  pub no_probe : s.network_probe_running ≡ false
  pub not_opened : s.data_channel_opened ≡ false

next_session-ne : (n : ℕ) → n < 2 ^ 64 → (n == next_session n) ≡ false
next_session-ne n h = ground arith

-- What a session's end does: the state is closed, and every request that waited is answered. `deaf` and
-- `beatless` are about every later state `t` of the session that follows, whatever runs in it.
pub record Ends (F : Floats) (s s' : Service) : Type 0 where
  pub closed : IsClosed s'
  pub answered :
      (k : String) (c : PendingCallback)
      → lookup k s.pending_callbacks ≡ some c
      → IsAnswered c.token s'.resolved
  pub deaf :
      (port : Port) (m : DcMessage) (t : Service)
      → t.session_id ≡ s'.session_id
      → process_ingress F port t (record { generation = s.session_id; payload = m }) ≡ t
  pub beatless :
      (port : Port) (t : Service)
      → t.session_id ≡ s'.session_id
      → heartbeat_round port s.session_id t ≡ (t, false)

module _ (F : Floats) (port : Port) (n : ℕ) (t : Service) (bound : n < 2 ^ 64)
    (later : t.session_id ≡ next_session n) where
  later-ne : (n == t.session_id) ≡ false
  later-ne = rw later (next_session-ne n bound)

  later-deaf :
      (m : DcMessage) → process_ingress F port t (record { generation = n; payload = m }) ≡ t
  unfolding process_ingress
  later-deaf m = rw later-ne refl

  later-beatless : heartbeat_round port n t ≡ (t, false)
  unfolding heartbeat_round
  later-beatless = ground (arith, later-ne)

-- A transport fault ends the session that is current: nothing waits or runs any more, every request
-- that waited is answered, and in every state of the session that follows, also one whose own heartbeat
-- runs, no message and no heartbeat round of the ended session does anything. Session ids are below
-- 2 ^ 64.
pub transport_fault-Ends :
    (F : Floats) (port : Port) (s : Service) (error : String)
    → s.session_id < 2 ^ 64
    → Ends F s (process_payload F port s (transport_fault error))
unfolding process_payload transport_failed fail_all_pending Chunks.clear
transport_fault-Ends F port s error h = record {
  closed = record {
    no_requests = refl;
    no_chunks = refl;
    no_heartbeat = refl;
    no_worker = refl;
    no_probe = refl;
    not_opened = refl;
  };
  answered = λ k c e. fail_each_all error s.pending_callbacks s.resolved k c e;
  deaf = λ port' m t e. later-deaf F port' s.session_id t h e m;
  beatless = λ port' t e. later-beatless F port' s.session_id t h e;
}

-- `start_new_session` and `stop_background_tasks` end the session that they find: nothing waits or
-- runs any more, every request that waited is answered, and in every state of the session that follows,
-- also one whose own heartbeat runs, no message and no heartbeat round of the ended session does
-- anything. Session ids are below 2 ^ 64.
pub stop_background_tasks-Ends :
    (F : Floats) (s : Service)
    → s.session_id < 2 ^ 64
    → Ends F s (start_new_session s) × Ends F s (stop_background_tasks s)
unfolding start_new_session stop_background_tasks fail_all_pending Chunks.clear
stop_background_tasks-Ends F s h = (ended, ended)
  where
    ended : Ends F s (start_new_session s)
    ended = record {
      closed = record {
        no_requests = refl;
        no_chunks = refl;
        no_heartbeat = refl;
        no_worker = refl;
        no_probe = refl;
        not_opened = refl;
      };
      answered =
          λ k c e. fail_each_all "DataChannel session reset" s.pending_callbacks s.resolved k c e;
      deaf = λ port' m t e. later-deaf F port' s.session_id t h e m;
      beatless = λ port' t e. later-beatless F port' s.session_id t h e;
    }
