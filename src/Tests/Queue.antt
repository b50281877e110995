-- ===== src/Tests/Queue.antt =====
-- An event queue of two control events, one of them stale, and its history.
use unitree_webrtc_rs.Base.{
  ◌≡◌, ◌⊎◌, refl, true, false, some, [], ◌∷◌, ok, leb, if◌then◌else◌, length,
}
use unitree_webrtc_rs.Events.Budget.{IsBudgeted}
use unitree_webrtc_rs.Events.History.{Reachable, starts, sends, turns, Reachable-IsBudgeted}
use unitree_webrtc_rs.Events.Queue.{
  Hub, sent, full, delivered, event_channel, try_send, try_delivery, passes, set_generation,
  empty_lane,
}
use unitree_webrtc_rs.Events.Queue.SendResult.{disconnected as refused}
use unitree_webrtc_rs.Events.Size.{Sizes, json_size, usize_max}
use unitree_webrtc_rs.Events.SizeBound.{weight, json_size_lem}
use unitree_webrtc_rs.Events.View.{view, Served, inserted, try_delivery-Served, try_send-inserted}
use unitree_webrtc_rs.Events.Admission.{envelope}
use unitree_webrtc_rs.Events.{CallbackEvent, topic_callback, video_frame, control_bytes}
use unitree_webrtc_rs.Json.{Value, string, array, object, member, end, cons, nil, null}

abbrev sizes : Sizes
sizes = record {
  text_capacity = λ s. 8;
  array_capacity = λ vs. 4;
  bytes_capacity = λ bs. length bs;
  samples_capacity = λ xs. length xs;
  size_of_value = 32;
  size_of_event = 96;
}

abbrev tree : Value
tree = object (member "points" (array (cons null (cons (string "a") nil))) end)

json_size-tree : json_size sizes tree ≡ some 784
unfolding json_size
json_size-tree = refl

json_size_example :
    json_size sizes tree
    ≡ some (if leb (weight sizes tree) control_bytes then weight sizes tree else usize_max)
json_size_example = json_size_lem sizes tree

abbrev started : Hub
started = record {
  capacity = 64;
  current = 0;
  closed = false;
  connected = true;
  control_lane = empty_lane;
  media_lane = empty_lane;
}

started-event_channel : event_channel 64 ≡ ok started
unfolding event_channel
started-event_channel = refl

abbrev note : CallbackEvent
note = topic_callback "rt/lf/lowstate" null

abbrev frame : CallbackEvent
frame = video_frame (1 ∷ 2 ∷ 3 ∷ []) 1 1

-- An event of session 0, then session 1 with a frame and an event.
abbrev one_sent : Hub
one_sent = (try_send sizes 0 0 note started).0

abbrev turned : Hub
turned = set_generation 1 one_sent

abbrev two_sent : Hub
two_sent = (try_send sizes 1 1 frame turned).0

abbrev waiting : Hub
waiting = (try_send sizes 1 1 note two_sent).0

started-Reachable : Reachable sizes 64 started []
started-Reachable = starts started started-event_channel

one_sent-Reachable : Reachable sizes 64 one_sent []
one_sent-Reachable = sends started [] 0 0 note started-Reachable

waiting-Reachable : Reachable sizes 64 waiting []
waiting-Reachable =
    sends two_sent [] 1 1 note (sends turned [] 1 1 frame (turns one_sent [] 1 one_sent-Reachable))

Reachable-IsBudgeted_example : IsBudgeted waiting []
Reachable-IsBudgeted_example = Reachable-IsBudgeted sizes 64 waiting [] waiting-Reachable

-- The stale event is dropped, and the control event comes before the frame.
waiting-delivery : (try_delivery (passes waiting) waiting).1 ≡ delivered (envelope sizes 1 note)
unfolding try_delivery try_send envelope
waiting-delivery = refl

try_delivery-Served_example : Served (view waiting) (try_delivery (passes waiting) waiting)
try_delivery-Served_example = try_delivery-Served waiting

one_sent-IsBudgeted : IsBudgeted one_sent []
one_sent-IsBudgeted = Reachable-IsBudgeted sizes 64 one_sent [] one_sent-Reachable

try_send-inserted_example :
    ((view (try_send sizes 0 0 note one_sent).0
        ≡ inserted (envelope sizes 0 note).class one_sent (envelope sizes 0 note))
      × ((try_send sizes 0 0 note one_sent).1 ≡ sent))
    ⊎ ((view (try_send sizes 0 0 note one_sent).0 ≡ view one_sent)
        × (((try_send sizes 0 0 note one_sent).1 ≡ full note)
            ⊎ ((try_send sizes 0 0 note one_sent).1 ≡ refused note)))
try_send-inserted_example = try_send-inserted sizes 0 0 note one_sent [] one_sent-IsBudgeted
