-- ===== src/Signaling/Listener.antt =====
-- `SIPSignalingListener` (services/sip-processor/app/signaling/listener.py): which packets become
-- events, and the queue between the capture and the handler. `E` is the type of the events.
use vox_guard.Base.{
  ℕ, Bool, true, false, ◌&&◌, ◌||◌, Option, none, some, List, [], ◌∷◌, ◌++◌, length, ltb, ◌==◌,
  if◌then◌else◌,
}

abbrev pub queue_size : ℕ
queue_size = 10000

-- `handled` lists the events that the handler has been called with, the last one last.
pub record Listener (E : Type 0) : Type 0 where
  pub running : Bool
  pub event_queue : List E
  pub handled : List E

-- A packet as scapy gives it: the UDP ports and the payload, which may be parsed to an event.
pub record Packet (E : Type 0) : Type 0 where
  pub is_udp : Bool
  pub dport : ℕ
  pub sport : ℕ
  pub has_payload : Bool
  pub looks_like_sip : Bool
  pub event : Option E

module _ {E : Type 0} where
  abbrev pub no_events : Listener E
  no_events = record { running = false; event_queue = []; handled = [] }

  -- `put_nowait`: an event for which there is no room is dropped.
  unfoldable pub put_nowait : E → Listener E → Listener E
  put_nowait e l =
      if ltb (length l.event_queue) queue_size
      then record l { event_queue = l.event_queue ++ (e ∷ []) }
      else l

  abbrev pub put_parsed : Option E → Listener E → Listener E
  put_parsed none l = l
  put_parsed (some e) l = put_nowait e l

  abbrev pub is_sip_packet : ℕ → Packet E → Bool
  is_sip_packet port p =
      p.is_udp && ((p.dport == port) || (p.sport == port)) && p.has_payload && p.looks_like_sip

  -- The event of a packet that passes the checks.
  abbrev pub event_of : ℕ → Packet E → Option E
  event_of port p = if is_sip_packet port p then p.event else none

  -- `_packet_callback`
  unfoldable pub packet_callback : ℕ → Packet E → Listener E → Listener E
  unfolding put_nowait
  packet_callback port p l = put_parsed (event_of port p) l

  abbrev pub handle_first : List E → Listener E → Listener E
  handle_first [] l = l
  handle_first (e ∷ es) l = record l { event_queue = es; handled = l.handled ++ (e ∷ []) }

  -- A round of `_process_events`, which takes the first event, if there is one. What the handler
  -- raises is only logged.
  unfoldable pub process_event : Listener E → Listener E
  process_event l = if l.running then handle_first l.event_queue l else l

  unfoldable pub start : Listener E → Listener E
  start l = record l { running = true }

  unfoldable pub stop : Listener E → Listener E
  stop l = record l { running = false }

-- What can happen to a listener.
pub data Action (E : Type 0) : Type 0 where
  capturing : Packet E → Action E
  processing starting stopping : Action E

module _ {E : Type 0} (port : ℕ) where
  abbrev pub step : Action E → Listener E → Listener E
  step (capturing p) l = packet_callback port p l
  step processing l = process_event l
  step starting l = start l
  step stopping l = stop l

  unfoldable pub run : List (Action E) → Listener E → Listener E
  run [] l = l
  run (a ∷ as') l = run as' (step a l)
