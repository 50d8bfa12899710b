-- ===== src/Bus.antt =====
-- bus/queue.py: `MessageBus`, the queues between the agent and the channels.
use minicode_agent_runtime.Prelude.{ℕ, String, List, [], ◌∷◌, ◌++◌, Option, none, some, length}
use minicode_agent_runtime.Prelude.Dict.{Dict, get, put}

-- `OutboundMessage`, as far as the bus reads it
pub record OutboundMessage : Type 0 where
  pub channel : String
  pub chat_id : String
  pub content : String

-- A subscriber: what it raises, if it does. `sleep` of the bus is part of the world.
abbrev pub Callback : Type 0 → Type 0
Callback W = OutboundMessage → W → Option String × W

-- `MessageBus`; `inbound` holds messages of the channels, which the bus does not read.
pub record MessageBus (In W : Type 0) : Type 0 where
  pub inbound : List In
  pub outbound : List OutboundMessage
  pub subscribers : Dict (List (Callback W))

abbrev subscribers_of : {W : Type 0} → Option (List (Callback W)) → List (Callback W)
subscribers_of none = []
subscribers_of (some cbs) = cbs

module _ {In W : Type 0} where
  unfoldable pub publish_inbound : In → MessageBus In W → MessageBus In W
  publish_inbound msg bus = record bus { inbound = bus.inbound ++ msg ∷ [] }

  take_inbound : List In → MessageBus In W → Option In × MessageBus In W
  take_inbound [] bus = (none, bus)
  take_inbound (msg ∷ msgs) bus = (some msg, record bus { inbound = msgs })

  -- `consume_inbound`; none means that it waits.
  unfoldable pub consume_inbound : MessageBus In W → Option In × MessageBus In W
  unfolding take_inbound
  consume_inbound bus = take_inbound bus.inbound bus

  unfoldable pub publish_outbound : OutboundMessage → MessageBus In W → MessageBus In W
  publish_outbound msg bus = record bus { outbound = bus.outbound ++ msg ∷ [] }

  unfoldable pub subscribe_outbound : String → Callback W → MessageBus In W → MessageBus In W
  subscribe_outbound channel callback bus = record bus {
    subscribers =
        put bus.subscribers channel (subscribers_of (get bus.subscribers channel) ++ callback ∷ []);
  }

  unfoldable pub inbound_size : MessageBus In W → ℕ
  inbound_size bus = length bus.inbound

  unfoldable pub outbound_size : MessageBus In W → ℕ
  outbound_size bus = length bus.outbound

-- The notice for a message that failed twice
abbrev pub fallback : OutboundMessage → OutboundMessage
fallback msg = record msg { content = "（消息发送失败，请稍后重试）" }

-- How the sending to a subscriber ends
pub data Delivery : Type 0 where
  sent retried notified lost : Delivery

module _ {W : Type 0} (sleep : W → W) where
  after_notice : Option String × W → Delivery × W
  after_notice (none, w) = (notified, w)
  after_notice (some e, w) = (lost, w)

  after_retry : Callback W → OutboundMessage → Option String × W → Delivery × W
  after_retry callback msg (none, w) = (retried, w)
  after_retry callback msg (some e, w) = after_notice (callback (fallback msg) w)

  after_first : Callback W → OutboundMessage → Option String × W → Delivery × W
  after_first callback msg (none, w) = (sent, w)
  after_first callback msg (some e, w) = after_retry callback msg (callback msg (sleep w))

  -- The sending of a message to one subscriber
  unfoldable pub send : Callback W → OutboundMessage → W → Delivery × W
  unfolding after_notice after_retry after_first
  send callback msg w = after_first callback msg (callback msg w)

  -- To all subscribers of its channel
  unfoldable pub send_all : List (Callback W) → OutboundMessage → W → List Delivery × W
  send_all [] msg w = ([], w)
  send_all (callback ∷ callbacks) msg w =
      let (d, w') = send callback msg w in
      let (ds, w'') = send_all callbacks msg w' in (d ∷ ds, w'')

  -- `dispatch_outbound` until the queue is empty
  unfoldable pub dispatch_all :
      Dict (List (Callback W)) → List OutboundMessage → W → List (List Delivery) × W
  dispatch_all subscribers [] w = ([], w)
  dispatch_all subscribers (msg ∷ msgs) w =
      let (ds, w') = send_all (subscribers_of (get subscribers msg.channel)) msg w in
      let (rest, w'') = dispatch_all subscribers msgs w' in (ds ∷ rest, w'')
