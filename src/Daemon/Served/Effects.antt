-- ===== src/Daemon/Served/Effects.antt =====
-- What the callbacks of one endpoint do with a message (src/VDA5050Proxy.cpp,
-- src/Vda5050EventRecorder.cpp).
use syrius_orbit_daemon.Common.{
  ℕ, ◌≡◌, refl, ap, ◌∙◌, Bool, true, false, not, Option, none, some, is_some, List, [], ◌∷◌, map,
  Bytes, is_empty, if◌then◌else◌, ◌>>=◌, select, nat_eq_iff, inl, inr,
}
use syrius_orbit_daemon.Codec.{Codec}
use syrius_orbit_daemon.Topic.{TopicContext, parse_topic_context, build_filter}
use syrius_orbit_daemon.Db.Events.{Table}
use syrius_orbit_daemon.Mqtt.Messages.{Kind, Message, kind_of, is_uplink, suffix, qos, parse}
use syrius_orbit_daemon.Mqtt.Client.{Client, Subscription, matching}
use syrius_orbit_daemon.Mqtt.Subscriber.Laws.{same_kind}
use syrius_orbit_daemon.Mqtt.Subscriber.{callbacks, calls, dispatch, new_subscriber}
use syrius_orbit_daemon.Mqtt.Publisher.{Serializer, Sent, serialize}
use syrius_orbit_daemon.Mqtt.EndPoint
use syrius_orbit_daemon.Mqtt.EndPoint.{EndPoint, Side, receives, received}
use syrius_orbit_daemon.Mqtt.EndPoint.Forward.{sent_as, publish-dispatch, entry}
use syrius_orbit_daemon.Proxy.{Callback, Network, Broker}
use syrius_orbit_daemon.Proxy.Opened.{IsOpen}
use syrius_orbit_daemon.Recorder.{record_message}
use syrius_orbit_daemon.Daemon.Wired.{IsUplink, IsCloud, downlinks}
use syrius_orbit_daemon.Daemon.Handling.{
  Effects, run_callbacks, handle, handle_parsed, run_subscriptions, deliver,
}
use syrius_orbit_daemon.Mqtt.EndPoint.Matches.{select-entries, select-received}

some-bind : {A : Type 0} (o : Option A) → (o >>= some) ≡ o
some-bind none = refl
some-bind (some a) = refl

dispatch-opened :
    (side : Side) (t : TopicContext) (up down : List Callback) (ep : EndPoint Callback)
    (kind : Kind) (topic : Bytes) (context : TopicContext)
    → IsOpen side t up down ep
    → parse_topic_context t topic (suffix kind) ≡ some context
    → dispatch kind topic ep.subscriber
      ≡ map (λ c. (c, context)) (if is_uplink kind then up else down)
unfolding dispatch
dispatch-opened side t up down ep kind topic context o at =
    let s = ep.subscriber in
    let parsed = λ (x : TopicContext). parse_topic_context x topic (suffix kind) in
    ap (λ b. if b then [] else calls (callbacks kind s) (parsed s.topic_template)) o.runs
    ∙ (ap (λ x. calls (callbacks kind s) (parsed x)) o.template
        ∙ (ap (λ l. calls l (parsed t)) (o.lists kind)
            ∙ ap (calls (if is_uplink kind then up else down)) at))

module _ (c : Codec) (clock : ℕ → Bytes) (ser : Serializer) (t : TopicContext) (message : Message)
    (topic payload : Bytes) (context : TopicContext)
    (read : parse c (kind_of message) payload ≡ some message)
    (at : parse_topic_context t topic (suffix (kind_of message)) ≡ some context) where
  handle-opened :
      (broker : Broker) (side : Side) (up down : List Callback) (ep : EndPoint Callback)
      (to : Option (EndPoint Callback)) (table : Table)
      → IsOpen side t up down ep
      → handle c clock broker.mosquitto ser to
          (kind_of message)
          topic
          payload
          ep.subscriber
          ([], table)
        ≡ run_callbacks c clock broker.mosquitto ser to message
            (map (λ c. (c, context)) (if is_uplink (kind_of message) then up else down))
            ([], table)
  unfolding handle
  handle-opened broker side up down ep to table o =
      ap
        (λ r.
          handle_parsed c clock broker.mosquitto ser to (kind_of message) topic r ep.subscriber
            ([], table))
        read
      ∙ ap (λ l. run_callbacks c clock broker.mosquitto ser to message l ([], table))
          (dispatch-opened side t up down ep (kind_of message) topic context o at)

  -- The client's subscriptions are those of the endpoint, one of which matches.
  pub deliver-opened :
      (here there : Broker) (side : Side) (client : Client) (ep : EndPoint Callback)
      (to : Option (EndPoint Callback)) (e : Effects)
      → client.subscriptions ≡ map (entry ep.id t) (received side)
      → receives side (kind_of message) ≡ true
      → ((k : Kind)
          → here.mosquitto.matches (build_filter t (suffix k)) topic
            ≡ same_kind k (kind_of message))
      → deliver c clock there.mosquitto ser to here.mosquitto client ep
          (record { topic = some topic; payload = payload })
          e
        ≡ handle c clock there.mosquitto ser to (kind_of message) topic payload ep.subscriber e
  unfolding deliver run_subscriptions matching
  deliver-opened here there side client ep to e subscribed mine match =
      let kind = kind_of message in
      let one =
        ap (select (λ (s : Subscription). here.mosquitto.matches s.topic_filter topic)) subscribed
        ∙ (select-entries here.mosquitto t ep.id topic kind (received side) match
            ∙ ap (map (entry ep.id t)) (select-received side kind mine)) in
      let run = run_subscriptions c clock there.mosquitto ser to ep topic payload in
      let handled = handle c clock there.mosquitto ser to kind topic payload ep.subscriber e in
      ap (λ l. run l e) one
      ∙ (ap (λ (b : Bool). if b then handled >>= run [] else none) ((nat_eq_iff ep.id ep.id).1 refl)
          ∙ some-bind handled)

  -- What becomes of the publication to the cloud endpoint.
  abbrev forwarded : Broker → Option (EndPoint Callback) → List Sent
  forwarded there none = []
  forwarded there (some e) = (EndPoint.publish there.mosquitto ser context message e).1

  -- The callbacks of an uplink kind, in either order.
  uplink-run :
      (there : Broker) (o : Option (EndPoint Callback)) (up : List Callback) (table : Table)
      → IsUplink o up
      → run_callbacks c clock there.mosquitto ser o message (map (λ c. (c, context)) up) ([], table)
        ≡ some (forwarded there o, record_message c clock context message table)
  unfolding run_callbacks
  uplink-run there none up table u =
      ap
        (λ l.
          run_callbacks c clock there.mosquitto ser none message (map (λ c. (c, context)) l)
            ([], table))
        u
  uplink-run there (some e) up table (inl u) =
      ap
        (λ l.
          run_callbacks c clock there.mosquitto ser (some e) message (map (λ c. (c, context)) l)
            ([], table))
        u
  uplink-run there (some e) up table (inr u) =
      ap
        (λ l.
          run_callbacks c clock there.mosquitto ser (some e) message (map (λ c. (c, context)) l)
            ([], table))
        u

  -- Whatever becomes of the publication, the message is recorded.
  pub handle-recorded :
      (there : Broker) (l : EndPoint Callback) (o : Option (EndPoint Callback)) (up : List Callback)
      (table : Table)
      → IsUplink o up
      → IsOpen Side.local t up [] l
      → is_uplink (kind_of message) ≡ true
      → handle c clock there.mosquitto ser o
          (kind_of message)
          topic
          payload
          l.subscriber
          ([], table)
        ≡ some (forwarded there o, record_message c clock context message table)
  handle-recorded there l o up table u opened is_up =
      handle-opened there Side.local up [] l o table opened
      ∙ (ap
            (λ (b : Bool).
              run_callbacks c clock there.mosquitto ser o message
                (map (λ c. (c, context)) (if b then up else [])) ([], table))
            is_up
          ∙ uplink-run there o up table u)

module _ (c : Codec) (clock : ℕ → Bytes) (net : Network) (ser : Serializer) (t : TopicContext)
    (message : Message) (topic payload out : Bytes) (context : TopicContext)
    (read : parse c (kind_of message) payload ≡ some message)
    (at : parse_topic_context t topic (suffix (kind_of message)) ≡ some context)
    (named : is_empty t.interface_name ≡ false) (versioned : is_empty t.major_version ≡ false)
    (written : serialize ser message ≡ some out) where
  published :
      (broker : Broker) (side : Side) (ep : EndPoint Callback)
      → ep.side ≡ side
      → receives side (kind_of message) ≡ false
      → ep.publisher_stopped ≡ false
      → broker.mosquitto.publish topic out (qos (kind_of message)) false ≡ true
      → (EndPoint.publish broker.mosquitto ser context message ep).1
        ≡ sent_as topic out message ∷ []
  unfolding new_subscriber
  published broker side ep at_side sends runs ok =
      ap (λ r. r.1)
        (publish-dispatch broker.mosquitto ser (new_subscriber t) ep message topic out context named
          versioned at (ap (λ s. receives s (kind_of message)) at_side ∙ sends) runs written ok)

  forwarded-published :
      (o : Option (EndPoint Callback)) (held : Bool)
      → IsCloud t held o
      → is_uplink (kind_of message) ≡ true
      → net.cloud_broker.mosquitto.publish topic out (qos (kind_of message)) false ≡ true
      → forwarded c clock ser t message topic payload context read at net.cloud_broker o
        ≡ (if is_some o then sent_as topic out message ∷ [] else [])
  forwarded-published none held cloud is_up ok = refl
  forwarded-published (some e) held cloud is_up ok =
      published net.cloud_broker Side.cloud e cloud.at_side (ap not is_up) cloud.sends ok

  pub handle-uplink :
      (l : EndPoint Callback) (o : Option (EndPoint Callback)) (up : List Callback) (held : Bool)
      (table : Table)
      → IsUplink o up
      → IsOpen Side.local t up [] l
      → IsCloud t held o
      → is_uplink (kind_of message) ≡ true
      → net.cloud_broker.mosquitto.publish topic out (qos (kind_of message)) false ≡ true
      → handle c clock net.cloud_broker.mosquitto ser o
          (kind_of message)
          topic
          payload
          l.subscriber
          ([], table)
        ≡ some (
          if is_some o then sent_as topic out message ∷ [] else [],
          record_message c clock context message table,
        )
  handle-uplink l o up held table u opened cloud is_up ok =
      handle-recorded c clock ser t message topic payload context read at net.cloud_broker l o up
        table u opened is_up
      ∙ ap (λ s. some (s, record_message c clock context message table))
          (forwarded-published o held cloud is_up ok)

  downlink-run :
      (l : EndPoint Callback) (held : Bool) (table : Table)
      → run_callbacks c clock net.local_broker.mosquitto ser
          (some l)
          message
          (map (λ c. (c, context)) (downlinks held))
          ([], table)
        ≡ some (
          (EndPoint.publish net.local_broker.mosquitto ser context message l).1,
          if held then record_message c clock context message table else table,
        )
  unfolding run_callbacks
  downlink-run l true table = refl
  downlink-run l false table = refl

  pub handle-downlink :
      (l e : EndPoint Callback) (up : List Callback) (held : Bool) (table : Table)
      → IsOpen Side.local t up [] l
      → IsOpen Side.cloud t [] (downlinks held) e
      → is_uplink (kind_of message) ≡ false
      → net.local_broker.mosquitto.publish topic out (qos (kind_of message)) false ≡ true
      → handle c clock net.local_broker.mosquitto ser
          (some l)
          (kind_of message)
          topic
          payload
          e.subscriber
          ([], table)
        ≡ some (
          sent_as topic out message ∷ [],
          if held then record_message c clock context message table else table,
        )
  handle-downlink l e up held table opened cloud down ok =
      let sends = published net.local_broker Side.local l opened.at_side down opened.sends ok in
      handle-opened c clock ser t message topic payload context read at net.local_broker Side.cloud
        [] (downlinks held) e (some l) table cloud
      ∙ (ap
            (λ (b : Bool).
              run_callbacks c clock net.local_broker.mosquitto ser (some l) message
                (map (λ c. (c, context)) (if b then [] else downlinks held)) ([], table))
            down
          ∙ (downlink-run l held table
              ∙ ap
                  (λ s.
                    some (s, if held then record_message c clock context message table else table))
                  sends))
