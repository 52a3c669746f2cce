-- ===== src/Client/Outbound.antt =====
-- From the broker's topic to the handler of a subscription: `Publish` of core/topic/topic.go,
-- `deliverMessage` of core/transport/mqtt/session.go, and the loop of `Subscribe` in
-- sdk/go/brokermq/client.go.
use broker_message.Base.{
  ℕ, ◌^◌, ◌<◌, ◌≡◌, refl, sym, ap, ◌∙◌, false, List, [], ◌∷◌, ◌++◌, arith, ◌==◌, if◌then◌else◌,
  length, Bytes, ok,
}
use broker_message.Envelope.{Envelope, encode}
use broker_message.Envelope.RoundTrip.{IsWire, length-encode}
use broker_message.Storage.{Badger}
use broker_message.Topic.{Topic, Message, publish}
use broker_message.Topic.Publishing.{stamped, stamped-IsWire, publish-eq-ok}
use broker_message.Packet.Publish.{publish_length}
use broker_message.Session.{State, Conn, Env}
use broker_message.Session.Deliver.{wire_of, deliver_message}
use broker_message.Session.AckLaws.{IsPacketId}
use broker_message.Session.Retransmission.{open_conn}
use broker_message.Session.Written.{deliver_message-writes}
use broker_message.Client.{contains}
use broker_message.Client.Connection.{Client, receive_loop}
use broker_message.Client.Once.{Delivery, IsDelivery, frame, message, receive_loop-one, last_frame}

wire_of-raw :
    (fresh : Bytes) (now : ℕ) (m : Message) (e : Envelope)
    → m.raw_wire ≡ encode e
    → IsWire e
    → wire_of fresh now m ≡ encode e
unfolding wire_of
wire_of-raw fresh now m e h w =
    let long : (length (encode e) == 0) ≡ false = ground (arith, length-encode e w) in
    rw (h, long) refl

module _ {Db : Type 0} ⦃b : Badger Db⦄ where
  -- A message that was published to a topic and that `deliverMessage` has written on the connection of
  -- a subscriber, which takes every frame, is handed to the handler of the client that reads the frame,
  -- with the topic, the payload, the ids and the time that were published, if the ids that the client's
  -- cache holds, which may be full, are not that of the message. What follows the frame is left. The
  -- envelope fits the wire format, the topic is below 2 ^ 16 bytes and the frame below 2 ^ 28, and the
  -- client's connection takes every frame.
  pub deliver_message-received :
      (fresh : Bytes) (t t' : Topic Db) (e : Envelope) (m : Message) (env : Env Db) (name : Bytes)
      (qos : ℕ) (frames acked : List Bytes) (bytes rest : Bytes) (st st' : State Db) (c : Client)
      → publish fresh t e ≡ (t', ok m)
      → IsWire e
      → length fresh ≡ 16
      → length t.name < 2 ^ 16
      → publish_length t.name (encode (stamped fresh e)) 1 < 2 ^ 28
      → st.session.conn ≡ open_conn frames
      → IsPacketId st.session.next_pkt_id
      → deliver_message env name m qos st ≡ (st', ok tt)
      → st'.session.conn ≡ open_conn (frames ++ (bytes ∷ []))
      → c.input ≡ bytes ++ rest
      → c.conn ≡ open_conn acked
      → contains m.server_msg_id c.seen.set ≡ false
      → ((receive_loop 1 c).1
          ≡ record {
            topic = t.name;
            payload = e.payload;
            idempotency_id = e.idempotency_id;
            server_msg_id = m.server_msg_id;
            publish_ts = e.publish_ts;
          }
            ∷ [])
        × ((receive_loop 1 c).0.input ≡ rest)
  deliver_message-received fresh t t' e m env name qos frames acked bytes rest st st' c published w
        f ht hl o r delivered written reads oc unknown =
      let (is_next, _, _) = publish-eq-ok fresh t t' e m published in
      let (pid, is_id, conn, _) =
        deliver_message-writes env name m qos frames st st' o r delivered in
      let d : Delivery = record {
        topic = t.name;
        env = stamped fresh e;
        qos = if qos == 1 then 1 else 0;
        pid = pid;
        dup = false;
      } in
      let wire : wire_of env.fresh_idempotency env.now m ≡ encode (stamped fresh e) =
        wire_of-raw env.fresh_idempotency env.now m (stamped fresh e) (rw is_next refl)
          (stamped-IsWire fresh e w f) in
      let same : bytes ≡ frame d =
        last_frame frames bytes (frame d)
          (ap (λ (x : Conn). x.sent) (sym written ∙ conn) ∙ rw (wire, is_next) refl) in
      let fits : IsDelivery d = record {
        topic_fits = ht;
        qos_fits = ground arith;
        pid_fits = omega arith;
        is_wire = stamped-IsWire fresh e w f;
        fits = ground (arith, hl);
      } in
      let id : (stamped fresh e).server_msg_id ≡ m.server_msg_id =
        ap (λ (x : Message). x.server_msg_id) (sym is_next) in
      let unknown' : contains d.env.server_msg_id c.seen.set ≡ false =
        ap (λ (i : Bytes). contains i c.seen.set) id ∙ unknown in
      let (got, left) = receive_loop-one d rest acked c (reads ∙ rw same refl) fits oc unknown' in
      (got ∙ ap (λ (i : Bytes). record (message d) { server_msg_id = i } ∷ []) id, left)
