-- ===== src/Session/Packets.antt =====
-- internal/server/session.go: handle, and what each packet of a bulb does.
use haigosmart.Base.{
  ℕ, List, [], ◌∷◌, ◌++◌, Bool, true, false, not, ◌&&◌, ◌||◌, none, some, ◌==◌, length,
  if◌then◌else◌, ok, err,
}
use haigosmart.Base.Text.{Str, codes, is_empty, has_suffix, contains}
use haigosmart.Base.Assoc
use haigosmart.Base.Assoc.{Map}
use haigosmart.Bulb.{Bulb, FieldChange}
use haigosmart.Events.{Kind}
use haigosmart.Protocol.Wire.{
  Packet, qos, type_pingreq, type_subscribe, type_disconnect, type_publish,
}
use haigosmart.Protocol.Publish.{Publish, decode_publish, encode_publish, encode_puback}
use haigosmart.Protocol.Subscribe.{decode_subscribe, encode_suback}
use haigosmart.Protocol.Alink.{
  Identity, PropertyPost, decode_property_post, apply_post, refine_from_report,
  capabilities_from_version,
}
use haigosmart.Registry
use haigosmart.Registry.{Registry}
use haigosmart.Session.{
  Environment, Outcome, Session, World, bad_reply, bad_report, closed_by_bulb, complete_by_seq,
  complete_command, device_id, event, protocol, publish, stop, unregistered, with_registry, write,
}

abbrev topic_in : Str → Identity → Str → Str
topic_in root id tail = root ++ (id.product_key ++ (codes "/" ++ (id.device_name ++ tail)))

unfoldable pub property_post_reply : Identity → Str
property_post_reply id = topic_in (codes "/sys/") id (codes "/thing/event/property/post_reply")

unfoldable pub ntp_response : Identity → Str
ntp_response id = topic_in (codes "/ext/ntp/") id (codes "/response")

abbrev some_changes : List FieldChange → Bool
some_changes [] = false
some_changes (c ∷ cs) = true

-- A state report that was decoded, for a bulb that has an entry.
unfoldable pub report_state : Environment → World → Session → PropertyPost → Bulb → ℕ → Outcome
unfolding refine_from_report apply_post Registry.set_capabilities Registry.set_state event
    complete_by_seq property_post_reply is_empty encode_publish
report_state env w s post current now =
    let (r1, refined) =
      Registry.set_capabilities w.registry (device_id s)
        (refine_from_report current.capabilities post) in
    let (r2, changes) =
      Registry.set_state r1 (device_id s) (apply_post post current.state now) now in
    let w2 = with_registry w r2 in
    let w3 : World =
      if some_changes changes || not s.reported
      then publish w2 (record (event w2 s now Kind.state_changed []) { changed = changes })
      else w2 in
    let s2 = complete_by_seq (record s { reported = true }) post.seq in
    if is_empty post.id
    then stop w3 s2 none
    else write env w3 s2 (encode_publish (property_post_reply s.identity) (env.post_reply post.id))

unfoldable pub handle_property_post : Environment → World → Session → Publish → ℕ → Outcome
unfolding decode_property_post Assoc.get report_state
handle_property_post env w s msg now = elim (decode_property_post (env.post msg.payload)) [
  | none ↦ stop w s (some bad_report)
  | some post ↦ elim (Registry.view w.registry (device_id s)) [
    | none ↦ stop w s (some unregistered)
    | some current ↦ report_state env w s post current now
  ]
]

unfoldable pub handle_ota_inform : Environment → World → Session → Publish → World
unfolding is_empty capabilities_from_version Registry.set_firmware Registry.set_capabilities
handle_ota_inform env w s msg =
    let version = env.ota_version msg.payload in
    if is_empty version
    then w
    else with_registry w
        (Registry.set_capabilities (Registry.set_firmware w.registry (device_id s) version)
          (device_id s) (capabilities_from_version version)).0

unfoldable pub handle_publish : Environment → World → Session → Publish → ℕ → Outcome
unfolding has_suffix contains handle_property_post complete_command handle_ota_inform ntp_response
    encode_publish
handle_publish env w s msg now =
    if has_suffix (codes "/thing/event/property/post") msg.topic
    then handle_property_post env w s msg now
    else if has_suffix (codes "/thing/service/CommonService_reply") msg.topic
    then elim (env.service_reply msg.payload) [
      | none ↦ stop w s (some bad_reply)
      | some (id, code) ↦ stop w (complete_command s id code) none
    ]
    else if contains (codes "/ota/device/inform/") msg.topic
    then stop (handle_ota_inform env w s msg) s none
    else if contains (codes "/ext/ntp/") msg.topic && has_suffix (codes "/request") msg.topic
    then write env w s (encode_publish (ntp_response s.identity) (env.ntp_response msg.payload now))
    else stop w s none

-- The acknowledgement of a QoS 1 publish goes out before what the publish is answered with.
unfoldable pub handle_qos : Environment → World → Session → ℕ → Publish → ℕ → Outcome
unfolding encode_puback handle_publish
handle_qos env w s level msg now =
    let answered = handle_publish env w s msg now in
    let ack = encode_puback msg.packet_id in
    if not (level == 1)
    then answered
    else if env.accepts ack
    then record answered { written = ack ∷ answered.written }
    else write env w s ack

abbrev pub pingresp : List ℕ
pingresp = 0xD0 ∷ 0x00 ∷ []

-- A SUBSCRIBE always decodes to a result: decode_subscribe_total.
unfoldable pub handle_subscribe : Environment → World → Session → Packet → Outcome
unfolding decode_subscribe encode_suback
handle_subscribe env w s pkt = elim (decode_subscribe pkt.payload) [
  | none ↦ stop w s none
  | some (err e) ↦ stop w s (some (protocol e))
  | some (ok (id, topics)) ↦ write env w s (encode_suback id (length topics))
]

unfoldable pub handle : Environment → World → Session → Packet → ℕ → Outcome
unfolding Registry.touch handle_subscribe decode_publish qos handle_qos
handle env w0 s pkt now =
    let w = with_registry w0 (Registry.touch w0.registry (device_id s) now) in
    if pkt.type == type_pingreq
    then write env w s pingresp
    else if pkt.type == type_subscribe
    then handle_subscribe env w s pkt
    else if pkt.type == type_disconnect
    then stop w s (some closed_by_bulb)
    else if pkt.type == type_publish
    then elim (decode_publish pkt.payload (qos pkt)) [
      | err e ↦ stop w s (some (protocol e))
      | ok msg ↦ handle_qos env w s (qos pkt) msg now
    ]
    else stop w s none
