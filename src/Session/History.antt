-- ===== src/Session/History.antt =====
-- What one packet can do to the registry.
use haigosmart.Base.{
  ℕ, ◌≡◌, ◌≢◌, refl, sym, ap, ◌∙◌, inl, inr, List, [], ◌∷◌, Bool, true, false, Option, none, some,
  ◌==◌, if◌then◌else◌, Result, ok, err, All, arith, Bool-cases, Option-cases,
}
use haigosmart.Base.Text.{Str, is_empty}
use haigosmart.Bulb.{Bulb, LightState, Capabilities, discovered}
use haigosmart.Events.{Event}
use haigosmart.Registry.{Registry, find, touch}
use haigosmart.Registry.Operation.{
  Operation, op_touch, op_set_state, op_set_firmware, op_set_capabilities, run, run_all, subject,
  given_name,
}
use haigosmart.Registry.Invariant.{run_frame, run_all-discovered, NotNaming}
use haigosmart.Protocol.Wire.{
  Packet, type_pingreq, type_subscribe, type_disconnect, type_publish, qos,
}
use haigosmart.Protocol.Publish.{Publish, decode_publish, encode_puback}
use haigosmart.Protocol.Alink.{PropertyPost, decode_property_post}
use haigosmart.Protocol.Error.{Error as ProtocolError}
use haigosmart.Session.{
  Environment, World, Session, device_id, Outcome, publish, stop, bad_reply, protocol,
  complete_command,
}
use haigosmart.Session.Packets.{
  report_state, handle_property_post, handle_ota_inform, handle_publish, handle_qos,
  handle_subscribe, handle,
}

-- The operations with which a bulb's packets reach the registry.
pub data Reports (id : Str) : Operation → Type 0 where
  touches : (now : ℕ) → Reports id (op_touch id now)
  reports : (state : LightState) (now : ℕ) → Reports id (op_set_state id state now)
  updates : (version : Str) → Reports id (op_set_firmware id version)
  refines : (caps : Capabilities) → Reports id (op_set_capabilities id caps)

-- The registry r' comes from r by reports of the bulb.
abbrev pub History : Str → Registry → Registry → Type 0
History id r r' = (os : List Operation) × All (Reports id) os × (run_all r os ≡ r')

nothing : (id : Str) (r : Registry) → History id r r
unfolding run_all
nothing id r = ([], tt, refl)

first :
    (id : Str) (r r' : Registry) (o : Operation)
    → Reports id o
    → History id (run r o) r'
    → History id r r'
unfolding run_all
first id r r' o p (os, ps, e) = (o ∷ os, (p, ps), e)

-- A test in a handler: both of its branches leave a history.
either :
    (id : Str) (r : Registry) (b : Bool) (x y : Outcome)
    → History id r x.world.registry
    → History id r y.world.registry
    → History id r (if b then x else y).world.registry
either id r true x y p q = p
either id r false x y p q = q

either_world :
    (id : Str) (r : Registry) (b : Bool) (x y : World)
    → History id r x.registry
    → History id r y.registry
    → History id r (if b then x else y).registry
either_world id r true x y p q = p
either_world id r false x y p q = q

published_registry :
    (b : Bool) (w : World) (e : Event) → (if b then publish w e else w).registry ≡ w.registry
published_registry true w e = refl
published_registry false w e = refl

report_state-History :
    (env : Environment) (w : World) (s : Session) (post : PropertyPost) (b : Bulb) (now : ℕ)
    → History (device_id s) w.registry (report_state env w s post b now).world.registry
unfolding report_state run_all run
report_state-History env w s post b now = elim (Bool-cases (is_empty post.id)) [
  | inl e ↦
      rw (report_state, e)
        (
          op_set_capabilities (device_id s) _ ∷ op_set_state (device_id s) _ now ∷ [],
          (refines _, (reports _ now, tt)),
          sym (published_registry _ _ _),
        )
  | inr e ↦
      rw (report_state, e)
        (
          op_set_capabilities (device_id s) _ ∷ op_set_state (device_id s) _ now ∷ [],
          (refines _, (reports _ now, tt)),
          sym (published_registry _ _ _),
        )
]

handle_property_post-History :
    (env : Environment) (w : World) (s : Session) (msg : Publish) (now : ℕ)
    → History (device_id s) w.registry (handle_property_post env w s msg now).world.registry
unfolding handle_property_post
handle_property_post-History env w s msg now =
    elim (Option-cases (decode_property_post (env.post msg.payload))) [
      | inl e ↦ rw (handle_property_post, e) (nothing (device_id s) w.registry)
      | inr (post, e) ↦ elim (Option-cases (find w.registry (device_id s))) [
        | inl f ↦ rw (handle_property_post, e, f) (nothing (device_id s) w.registry)
        | inr (b, f) ↦ rw (handle_property_post, e, f) (report_state-History env w s post b now)
      ]
    ]

handle_ota_inform-History :
    (env : Environment) (w : World) (s : Session) (msg : Publish)
    → History (device_id s) w.registry (handle_ota_inform env w s msg).registry
unfolding handle_ota_inform run_all run
handle_ota_inform-History env w s msg =
    either_world (device_id s) w.registry (is_empty (env.ota_version msg.payload)) w _
      (nothing (device_id s) w.registry)
      (
        op_set_firmware (device_id s) (env.ota_version msg.payload)
            ∷ op_set_capabilities (device_id s) _
            ∷ [],
        (updates _, (refines _, tt)),
        refl,
      )

handle_publish-History :
    (env : Environment) (w : World) (s : Session) (msg : Publish) (now : ℕ)
    → History (device_id s) w.registry (handle_publish env w s msg now).world.registry
unfolding handle_publish
handle_publish-History env w s msg now =
    either (device_id s) w.registry _ _ _ (handle_property_post-History env w s msg now) (
      either (device_id s) w.registry _ _ _ (reply (env.service_reply msg.payload)) (
        either (device_id s) w.registry _ _ _ (handle_ota_inform-History env w s msg) (
          either (device_id s) w.registry _ _ _ (nothing (device_id s) w.registry)
            (nothing (device_id s) w.registry))))
  where
    reply :
        (o : Option (Str × ℕ))
        → History
            (device_id s)
            w.registry
            (elim o as (λ o. Outcome) [
              | none ↦ stop w s (some bad_reply)
              | some (id, code) ↦ stop w (complete_command s id code) none
            ]).world.registry
    reply none = nothing (device_id s) w.registry
    reply (some (id, code)) = nothing (device_id s) w.registry

handle_qos-History :
    (env : Environment) (w : World) (s : Session) (level : ℕ) (msg : Publish) (now : ℕ)
    → History (device_id s) w.registry (handle_qos env w s level msg now).world.registry
unfolding handle_qos
handle_qos-History env w s level msg now = elim (Bool-cases (level == 1)) [
  | inr e ↦ rw (handle_qos, e) (handle_publish-History env w s msg now)
  | inl e ↦ elim (Bool-cases (env.accepts (encode_puback msg.packet_id))) [
    | inl f ↦ rw (handle_qos, e, f) (handle_publish-History env w s msg now)
    | inr f ↦ rw (handle_qos, e, f) (nothing (device_id s) w.registry)
  ]
]

handle_subscribe-History :
    (env : Environment) (w : World) (s : Session) (pkt : Packet)
    → (handle_subscribe env w s pkt).world.registry ≡ w.registry
unfolding handle_subscribe
handle_subscribe-History env w s pkt = ground arith

decoded-History :
    (env : Environment) (w : World) (s : Session) (level : ℕ) (o : Result ProtocolError Publish)
    (now : ℕ)
    → History
        (device_id s)
        w.registry
        (elim o as (λ o. Outcome) [
          | err e ↦ stop w s (some (protocol e))
          | ok msg ↦ handle_qos env w s level msg now
        ]).world.registry
decoded-History env w s level (err e) now = nothing (device_id s) w.registry
decoded-History env w s level (ok msg) now = handle_qos-History env w s level msg now

-- Whatever a bulb sends, and whatever becomes of the answers to it, the registry changes only by
-- reports of that bulb: its last sign of life, its state, its firmware and its capabilities.
pub handle-History :
    (env : Environment) (w : World) (s : Session) (pkt : Packet) (now : ℕ)
    → History (device_id s) w.registry (handle env w s pkt now).world.registry
unfolding handle run
handle-History env w s pkt now =
    first (device_id s) w.registry _ (op_touch (device_id s) now) (touches now)
      (elim (Bool-cases (pkt.type == type_pingreq)) [
        | inl e ↦ rw (handle, e) (nothing (device_id s) r1)
        | inr e ↦ elim (Bool-cases (pkt.type == type_subscribe)) [
          | inl f ↦
              rw (handle, e, f, handle_subscribe-History env w1 s pkt) (nothing (device_id s) r1)
          | inr f ↦ elim (Bool-cases (pkt.type == type_disconnect)) [
            | inl g ↦ rw (handle, e, f, g) (nothing (device_id s) r1)
            | inr g ↦ elim (Bool-cases (pkt.type == type_publish)) [
              | inl h ↦
                  rw (handle, e, f, g, h)
                    (decoded-History env w1 s (qos pkt) (decode_publish pkt.payload (qos pkt)) now)
              | inr h ↦ rw (handle, e, f, g, h) (nothing (device_id s) r1)
            ]
          ]
        ]
      ])
  where
    r1 : Registry
    r1 = touch w.registry (device_id s) now

    w1 : World
    w1 = record w { registry = r1 }

Reports-subject :
    {id : Str} {o : Operation} → Reports id o → (subject o ≡ id) × (given_name o ≡ none)
Reports-subject (touches now) = (refl, refl)
Reports-subject (reports state now) = (refl, refl)
Reports-subject (updates version) = (refl, refl)
Reports-subject (refines caps) = (refl, refl)

history_frame :
    (os : List Operation) (id k : Str) (r : Registry)
    → All (Reports id) os
    → id ≢ k
    → find (run_all r os) k ≡ find r k
unfolding run_all
history_frame [] id k r ps n = refl
history_frame (o ∷ os) id k r (p, ps) n =
    history_frame os id k (run r o) ps n ∙ run_frame r o k (λ e. n (sym (Reports-subject p).0 ∙ e))

-- A packet of one bulb leaves every other bulb's entry as it is.
pub handle_frame :
    (env : Environment) (w : World) (s : Session) (pkt : Packet) (now : ℕ) (k : Str)
    → device_id s ≢ k
    → find (handle env w s pkt now).world.registry k ≡ find w.registry k
handle_frame env w s pkt now k n =
    let (os, ps, e) = handle-History env w s pkt now in
    ap (λ r. find r k) (sym e) ∙ history_frame os (device_id s) k w.registry ps n

NotNaming-All : (os : List Operation) (id k : Str) → All (Reports id) os → All (NotNaming k) os
NotNaming-All [] id k ps = tt
NotNaming-All (o ∷ os) id k (p, ps) = (inl (Reports-subject p).1, NotNaming-All os id k ps)

-- No packet adopts a bulb: one that is discovered is still in the registry and discovered after any
-- packet of any bulb.
pub handle-discovered :
    (env : Environment) (w : World) (s : Session) (pkt : Packet) (now : ℕ) (k : Str) (a : Bulb)
    → find w.registry k ≡ some a
    → a.status ≡ discovered
    → (b : Bulb) × (find (handle env w s pkt now).world.registry k ≡ some b)
      × (b.status ≡ discovered)
handle-discovered env w s pkt now k a f d =
    let (os, ps, e) = handle-History env w s pkt now in
    rw (sym e) (run_all-discovered os w.registry k a f d (NotNaming-All os (device_id s) k ps))
