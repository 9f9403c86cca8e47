-- ===== src/Hass/Bridge/Announced.antt =====
-- internal/hass/bridge.go: the names that the bridge takes for announced.
use haigosmart.Base.{
  ◌≡◌, refl, sym, ◌∙◌, arith, Option-cases, List, [], ◌∷◌, ◌++◌, Bool, true, false, ◌||◌, ◌⊎◌, none,
  some, if◌then◌else◌, inl, inr, Bool-cases, Result-cases, ok, All, All-append,
}
use mathlib.Core.Path.{subst}
use haigosmart.Base.Text.{Str, codes, str_eq, str_eq_iff, str_eq_refl, is_empty}
use haigosmart.Base.Assoc
use haigosmart.Base.Assoc.{get-put, get-delete}
use haigosmart.Bulb.{Bulb, adopted, status_eq}
use haigosmart.Bulb
use haigosmart.Events.{
  Event, Kind, state_changed, connected, disconnected, discovered, command_result, protocol_error,
  duplicate_id, renamed, rejected,
}
use haigosmart.Registry.{Registry}
use haigosmart.Registry.Resolve.{list}
use haigosmart.Lights.{get}
use haigosmart.Hass.Entity.{state, availability}
use haigosmart.Hass.Discovery.{discovery, bridge_discovery}
use haigosmart.Hass.Bridge.{
  Message, lamp_config, lamp_state, lamp_availability, bridge_config, bridge_status, Bridge,
  announce, announce_each, handle_kind, handle, on_connect, remove, publish, get_text, get_flag,
  publish_state,
}
use haigosmart.Hass.Bridge.Retained.{IsQuiet, publish-IsQuiet, Keeps, Keeps-trans, Keeps-IsQuiet}

-- The config that announces the lamp, and the bridge that takes it for announced.
abbrev pub config_of : Bridge → Bulb → Message
config_of b lamp = lamp_config lamp.device_id (some (discovery b.config lamp))

abbrev pub announced_as : Bridge → Bulb → Bridge
announced_as b lamp = record b { announced = Assoc.put b.announced lamp.device_id lamp.name }

-- Nothing happens, or the config of an adopted lamp that is not announced under its name goes out.
pub announce_cases :
    (fails : Message → Bool) (b : Bridge) (lamp : Bulb)
    → (announce fails b lamp ≡ (b, []))
      ⊎ ((adopted lamp ≡ true)
          × (str_eq (get_text b.announced lamp.device_id) lamp.name ≡ false)
          × (announce fails b lamp ≡ (announced_as b lamp, config_of b lamp ∷ [])))
unfolding announce
announce_cases fails b lamp = elim (Bool-cases (adopted lamp)) [
  | inr unnamed ↦ inl (rw unnamed refl)
  | inl named ↦ elim (Bool-cases (str_eq (get_text b.announced lamp.device_id) lamp.name)) [
    | inl same ↦ inl (rw (named, same) refl)
    | inr changed ↦ elim (Bool-cases (fails (config_of b lamp))) [
      | inl bad ↦ inl (rw (named, changed, bad) refl)
      | inr good ↦ inr (named, changed, rw (named, changed, good) refl)
    ]
  ]
]

announced_as-Keeps :
    (b : Bridge) (lamp : Bulb) → Keeps b (announced_as b lamp, config_of b lamp ∷ [])
unfolding discovery
announced_as-Keeps b lamp kept h id n e =
    let written = get-put b.announced lamp.device_id id lamp.name in
    elim (Bool-cases (str_eq lamp.device_id id)) [
      | inl same ↦ let found : some lamp.name ≡ some n = rw (written, same) at e in rw same found
      | inr other ↦
          let old : Assoc.get b.announced id ≡ some n = rw (written, other) at e in
          rw other (h id n old)
    ]

announce-Keeps :
    (fails : Message → Bool) (b : Bridge) (lamp : Bulb) → Keeps b (announce fails b lamp)
announce-Keeps fails b lamp = elim (announce_cases fails b lamp) [
  | inl same ↦ subst (λ out. Keeps b out) (sym same) (Keeps-IsQuiet b b [] refl tt)
  | inr (named, changed, out) ↦ subst (λ o. Keeps b o) (sym out) (announced_as-Keeps b lamp)
]

announce_each-Keeps :
    (fails : Message → Bool) (b : Bridge) (lamps : List Bulb)
    → Keeps b (announce_each fails b lamps)
unfolding announce_each
announce_each-Keeps fails b [] = Keeps-IsQuiet b b [] refl tt
announce_each-Keeps fails b (lamp ∷ lamps) =
    let (b', out) = announce fails b lamp in
    let (b'', more) = announce_each fails b' lamps in
    Keeps-trans b b' b'' out more (announce-Keeps fails b lamp) (announce_each-Keeps fails b' lamps)

pub on_connect-Keeps :
    (fails : Message → Bool) (r : Registry) (b : Bridge) → Keeps b (on_connect fails r b)
unfolding on_connect
on_connect-Keeps fails r b =
    let (b', out) = announce_each fails b (list r) in
    let sensor = bridge_config (bridge_discovery b.config (codes "0.2.0")) in
    let status = bridge_status (codes "online") in
    let first = publish fails sensor in
    let second = publish fails status in
    Keeps-trans b b b' first (second ++ out)
      (Keeps-IsQuiet b b first refl (publish-IsQuiet fails sensor tt))
      (Keeps-trans b b b' second out
        (Keeps-IsQuiet b b second refl (publish-IsQuiet fails status tt))
        (announce_each-Keeps fails b (list r)))

pub remove-Keeps : (fails : Message → Bool) (b : Bridge) (id : Str) → Keeps b (remove fails b id)
unfolding remove
remove-Keeps fails b id kept h j n e =
    let gone = get-delete b.announced id j in
    elim (Bool-cases (str_eq id j)) [
      | inl same ↦ let none_left : none ≡ some n = rw (gone, same) at e in cc
      | inr other ↦
          let old : Assoc.get b.announced j ≡ some n = rw (gone, other) at e in
          elim (Bool-cases (fails (lamp_config id none))) [
            | inl bad ↦ rw bad (h j n old)
            | inr good ↦ rw (good, other) (h j n old)
          ]
    ]

-- An announcement and then messages that are no lamp's config.
announce-then :
    (fails : Message → Bool) (b : Bridge) (lamp : Bulb) (ms : List Message)
    → All IsQuiet ms
    → Keeps b ((announce fails b lamp).0, (announce fails b lamp).1 ++ ms)
announce-then fails b lamp ms q =
    let (b', out) = announce fails b lamp in
    Keeps-trans b b' b' out ms (announce-Keeps fails b lamp) (Keeps-IsQuiet b' b' ms refl q)

state-IsQuiet :
    (fails : Message → Bool) (b : Bridge) (lamp : Bulb) (ms : List Message)
    → All IsQuiet ms
    → All IsQuiet (publish_state fails b lamp ++ ms)
state-IsQuiet fails b lamp ms q =
    All-append IsQuiet (publish_state fails b lamp) ms
      (publish-IsQuiet fails (lamp_state lamp.device_id (state b.config lamp)) tt) q

if-IsQuiet :
    (test : Bool) (ms ns : List Message)
    → All IsQuiet ms
    → All IsQuiet ns
    → All IsQuiet (if test then ms else ns)
if-IsQuiet true ms ns f g = f
if-IsQuiet false ms ns f g = g

handle_kind-Keeps :
    (fails : Message → Bool) (b : Bridge) (id : Str) (lamp : Bulb) (k : Kind)
    → Keeps b (handle_kind fails b id lamp k)
unfolding handle_kind
handle_kind-Keeps fails b id lamp connected = announce-Keeps fails b lamp
handle_kind-Keeps fails b id lamp renamed = announce-then fails b lamp _ (
    if-IsQuiet (get_flag b.reported id || status_eq lamp.status Bulb.connected) _ []
      (state-IsQuiet fails b lamp _
        (publish-IsQuiet fails (lamp_availability lamp.device_id (availability lamp)) tt))
      tt)
handle_kind-Keeps fails b id lamp disconnected =
    Keeps-IsQuiet b (record b { reported = Assoc.delete b.reported id }) _ refl
      (publish-IsQuiet fails (lamp_availability lamp.device_id (codes "offline")) tt)
handle_kind-Keeps fails b id lamp state_changed =
    announce-then fails (record b { reported = Assoc.put b.reported id true }) lamp _
      (state-IsQuiet fails b lamp _ (
        if-IsQuiet (get_flag b.reported id) [] _ tt
          (publish-IsQuiet fails (lamp_availability lamp.device_id (codes "online")) tt)))
handle_kind-Keeps fails b id lamp discovered = Keeps-IsQuiet b b [] refl tt
handle_kind-Keeps fails b id lamp command_result = Keeps-IsQuiet b b [] refl tt
handle_kind-Keeps fails b id lamp protocol_error = Keeps-IsQuiet b b [] refl tt
handle_kind-Keeps fails b id lamp duplicate_id = Keeps-IsQuiet b b [] refl tt
handle_kind-Keeps fails b id lamp rejected = Keeps-IsQuiet b b [] refl tt

-- An event of a lamp that the registry has is handled by its kind, and any other is ignored.
pub handle_cases :
    (fails : Message → Bool) (r : Registry) (b : Bridge) (e : Event)
    → (handle fails r b e ≡ (b, []))
      ⊎ ((lamp : Bulb) × (get r e.device_id ≡ ok lamp)
          × (handle fails r b e ≡ handle_kind fails b e.device_id lamp e.kind))
unfolding handle
handle_cases fails r b e = elim (Bool-cases (is_empty e.device_id)) [
  | inl server ↦ inl (rw (handle, server) refl)
  | inr named ↦ elim (Result-cases (get r e.device_id)) [
    | inr (reason, x) ↦ inl (rw (handle, named, x) refl)
    | inl (lamp, x) ↦ inr (lamp, x, rw (handle, named, x) refl)
  ]
]

pub handle-Keeps :
    (fails : Message → Bool) (r : Registry) (b : Bridge) (e : Event) → Keeps b (handle fails r b e)
handle-Keeps fails r b e = elim (handle_cases fails r b e) [
  | inl ignored ↦ subst (λ out. Keeps b out) (sym ignored) (Keeps-IsQuiet b b [] refl tt)
  | inr (lamp, x, done) ↦
      subst (λ out. Keeps b out) (sym done) (handle_kind-Keeps fails b e.device_id lamp e.kind)
]

-- The kinds of event that announce a lamp.
abbrev pub announces : Kind → Bool
announces connected = true
announces renamed = true
announces state_changed = true
announces disconnected = false
announces discovered = false
announces command_result = false
announces protocol_error = false
announces duplicate_id = false
announces rejected = false

known_name :
    (m : Assoc.Map Str) (id n : Str)
    → is_empty n ≡ false
    → get_text m id ≡ n
    → Assoc.get m id ≡ some n
unfolding is_empty
known_name m id n called same = elim (Option-cases (Assoc.get m id)) [
  | inl none_there ↦
      let no_text : get_text m id ≡ [] = rw (get_text, none_there) refl in
      let text_empty : is_empty n ≡ true = rw (← same, no_text) refl in absurd (ground arith)
  | inr (t, there) ↦ let text : get_text m id ≡ t = rw (get_text, there) refl in cc
]

announce_known :
    (fails : Message → Bool) (b : Bridge) (lamp : Bulb)
    → adopted lamp ≡ true
    → is_empty lamp.name ≡ false
    → fails (config_of b lamp) ≡ false
    → Assoc.get (announce fails b lamp).0.announced lamp.device_id ≡ some lamp.name
unfolding announce is_empty
announce_known fails b lamp owned called sends =
    elim (Bool-cases (str_eq (get_text b.announced lamp.device_id) lamp.name)) [
      | inr changed ↦
          rw (announce, owned, changed, sends)
            (get-put b.announced lamp.device_id lamp.device_id lamp.name
              ∙ rw (str_eq_refl lamp.device_id) refl)
      | inl same ↦
          rw (announce, owned, same)
            (known_name b.announced lamp.device_id lamp.name called ((str_eq_iff _ _).0 same))
    ]

handle_kind_announced :
    (fails : Message → Bool) (b : Bridge) (id : Str) (lamp : Bulb) (k : Kind)
    → announces k ≡ true
    → adopted lamp ≡ true
    → is_empty lamp.name ≡ false
    → ((c : Bridge) → fails (config_of c lamp) ≡ false)
    → Assoc.get (handle_kind fails b id lamp k).0.announced lamp.device_id ≡ some lamp.name
unfolding handle_kind
handle_kind_announced fails b id lamp connected k o n s = announce_known fails b lamp o n (s b)
handle_kind_announced fails b id lamp renamed k o n s = announce_known fails b lamp o n (s b)
handle_kind_announced fails b id lamp state_changed k o n s =
    let b' = record b { reported = Assoc.put b.reported id true } in
    announce_known fails b' lamp o n (s b')
handle_kind_announced fails b id lamp disconnected k o n s = cc
handle_kind_announced fails b id lamp discovered k o n s = cc
handle_kind_announced fails b id lamp command_result k o n s = cc
handle_kind_announced fails b id lamp protocol_error k o n s = cc
handle_kind_announced fails b id lamp duplicate_id k o n s = cc
handle_kind_announced fails b id lamp rejected k o n s = cc

-- Such an event of an adopted lamp whose config can be published leaves it announced under its name.
pub handle_announced :
    (fails : Message → Bool) (r : Registry) (b : Bridge) (e : Event) (lamp : Bulb)
    → get r e.device_id ≡ ok lamp
    → is_empty e.device_id ≡ false
    → announces e.kind ≡ true
    → adopted lamp ≡ true
    → is_empty lamp.name ≡ false
    → ((c : Bridge) → fails (config_of c lamp) ≡ false)
    → Assoc.get (handle fails r b e).0.announced lamp.device_id ≡ some lamp.name
unfolding handle
handle_announced fails r b e lamp found named kind owned called sends =
    rw (handle, named, found)
      (handle_kind_announced fails b e.device_id lamp e.kind kind owned called sends)
