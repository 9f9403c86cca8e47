-- ===== src/Control/Execute.antt =====
-- internal/control/execute.go: running a command. What the operator sees is kept as the message and its
-- values.
pub mod Change
use haigosmart.Base.{
  ℕ, ◌%◌, ◌^◌, List, [], ◌∷◌, Bool, true, false, not, ◌&&◌, ◌||◌, Option, none, some, if◌then◌else◌,
  Result, ok, err,
}
use haigosmart.Base.Text.{Str}
use haigosmart.Base.Int.{ℤ, pos, pos_part, ltb_ℤ}
use haigosmart.Bulb.{Bulb, LightState, supports_color_temp, supports_color}
use haigosmart.Events.{Event}
use haigosmart.Registry
use haigosmart.Registry.{Registry}
use haigosmart.Registry.Resolve.{list, resolve}
use haigosmart.Lights
use haigosmart.Lights.{not_adopted, not_connected, unsupported, unconfirmed, What, range_error}
use haigosmart.Control.{
  Command, Action, action_list, action_help, action_quit, action_info, action_name, action_on,
  action_off, action_brightness, action_color_temp, action_color, ParseError, empty_command, parse,
  valid_color, is_verb,
}

pub data Reply : Type 0 where
  nothing shutting_down : Reply
  listing : List Bulb → Reply
  help_on : Str → Reply
  malformed : ParseError → Reply
  unresolved : Registry.Error → Reply
  info_on : Bulb → Reply
  name_is_command : Str → Reply
  adopted_as : Str → Bulb → Reply
  renamed_from : Str → Str → Reply
  bad_brightness bad_color_temp : ℤ → Reply
  bad_color : Str → Reply
  no_color_temp no_color no_color_mapping : Bulb → Reply
  done sent : Bulb → Command → Reply
  needs_adoption unreachable : Bulb → Reply
  out_of_range : What → ℕ → Reply
  failed : Bulb → Lights.Error → Reply

pub data ReplyKind : Type 0 where
  kind_ok kind_error kind_info : ReplyKind

unfoldable pub reply_kind : Reply → ReplyKind
reply_kind shutting_down = kind_ok
reply_kind (adopted_as name b) = kind_ok
reply_kind (renamed_from name old) = kind_ok
reply_kind (done b cmd) = kind_ok
reply_kind nothing = kind_info
reply_kind (listing bs) = kind_info
reply_kind (help_on topic) = kind_info
reply_kind (info_on b) = kind_info
reply_kind (sent b cmd) = kind_info
reply_kind _ = kind_error

abbrev unchanged : Lights.Change
unchanged = record { power = none; brightness = none; color_temp = none }

-- n < 0 || n > 100
abbrev outside_percent : ℤ → Bool
outside_percent n = ltb_ℤ n (pos 0) || ltb_ℤ (pos 100) n

-- Every request for a colour is refused.
unfoldable pub color_refusal : Bulb → Str → Reply
unfolding supports_color valid_color
color_refusal target text =
    if not (valid_color text)
    then bad_color text
    else if not (supports_color target.capabilities)
    then no_color target
    else no_color_mapping target

-- The cases of changeFor, with the command's number and text.
unfoldable pub checked : Action → Bulb → ℤ → Str → Result Reply Lights.Change
unfolding supports_color_temp color_refusal
checked action_on target n text = ok (record unchanged { power = some true })
checked action_off target n text = ok (record unchanged { power = some false })
checked action_brightness target n text =
    if outside_percent n
    then err (bad_brightness n)
    else ok (record unchanged { brightness = some (pos_part n % 2 ^ 8) })
checked action_color_temp target n text =
    if outside_percent n
    then err (bad_color_temp n)
    else if not (supports_color_temp target.capabilities)
    then err (no_color_temp target)
    else ok (record unchanged { color_temp = some (pos_part n % 2 ^ 8) })
checked action_color target n text = err (color_refusal target text)
checked _ target n text = ok unchanged

unfoldable pub change_for : Bulb → Command → Result Reply Lights.Change
unfolding checked
change_for target cmd = checked cmd.action target cmd.number cmd.text

unfoldable pub render_error : Bulb → Lights.Error → Reply
render_error target not_adopted = needs_adoption target
render_error target not_connected = unreachable target
render_error target unsupported = no_color_temp target
render_error target (range_error what n) = out_of_range what n
render_error target e = failed target e

-- What a command leaves: the registry, the events that were published, and the reply.
pub record Outcome : Type 0 where
  pub registry : Registry
  pub published : List Event
  pub reply : Reply

abbrev quietly : Registry → Reply → Outcome
quietly r reply = record { registry = r; published = []; reply = reply }

abbrev is_ok {ℓ} : {E : Type 0} {A : Type ℓ} → Result E A → Bool
is_ok (ok a) = true
is_ok (err e) = false

unfoldable pub rename : Registry → ℕ → Bulb → Str → Outcome
unfolding parse is_verb Lights.rename
rename r now target name =
    if is_ok (parse name) && is_verb name
    then quietly r (name_is_command name)
    else let result = Lights.rename r now target.device_id name in
      record {
        registry = result.0;
        published = result.1;
        reply = elim result.2 [
          | err e ↦ unresolved e
          | ok true ↦ adopted_as name target
          | ok false ↦ renamed_from name target.name
        ];
      }

unfoldable pub answer : Bulb → Command → Option Lights.Error → Reply
unfolding render_error
answer target cmd none = done target cmd
answer target cmd (some unconfirmed) = sent target cmd
answer target cmd (some e) = render_error target e

unfoldable pub change :
    (ℕ → LightState → Option Lights.Error) → Registry → ℕ → Bulb → Command → Outcome
unfolding change_for Lights.apply answer
change d r now target cmd = elim (change_for target cmd) [
  | err reply ↦ quietly r reply
  | ok c ↦
      let result = Lights.apply d r now target.device_id c in
      record {
        registry = result.registry;
        published = result.published;
        reply = answer target cmd result.error;
      }
]

unfoldable pub run : (ℕ → LightState → Option Lights.Error) → Registry → ℕ → Command → Outcome
unfolding list resolve rename change
run d r now cmd =
    let on_target : (Bulb → Outcome) → Outcome = λ f. elim (resolve r cmd.target) [
      | err e ↦ quietly r (unresolved e)
      | ok target ↦ f target
    ] in
    elim cmd.action [
      | action_list ↦ quietly r (listing (list r))
      | action_help ↦ quietly r (help_on cmd.text)
      | action_quit ↦ quietly r shutting_down
      | action_info ↦ on_target (λ target. quietly r (info_on target))
      | action_name ↦ on_target (λ target. rename r now target cmd.text)
      | _ ↦ on_target (λ target. change d r now target cmd)
    ]

unfoldable pub execute : (ℕ → LightState → Option Lights.Error) → Registry → ℕ → Str → Outcome
unfolding parse run
execute d r now line = elim (parse line) [
  | err empty_command ↦ quietly r nothing
  | err e ↦ quietly r (malformed e)
  | ok cmd ↦ run d r now cmd
]
