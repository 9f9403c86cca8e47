-- ===== src/Hass/Command/Topic.antt =====
-- The lamp that a command topic names.
use haigosmart.Base.{
  ◌-◌, ◌≡◌, refl, sym, [], ◌∷◌, ◌++◌, true, false, some, leb, drop, length, length-append,
  take-append_length, drop-append_length, arith,
}
use mathlib.Core.List.{append_assoc}
use haigosmart.Base.Text.{Str, codes, has_prefix, has_suffix, contains, is_empty, str_eq_refl}
use haigosmart.Hass.Config.{Config, with_defaults, command_topic, light_segment, set_segment}
use haigosmart.Hass.Command.{device_id_from_command_topic}

has_prefix-append : (p s : Str) → has_prefix p (p ++ s) ≡ true
unfolding has_prefix
has_prefix-append [] s = refl
has_prefix-append (c ∷ p) s = ground (arith, has_prefix-append p s)

has_suffix-append : (p s : Str) → has_suffix p (s ++ p) ≡ true
unfolding has_suffix
has_suffix-append p s =
    let count : length (s ++ p) - length p ≡ length s = ground (arith, length-append s p) in
    let fits : leb (length p) (length (s ++ p)) ≡ true = ground (arith, length-append s p) in
    rw (fits, count, drop-append_length s p) (str_eq_refl p)

-- A device id that is not empty and has no slash comes back from its command topic.
pub device_id_from_command_topic-command_topic :
    (c : Config) (id : Str)
    → is_empty id ≡ false
    → contains (codes "/") id ≡ false
    → device_id_from_command_topic c (command_topic c id) ≡ some id
unfolding device_id_from_command_topic command_topic
device_id_from_command_topic-command_topic c id full plain =
    let root = (with_defaults c).prefix ++ light_segment in
    let split : command_topic c id ≡ root ++ (id ++ set_segment) =
      sym (append_assoc (with_defaults c).prefix light_segment (id ++ set_segment)) in
    let tail : root ++ (id ++ set_segment) ≡ (root ++ id) ++ set_segment =
      sym (append_assoc root id set_segment) in
    let starts : has_prefix root (command_topic c id) ≡ true =
      rw split (has_prefix-append root (id ++ set_segment)) in
    let ends : has_suffix set_segment (command_topic c id) ≡ true =
      rw (split, tail) (has_suffix-append set_segment (root ++ id)) in
    let rest : drop (length root) (command_topic c id) ≡ id ++ set_segment =
      rw split (drop-append_length root (id ++ set_segment)) in
    let count : length (id ++ set_segment) - length set_segment ≡ length id =
      ground (arith, length-append id set_segment) in
    rw
      (
        starts,
        ends,
        rest,
        has_suffix-append set_segment id,
        count,
        take-append_length id set_segment,
        full,
        plain,
      )
      refl
