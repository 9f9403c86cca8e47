-- ===== src/Control.antt =====
-- internal/control/parse.go: the terminal's commands.
pub mod Help
pub mod Execute
use haigosmart.Base.{
  ℕ, ◌+◌, ◌-◌, ◌*◌, ◌^◌, List, [], ◌∷◌, Bool, true, false, not, ◌&&◌, ◌||◌, Option, none, some, ltb,
  leb, ◌==◌, if◌then◌else◌, length, Result, ok, err,
}
use haigosmart.Base.Text.{Str, codes, str_eq, to_lower, equal_fold, fields, is_empty}
use haigosmart.Base.Int.{ℤ, pos, sub_ℕ}

pub data Action : Type 0 where
  action_list action_on action_off action_brightness action_color action_color_temp : Action
  action_name action_info action_help action_quit : Action

pub record Command : Type 0 where
  pub action : Action
  pub target : Str
  pub number : ℤ
  pub text : Str

abbrev pub verbs : List Str
verbs =
    codes "list"
    ∷ codes "on"
    ∷ codes "off"
    ∷ codes "bri"
    ∷ codes "color"
    ∷ codes "temp"
    ∷ codes "name"
    ∷ codes "info"
    ∷ codes "help"
    ∷ codes "quit"
    ∷ []

-- The error of Parse, with the verb whose usage it states.
pub data ParseError : Type 0 where
  empty_command : ParseError
  usage : Str → ParseError
  not_a_number : Str → Str → ParseError
  unknown_command : Str → ParseError

abbrev digit : ℕ → Option ℕ
digit c = if leb b'0' c && leb c b'9' then some (c - b'0') else none

-- The value of decimal digits behind the value n.
unfoldable pub digits : ℕ → Str → Option ℕ
digits n [] = some n
digits n (c ∷ s) = elim (digit c) [ none ↦ none | some d ↦ digits (10 * n + d) s ]

-- strconv.Atoi for a 64-bit int: an optional sign and at least one digit.
unfoldable pub atoi : Str → Option ℤ
unfolding digits is_empty
atoi s = elim s [
  | [] ↦ none
  | c ∷ rest ↦
      let body = if c == b'+' || c == b'-' then rest else c ∷ rest in
      let limit = if c == b'-' then 2 ^ 63 + 1 else 2 ^ 63 in
      if is_empty body then none else elim (digits 0 body) [
        | none ↦ none
        | some n ↦ if ltb n limit then some (if c == b'-' then sub_ℕ 0 n else pos n) else none
      ]
]

abbrev pub plain : Action → Command
plain a = record { action = a; target = []; number = pos 0; text = [] }

-- Verbs with one bulb, with a bulb and a number, and with a bulb and a text.
unfoldable pub parse_one : Str → Action → List Str → Result ParseError Command
parse_one verb a (t ∷ []) = ok (record (plain a) { target = t })
parse_one verb a _ = err (usage verb)

unfoldable pub parse_number : Str → Action → List Str → Result ParseError Command
unfolding atoi
parse_number verb a (t ∷ n ∷ []) = elim (atoi n) [
  | none ↦ err (not_a_number verb n)
  | some i ↦ ok (record (plain a) { target = t; number = i })
]
parse_number verb a _ = err (usage verb)

unfoldable pub parse_text : Str → Action → List Str → Result ParseError Command
parse_text verb a (t ∷ x ∷ []) = ok (record (plain a) { target = t; text = x })
parse_text verb a _ = err (usage verb)

abbrev first_or_empty : List Str → Str
first_or_empty [] = []
first_or_empty (s ∷ ss) = s

-- The switch on the verb in lower case.
unfoldable pub parse_words : Str → List Str → Result ParseError Command
unfolding to_lower str_eq parse_one parse_number parse_text
parse_words word args =
    let verb = to_lower word in
    if str_eq verb (codes "list") || str_eq verb (codes "ls")
    then ok (plain action_list)
    else if str_eq verb (codes "help") || str_eq verb (codes "?")
    then ok (record (plain action_help) { text = first_or_empty args })
    else if str_eq verb (codes "quit") || str_eq verb (codes "exit")
    then ok (plain action_quit)
    else if str_eq verb (codes "on")
    then parse_one verb action_on args
    else if str_eq verb (codes "off")
    then parse_one verb action_off args
    else if str_eq verb (codes "info")
    then parse_one verb action_info args
    else if str_eq verb (codes "bri")
    then parse_number verb action_brightness args
    else if str_eq verb (codes "temp")
    then parse_number verb action_color_temp args
    else if str_eq verb (codes "color") || str_eq verb (codes "colour")
    then parse_text verb action_color args
    else if str_eq verb (codes "name") || str_eq verb (codes "rename")
    then parse_text verb action_name args
    else err (unknown_command word)

unfoldable pub parse : Str → Result ParseError Command
unfolding fields parse_words
parse line = elim (fields line) [ [] ↦ err empty_command | word ∷ args ↦ parse_words word args ]

abbrev pub color_names : List Str
color_names =
    codes "red"
    ∷ codes "green"
    ∷ codes "blue"
    ∷ codes "white"
    ∷ codes "warmwhite"
    ∷ codes "yellow"
    ∷ codes "cyan"
    ∷ codes "magenta"
    ∷ codes "orange"
    ∷ codes "purple"
    ∷ []

abbrev any_eq : Str → List Str → Bool
any_eq s [] = false
any_eq s (t ∷ ts) = str_eq t s || any_eq s ts

abbrev is_hex_digit : ℕ → Bool
is_hex_digit c =
    (leb b'0' c && leb c b'9') || (leb b'a' c && leb c b'f') || (leb b'A' c && leb c b'F')

abbrev all_hex : Str → Bool
all_hex [] = true
all_hex (c ∷ s) = is_hex_digit c && all_hex s

-- Six hexadecimal digits always fit 32 bits, so strconv.ParseUint accepts exactly those.
unfoldable pub valid_color : Str → Bool
unfolding to_lower str_eq
valid_color text = any_eq (to_lower text) color_names || (length text == 7 && hashed text)
  where
    hashed : Str → Bool
    hashed [] = false
    hashed (c ∷ s) = c == b'#' && all_hex s

abbrev any_fold : Str → List Str → Bool
any_fold s [] = false
any_fold s (v ∷ vs) = equal_fold v s || any_fold s vs

-- execute.go, IsVerb
unfoldable pub is_verb : Str → Bool
unfolding equal_fold
is_verb s = any_fold s verbs
