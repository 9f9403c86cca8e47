-- ===== src/Control/Help.antt =====
-- internal/control/help.go: the command reference, and detail on one command.
use haigosmart.Base.{
  ℕ, zero, suc, ◌-◌, ◌≡◌, refl, ap, ◌∙◌, List, [], ◌∷◌, ◌++◌, Bool, true, false, not, ◌||◌, Option,
  none, some, leb, if◌then◌else◌, length, arith,
}
use haigosmart.Base.Text.{Str, codes, is_empty, str_eq}
use haigosmart.Control.{verbs}

pub record HelpLine : Type 0 where
  pub verb : Str
  pub args : Str
  pub what : Str

unfoldable pub help_lines : List HelpLine
help_lines =
    (record {
      verb = codes "list";
      args = [];
      what = codes "show every bulb: name, id, status, power, brightness, temperature";
    })
    ∷ (record { verb = codes "on"; args = codes "<bulb>"; what = codes "turn a bulb on" })
    ∷ (record { verb = codes "off"; args = codes "<bulb>"; what = codes "turn a bulb off" })
    ∷ (record {
      verb = codes "bri";
      args = codes "<bulb> <0-100>";
      what = codes "set brightness; 0 switches the bulb off";
    })
    ∷ (record {
      verb = codes "temp";
      args = codes "<bulb> <0-100>";
      what = codes "set white warmth: 0 is warmest, 100 is coolest";
    })
    ∷ (record {
      verb = codes "color";
      args = codes "<bulb> <#RRGGBB|name>";
      what = codes "set colour (only on bulbs that have it)";
    })
    ∷ (record {
      verb = codes "name";
      args = codes "<bulb> <a-name>";
      what = codes "name a bulb; naming a new one adopts it so you can control it";
    })
    ∷ (record {
      verb = codes "info";
      args = codes "<bulb>";
      what = codes "everything known about one bulb";
    })
    ∷ (record {
      verb = codes "help";
      args = codes "[command]";
      what = codes "this list, or detail on one command";
    })
    ∷ (record { verb = codes "quit"; args = []; what = codes "save and exit" })
    ∷ []

abbrev newline : Str
newline = 10 ∷ []

abbrev spaces : ℕ → Str
spaces zero = []
spaces (suc n) = 32 ∷ spaces n

-- At least one space follows.
unfoldable pub pad : Str → ℕ → Str
pad s n = if leb n (length s) then s ++ codes " " else s ++ spaces (n - length s)

-- The detail on a verb, if it has a line.
unfoldable pub find_help : List HelpLine → Str → Option Str
unfolding str_eq
find_help [] verb = none
find_help (h ∷ hs) verb =
    let rest = find_help hs verb in
    if str_eq h.verb verb
    then some (h.verb ++ (codes " " ++ (h.args ++ (newline ++ (codes "  " ++ h.what)))))
    else rest

unfoldable pub no_such_command : Str → Str
no_such_command verb = codes "no such command: " ++ (verb ++ codes ". run `help` for the list")

unfoldable pub reference_line : HelpLine → Str
unfolding is_empty pad
reference_line h =
    let line = if is_empty h.args then h.verb else h.verb ++ (codes " " ++ h.args) in
    pad line 28 ++ (h.what ++ newline)

unfoldable pub reference_lines : List HelpLine → Str
unfolding reference_line
reference_lines [] = []
reference_lines (h ∷ hs) = reference_line h ++ reference_lines hs

-- With the bytes of "—", "↑", "↓" and "·" in UTF-8.
unfoldable pub reference : Str
unfolding reference_lines help_lines
reference =
    codes "<bulb> is a name or id; a unique prefix works too."
    ++ (newline
        ++ (codes "A new bulb shows as discovered "
            ++ ((0xE2 ∷ 0x80 ∷ 0x94 ∷ [])
                ++ (codes " `name` it once and it becomes controllable."
                    ++ (newline
                        ++ (newline
                            ++ (reference_lines help_lines
                                ++ (newline
                                    ++ (codes "keys: "
                                        ++ ((0xE2 ∷ 0x86 ∷ 0x91 ∷ b'/' ∷ 0xE2 ∷ 0x86 ∷ 0x93 ∷ [])
                                            ++ (codes " history "
                                                ++ ((0xC2 ∷ 0xB7 ∷ [])
                                                    ++ (codes " PgUp/PgDn scroll the feed "
                                                        ++ ((0xC2 ∷ 0xB7 ∷ [])
                                                            ++ codes " Ctrl+C quit"))))))))))))))

unfoldable pub help : Str → Str
unfolding is_empty find_help help_lines no_such_command reference
help verb =
    if not (is_empty verb)
    then elim (find_help help_lines verb) [ none ↦ no_such_command verb | some detail ↦ detail ]
    else reference

-- Whether a word stands among these.
abbrev among : List Str → Str → Bool
among [] word = false
among (v ∷ vs) word = str_eq v word || among vs word

abbrev verbs_of : List HelpLine → List Str
verbs_of [] = []
verbs_of (h ∷ hs) = h.verb ∷ verbs_of hs

abbrev is_some : Option Str → Bool
is_some none = false
is_some (some detail) = true

find_help-among :
    (hs : List HelpLine) (verb : Str) → is_some (find_help hs verb) ≡ among (verbs_of hs) verb
unfolding find_help
find_help-among [] verb = refl
find_help-among (h ∷ hs) verb = ground (arith, find_help-among hs verb)

-- The order of two neighbours does not matter.
among_swap :
    (ps : List Str) (v w : Str) (vs : List Str) (word : Str)
    → among (ps ++ v ∷ w ∷ vs) word ≡ among (ps ++ w ∷ v ∷ vs) word
among_swap [] v w vs word = ground arith
among_swap (p ∷ ps) v w vs word = ap (λ b. str_eq p word || b) (among_swap ps v w vs word)

-- There is detail on a word exactly if it is one of the verbs that commands begin with.
pub help_known : (verb : Str) → is_some (find_help help_lines verb) ≡ among verbs verb
unfolding help_lines
help_known verb =
    find_help-among help_lines verb
    ∙ among_swap (codes "list" ∷ codes "on" ∷ codes "off" ∷ codes "bri" ∷ []) (codes "temp")
        (codes "color") (codes "name" ∷ codes "info" ∷ codes "help" ∷ codes "quit" ∷ []) verb
