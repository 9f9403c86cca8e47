-- ===== src/Settings/Load.antt =====
-- internal/config/config.go: `Load`. What the package flag makes of a text and of the command line
-- is a parameter.
pub mod Precedence
pub mod Outcome
pub mod Overridden
use haigosmart.Base.{
  ℕ, List, [], ◌∷◌, ◌++◌, Bool, true, false, Option, none, some, if◌then◌else◌, Result, ok, err,
  ◌>>=◌, wrap_error,
}
use haigosmart.Base.Int.{ℤ}
use haigosmart.Base.Text.{Str, str_eq, is_empty}
use haigosmart.Lamps
use haigosmart.Lamps.{parse_lamps}
use haigosmart.Registry.Resolve.{insert_text}
use haigosmart.Settings.{Config, FlagSet, new_flag_set, assign}
use haigosmart.Settings.Flags.{
  Kind, boolean, whole_number, duration, text, Carrier, Setting, kind_of, name_of, all_settings,
  env_name,
}

-- The package flag: how it reads a value of each kind, and which assignments the arguments spell
-- before the first word that is none, with the refusal of that word.
pub record FlagPackage : Type 0 where
  pub read_bool : Str → Option Bool
  pub read_int : Str → Option ℤ
  pub read_duration : Str → Option ℤ
  pub arguments : List Str → List (Setting × Str) × Option Str

pub data LoadError : Type 0 where
  environment : Setting → Str → LoadError
  argument : Setting → Str → LoadError
  command_line : Str → LoadError
  bad_lamps : Lamps.Error → LoadError

unfoldable pub member : Str → List Str → Bool
member name [] = false
member name (n ∷ ns) = if str_eq n name then true else member name ns

-- The keys of the map, each once; a range over them goes in an order of this list.
unfoldable pub names_given : List (Setting × Str) → List Str
unfolding member
names_given [] = []
names_given ((s, value) ∷ rest) =
    let names = names_given rest in if member (name_of s) names then names else name_of s ∷ names

-- The names that the environment had set too, sorted.
unfoldable pub overridden : List Str → List Str → List Str
unfolding member insert_text
overridden from_env [] = []
overridden from_env (n ∷ ns) =
    let rest = overridden from_env ns in if member n from_env then insert_text n rest else rest

module _ (pk : FlagPackage) where
  unfoldable pub read : (k : Kind) → Str → Option (Carrier k)
  read boolean s = pk.read_bool s
  read whole_number s = pk.read_int s
  read duration s = pk.read_duration s
  read text s = some s

  -- FlagSet.Set
  unfoldable pub set_flag : Setting → Str → FlagSet → Option FlagSet
  unfolding read assign
  set_flag s written f = elim (read (kind_of s) written) [
    | none ↦ none
    | some v ↦ some (assign s v f)
  ]

  -- The pass over the environment: the flags and the names that were set, or the first error.
  unfoldable pub apply_env :
      (Str → Str) → List Setting → FlagSet → Result LoadError (FlagSet × List Str)
  unfolding set_flag is_empty
  apply_env env [] f = ok (f, [])
  apply_env env (s ∷ ss) f =
      let value = env (env_name (name_of s)) in
      let skipped = apply_env env ss f in
      if is_empty value then skipped else elim (set_flag s value f) [
        | none ↦ err (environment s value)
        | some g ↦ apply_env env ss g >>= (λ out. ok (out.0, name_of s ∷ out.1))
      ]

  unfoldable pub set_all : List (Setting × Str) → FlagSet → Result LoadError FlagSet
  unfolding set_flag
  set_all [] f = ok f
  set_all ((s, value) ∷ rest) f = elim (set_flag s value f) [
    | none ↦ err (argument s value)
    | some g ↦ set_all rest g
  ]

  -- FlagSet.Parse
  unfoldable pub parse : List Str → FlagSet → Result LoadError FlagSet
  unfolding set_all
  parse args f = set_all (pk.arguments args).0 f >>= (λ g. elim (pk.arguments args).1 [
    | none ↦ ok g
    | some refusal ↦ err (command_line refusal)
  ])

  unfoldable pub flags_given_on : Str → List Str → List Str
  unfolding parse names_given new_flag_set
  flags_given_on default_path args = elim (parse args (new_flag_set default_path)) [
    | err e ↦ []
    | ok f ↦ names_given (pk.arguments args).0
  ]

  -- The environment, and then the command line over it.
  unfoldable pub gather : Str → List Str → (Str → Str) → Result LoadError (FlagSet × List Str)
  unfolding apply_env parse
  gather default_path args env =
      apply_env env all_settings (new_flag_set default_path)
      >>= (λ out. parse args out.0 >>= (λ f. ok (f, out.1)))

  unfoldable pub load : Str → List Str → (Str → Str) → Result LoadError Config
  unfolding gather overridden flags_given_on parse_lamps
  load default_path args env = gather default_path args env >>= (λ out.
      wrap_error bad_lamps (parse_lamps out.0.lamps_text) >>= (λ ls. ok (record out.0.config {
        overrides = overridden out.1 (flags_given_on default_path args);
        lamps = ls;
      })))
