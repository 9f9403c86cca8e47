-- ===== src/Settings/Load/Precedence.antt =====
-- internal/config/config.go: where each setting's value comes from.
use mathlib.Core.Path.{subst}
use haigosmart.Base.{
  ◌≡◌, ◌≢◌, refl, sym, ap, ◌∙◌, inl, inr, List, [], ◌∷◌, Bool, true, false, Option, none, some,
  arith, if◌then◌else◌, Result, ok, err, ◌>>=◌, >>=-eq-ok, Bool-cases, Option-cases,
}
use haigosmart.Base.Text.{Str, str_eq, str_eq_iff, str_eq_refl, is_empty}
use haigosmart.Settings.{FlagSet, new_flag_set, value_of, assign}
use haigosmart.Settings.Places.{value_of-assign, value_of-assign_other}
use haigosmart.Settings.Flags.{
  Setting, command_timeout, ct_max_kelvin, ct_min_kelvin, headless, lamps, listen, log, mqtt_broker,
  mqtt_client_id, mqtt_discovery_prefix, mqtt_password, mqtt_prefix, mqtt_username, registry,
  verbose, kind_of, Carrier, name_of, all_settings, env_name,
}
use haigosmart.Settings.Flags.Environment.{name_of_injective}
use haigosmart.Settings.Load.{
  FlagPackage, LoadError, environment, argument, command_line, read, set_flag, set_all, apply_env,
  parse, gather,
}

-- The first of two texts, or the second where there is no first.
abbrev pub or_else : Option Str → Option Str → Option Str
or_else (some w) other = some w
or_else none other = other

-- The text that the last of the assignments to a setting gives it.
abbrev pub last_given : Setting → List (Setting × Str) → Option Str
last_given s [] = none
last_given s ((t, value) ∷ rest) =
    or_else (last_given s rest) (if str_eq (name_of t) (name_of s) then some value else none)

-- What the environment gives a setting: an empty variable gives nothing.
abbrev pub from_variable : (Str → Str) → Setting → Option Str
from_variable env s =
    if is_empty (env (env_name (name_of s))) then none else some (env (env_name (name_of s)))

-- The environment as assignments.
unfoldable pub env_given : (Str → Str) → List Setting → List (Setting × Str)
env_given env [] = []
env_given env (s ∷ ss) =
    let rest = env_given env ss in
    if is_empty (env (env_name (name_of s))) then rest else (s, env (env_name (name_of s))) ∷ rest

listed : Setting → List Setting → Bool
listed s [] = false
listed s (t ∷ ts) = if str_eq (name_of t) (name_of s) then true else listed s ts

listed-all_settings : (s : Setting) → listed s all_settings ≡ true
unfolding listed str_eq name_of
listed-all_settings command_timeout = refl
listed-all_settings ct_max_kelvin = refl
listed-all_settings ct_min_kelvin = refl
listed-all_settings headless = refl
listed-all_settings lamps = refl
listed-all_settings listen = refl
listed-all_settings log = refl
listed-all_settings mqtt_broker = refl
listed-all_settings mqtt_client_id = refl
listed-all_settings mqtt_discovery_prefix = refl
listed-all_settings mqtt_password = refl
listed-all_settings mqtt_prefix = refl
listed-all_settings mqtt_username = refl
listed-all_settings registry = refl
listed-all_settings verbose = refl

last_given-env_given :
    (env : Str → Str) (s : Setting) (ss : List Setting)
    → last_given s (env_given env ss) ≡ (if listed s ss then from_variable env s else none)
unfolding env_given listed
last_given-env_given env s [] = refl
last_given-env_given env s (t ∷ ts) = elim (Bool-cases (str_eq (name_of t) (name_of s))) [
  | inl e ↦
      let same : t ≡ s = name_of_injective t s ((str_eq_iff (name_of t) (name_of s)).0 e) in
      ground (arith, last_given-env_given env s ts, ap (from_variable env) same)
  | inr e ↦ ground (arith, last_given-env_given env s ts)
]

pub last_given-all_settings :
    (env : Str → Str) (s : Setting)
    → last_given s (env_given env all_settings) ≡ from_variable env s
last_given-all_settings env s =
    last_given-env_given env s all_settings
    ∙ ap (λ (b : Bool). if b then from_variable env s else none) (listed-all_settings s)

module _ (pk : FlagPackage) where
  -- A place holds what a text spells, or what it held before where there is no text.
  abbrev pub Holds : Setting → Option Str → FlagSet → FlagSet → Type 0
  Holds s none before after = value_of s after ≡ value_of s before
  Holds s (some written) before after = read pk (kind_of s) written ≡ some (value_of s after)

  set_flag_cases :
      (t : Setting) (written : Str) (f g : FlagSet)
      → set_flag pk t written f ≡ some g
      → (v : Carrier (kind_of t)) × (read pk (kind_of t) written ≡ some v) × (assign t v f ≡ g)
  unfolding set_flag
  set_flag_cases t written f g done = elim (Option-cases (read pk (kind_of t) written)) [
    | inl none_read ↦ let wrong : none ≡ some g = rw (set_flag, none_read) at done in absurd (cc)
    | inr (v, e) ↦ let same : some (assign t v f) ≡ some g = rw (set_flag, e) at done in (v, e, cc)
  ]

  set_flag_own :
      (s : Setting) (written : Str) (f g : FlagSet)
      → set_flag pk s written f ≡ some g
      → read pk (kind_of s) written ≡ some (value_of s g)
  set_flag_own s written f g done =
      let (v, e, final) = set_flag_cases s written f g done in
      e ∙ ap some (sym (value_of-assign s v f) ∙ ap (value_of s) final)

  set_flag_other :
      (s t : Setting) (written : Str) (f g : FlagSet)
      → s ≢ t
      → set_flag pk t written f ≡ some g
      → value_of s g ≡ value_of s f
  set_flag_other s t written f g differ done =
      let (v, e, final) = set_flag_cases t written f g done in
      ap (value_of s) (sym final) ∙ value_of-assign_other s t v f differ

  -- One assignment, as the place of a setting sees it.
  set_flag-Holds :
      (s t : Setting) (written : Str) (f g : FlagSet)
      → set_flag pk t written f ≡ some g
      → Holds s (if str_eq (name_of t) (name_of s) then some written else none) f g
  set_flag-Holds s t written f g done = elim (Bool-cases (str_eq (name_of t) (name_of s))) [
    | inl e ↦
        let same : t ≡ s = name_of_injective t s ((str_eq_iff (name_of t) (name_of s)).0 e) in
        rw e (
          subst (λ (u : Setting). set_flag pk u written f ≡ some g → Holds u (some written) f g)
            same (set_flag_own t written f g)
            (subst (λ (u : Setting). set_flag pk u written f ≡ some g) same done))
    | inr e ↦ rw e (
        set_flag_other s t written f g
          (λ same.
            let wrong : true ≡ false =
              sym (str_eq_refl (name_of t))
              ∙ (ap (λ (u : Setting). str_eq (name_of t) (name_of u)) (sym same) ∙ e) in
            absurd (cc))
          done)
  ]

  Holds-then :
      (s : Setting) (first later : Option Str) (f h g : FlagSet)
      → Holds s first f h
      → Holds s later h g
      → Holds s (or_else later first) f g
  Holds-then s first (some w) f h g before after = after
  Holds-then s none none f h g before after = after ∙ before
  Holds-then s (some w) none f h g before after = before ∙ ap some (sym after)

  set_all-Holds :
      (s : Setting) (given : List (Setting × Str)) (f g : FlagSet)
      → set_all pk given f ≡ ok g
      → Holds s (last_given s given) f g
  unfolding set_all
  set_all-Holds s [] f g done = let same : f ≡ g = cc in ap (value_of s) (sym same)
  set_all-Holds s ((t, written) ∷ rest) f g done = elim (Option-cases (set_flag pk t written f)) [
    | inl e ↦ let wrong : err (argument t written) ≡ ok g = rw (set_all, e) at done in absurd (cc)
    | inr (h, e) ↦
        let later : set_all pk rest h ≡ ok g = rw (set_all, e) at done in
        Holds-then s (if str_eq (name_of t) (name_of s) then some written else none)
          (last_given s rest) f h g (set_flag-Holds s t written f h e)
          (set_all-Holds s rest h g later)
  ]

  -- The pass over the environment makes the assignments that it gives.
  apply_env-set_all :
      (env : Str → Str) (ss : List Setting) (f g : FlagSet) (names : List Str)
      → apply_env pk env ss f ≡ ok (g, names)
      → set_all pk (env_given env ss) f ≡ ok g
  unfolding apply_env set_all env_given
  apply_env-set_all env [] f g names done = let same : f ≡ g = cc in ap ok same
  apply_env-set_all env (s ∷ ss) f g names done =
      elim (Bool-cases (is_empty (env (env_name (name_of s))))) [
        | inl e ↦
            let skipped : apply_env pk env ss f ≡ ok (g, names) = rw (apply_env, e) at done in
            rw e (apply_env-set_all env ss f g names skipped)
        | inr e ↦ elim (Option-cases (set_flag pk s (env (env_name (name_of s))) f)) [
          | inl refused ↦
              let wrong : ◌≡◌ {A = Result LoadError (FlagSet × List Str)}
                  (err (environment s (env (env_name (name_of s))))) (ok (g, names)) =
                rw (apply_env, e, refused) at done in
              absurd (cc)
          | inr (h, set) ↦
              let chained : (apply_env pk env ss h
                    >>= (λ (out : FlagSet × List Str). ok (out.0, name_of s ∷ out.1)))
                  ≡ ok (g, names) =
                rw (apply_env, e, set) at done in
              let (out, applied, last) = >>=-eq-ok (apply_env pk env ss h) _ chained in
              let same : out.0 ≡ g = cc in
              rw (e, set_all, set)
                (subst (λ (k : FlagSet). set_all pk (env_given env ss) h ≡ ok k) same
                  (apply_env-set_all env ss h out.0 out.1 applied))
        ]
      ]

  parse-set_all :
      (args : List Str) (f g : FlagSet)
      → parse pk args f ≡ ok g
      → set_all pk (pk.arguments args).0 f ≡ ok g
  unfolding parse
  parse-set_all args f g done =
      let (h, set, rest) = >>=-eq-ok (set_all pk (pk.arguments args).0 f) _ done in
      elim (Option-cases (pk.arguments args).1) [
        | inl e ↦ let same : ok h ≡ ok g = rw e at rest in set ∙ same
        | inr (refusal, e) ↦
            let wrong : err (command_line refusal) ≡ ok g = rw e at rest in absurd (cc)
      ]

  -- Where the settings are gathered without an error, each holds what its last argument on the
  -- command line spells; with none there, what its variable of the environment spells, if that is
  -- not empty; and otherwise its default.
  pub gather-Holds :
      (default_path : Str) (args : List Str) (env : Str → Str) (f : FlagSet) (names : List Str)
      → gather pk default_path args env ≡ ok (f, names)
      → (s : Setting)
      → Holds s
          (or_else (last_given s (pk.arguments args).0) (from_variable env s))
          (new_flag_set default_path)
          f
  unfolding gather
  gather-Holds default_path args env f names done s =
      let (out, applied, rest) =
        >>=-eq-ok (apply_env pk env all_settings (new_flag_set default_path)) _ done in
      let (g, parsed, last) = >>=-eq-ok (parse pk args out.0) _ rest in
      let same : g ≡ f = cc in
      let by_env =
        set_all-Holds s (env_given env all_settings) (new_flag_set default_path) out.0
          (apply_env-set_all env all_settings (new_flag_set default_path) out.0 out.1 applied) in
      subst
        (λ (k : FlagSet).
          Holds s (or_else (last_given s (pk.arguments args).0) (from_variable env s))
            (new_flag_set default_path) k)
        same
        (Holds-then s (from_variable env s) (last_given s (pk.arguments args).0)
          (new_flag_set default_path) out.0 g
          (subst (λ (o : Option Str). Holds s o (new_flag_set default_path) out.0)
            (last_given-all_settings env s) by_env)
          (set_all-Holds s (pk.arguments args).0 out.0 g (parse-set_all args out.0 g parsed)))
