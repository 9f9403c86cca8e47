-- ===== src/Settings/Load/Overridden.antt =====
-- internal/config/config.go: the settings that the command line overrode.
use haigosmart.Base.{
  ◌≡◌, refl, sym, ap, ◌∙◌, inl, inr, List, [], ◌∷◌, Bool, true, false, ◌&&◌, Option, none, some,
  arith, if◌then◌else◌, Result, ok, err, ◌>>=◌, >>=-eq-ok, Bool-cases, Option-cases, wrap_error,
}
use haigosmart.Base.Text.{Str, is_empty, str_eq, str_eq_iff}
use haigosmart.Lamps.{parse_lamps}
use haigosmart.Registry.Resolve.{insert_text}
use haigosmart.Settings.{Config, FlagSet, new_flag_set, assign}
use haigosmart.Settings.Flags.{Setting, kind_of, name_of, all_settings, env_name}
use haigosmart.Settings.Load.{
  FlagPackage, LoadError, environment, argument, command_line, bad_lamps, read, set_flag, set_all,
  apply_env, parse, gather, load, member, names_given, flags_given_on, overridden,
}
use haigosmart.Settings.Load.Precedence.{
  last_given, from_variable, env_given, last_given-all_settings,
}

abbrev pub is_some : Option Str → Bool
is_some none = false
is_some (some w) = true

member-insert_text :
    (n s : Str) (ts : List Str)
    → member n (insert_text s ts) ≡ (if str_eq s n then true else member n ts)
unfolding member insert_text
member-insert_text n s [] = refl
member-insert_text n s (t ∷ ts) = ground (arith, member-insert_text n s ts)

member-overridden :
    (n : Str) (from_env given : List Str)
    → member n (overridden from_env given) ≡ (member n given && member n from_env)
unfolding overridden member
member-overridden n from_env [] = refl
member-overridden n from_env (g ∷ gs) = elim (Bool-cases (str_eq g n)) [
  | inl e ↦
      let same : member g from_env ≡ member n from_env =
        ap (λ (k : Str). member k from_env) ((str_eq_iff g n).0 e) in
      ground
        (arith, member-overridden n from_env gs, member-insert_text n g (overridden from_env gs))
  | inr e ↦
      ground
        (arith, member-overridden n from_env gs, member-insert_text n g (overridden from_env gs))
]

member-names_given :
    (s : Setting) (given : List (Setting × Str))
    → member (name_of s) (names_given given) ≡ is_some (last_given s given)
unfolding names_given member
member-names_given s [] = refl
member-names_given s ((t, w) ∷ rest) = elim (Bool-cases (str_eq (name_of t) (name_of s))) [
  | inl e ↦
      let same : member (name_of t) (names_given rest) ≡ member (name_of s) (names_given rest) =
        ap (λ (k : Str). member k (names_given rest)) ((str_eq_iff (name_of t) (name_of s)).0 e) in
      ground (arith, member-names_given s rest)
  | inr e ↦ ground (arith, member-names_given s rest)
]

overrides_of :
    {a b : Config} → ◌≡◌ {A = Result LoadError Config} (ok a) (ok b) → a.overrides ≡ b.overrides
overrides_of same =
    ap (λ (out : Result LoadError Config). elim out [ ok c ↦ c.overrides | err e ↦ [] ]) same

module _ (pk : FlagPackage) where
  member-apply_env :
      (env : Str → Str) (s : Setting) (ss : List Setting) (f g : FlagSet) (names : List Str)
      → apply_env pk env ss f ≡ ok (g, names)
      → member (name_of s) names ≡ is_some (last_given s (env_given env ss))
  unfolding apply_env member env_given
  member-apply_env env s [] f g names done = let same : [] ≡ names = cc in rw (← same) refl
  member-apply_env env s (t ∷ ts) f g names done =
      elim (Bool-cases (is_empty (env (env_name (name_of t))))) [
        | inl e ↦
            let skipped : apply_env pk env ts f ≡ ok (g, names) = rw (apply_env, e) at done in
            rw e (member-apply_env env s ts f g names skipped)
        | inr e ↦ elim (Option-cases (set_flag pk t (env (env_name (name_of t))) f)) [
          | inl refused ↦
              let wrong : ◌≡◌ {A = Result LoadError (FlagSet × List Str)}
                  (err (environment t (env (env_name (name_of t))))) (ok (g, names)) =
                rw (apply_env, e, refused) at done in
              absurd (cc)
          | inr (h, set) ↦
              let chained : (apply_env pk env ts h
                    >>= (λ (out : FlagSet × List Str). ok (out.0, name_of t ∷ out.1)))
                  ≡ ok (g, names) =
                rw (apply_env, e, set) at done in
              let (out, applied, last) = >>=-eq-ok (apply_env pk env ts h) _ chained in
              let same : name_of t ∷ out.1 ≡ names = cc in
              let rest = member-apply_env env s ts h out.0 out.1 applied in
              rw (e, ← same) (ground (arith, rest))
        ]
      ]

  set_all_ok :
      (given : List (Setting × Str)) (f g other : FlagSet)
      → set_all pk given f ≡ ok g
      → (h : FlagSet) × (set_all pk given other ≡ ok h)
  unfolding set_all set_flag
  set_all_ok [] f g other done = (other, refl)
  set_all_ok ((s, w) ∷ rest) f g other done = elim (Option-cases (read pk (kind_of s) w)) [
    | inl e ↦
        let wrong : err (argument s w) ≡ ok g = rw (set_all, set_flag, e) at done in absurd (cc)
    | inr (v, e) ↦
        let later : set_all pk rest (assign s v f) ≡ ok g = rw (set_all, set_flag, e) at done in
        rw (set_all, set_flag, e) (set_all_ok rest (assign s v f) g (assign s v other) later)
  ]

  parse_ok :
      (args : List Str) (f g other : FlagSet)
      → parse pk args f ≡ ok g
      → (h : FlagSet) × (parse pk args other ≡ ok h)
  unfolding parse
  parse_ok args f g other done =
      let (k, set, last) = >>=-eq-ok (set_all pk (pk.arguments args).0 f) _ done in
      let (h, again) = set_all_ok (pk.arguments args).0 f k other set in
      elim (Option-cases (pk.arguments args).1) [
        | inl e ↦ (h, rw (parse, again, e) refl)
        | inr (refusal, e) ↦
            let wrong : err (command_line refusal) ≡ ok g = rw e at last in absurd (cc)
      ]

  gather-names :
      (default_path : Str) (args : List Str) (env : Str → Str) (f : FlagSet) (names : List Str)
      → gather pk default_path args env ≡ ok (f, names)
      → (flags_given_on pk default_path args ≡ names_given (pk.arguments args).0)
        × ((s : Setting) → member (name_of s) names ≡ is_some (from_variable env s))
  unfolding gather flags_given_on
  gather-names default_path args env f names done =
      let (out, applied, rest) =
        >>=-eq-ok (apply_env pk env all_settings (new_flag_set default_path)) _ done in
      let (g, parsed, last) = >>=-eq-ok (parse pk args out.0) _ rest in
      let (h, again) = parse_ok args out.0 g (new_flag_set default_path) parsed in
      let same : out.1 ≡ names = cc in
      (
        rw (flags_given_on, again) refl,
        λ s.
            ap (member (name_of s)) (sym same)
            ∙ (member-apply_env env s all_settings (new_flag_set default_path) out.0 out.1 applied
                ∙ ap is_some (last_given-all_settings env s)),
      )

  -- Where a configuration loads, its overrides name a setting exactly when the command line gives it
  -- and its variable of the environment is not empty.
  pub load-overrides :
      (default_path : Str) (args : List Str) (env : Str → Str) (c : Config)
      → load pk default_path args env ≡ ok c
      → (s : Setting)
      → member (name_of s) c.overrides
        ≡ (is_some (last_given s (pk.arguments args).0) && is_some (from_variable env s))
  unfolding load
  load-overrides default_path args env c done s =
      let ((f, names), gathered, rest) = >>=-eq-ok (gather pk default_path args env) _ done in
      let (ls, parsed_lamps, last) =
        >>=-eq-ok (wrap_error bad_lamps (parse_lamps f.lamps_text)) _ rest in
      let (given, from_env) = gather-names default_path args env f names gathered in
      ap (member (name_of s)) (sym (overrides_of last))
      ∙ (rw
          (
            given,
            member-overridden (name_of s) names (names_given (pk.arguments args).0),
            member-names_given s (pk.arguments args).0,
            from_env s,
          )
          refl)
