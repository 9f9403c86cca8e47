-- ===== src/Settings/Load/Outcome.antt =====
-- internal/config/config.go: which error `Load` stops at.
use haigosmart.Base.{
  ◌≡◌, refl, ap, ◌⊎◌, inl, inr, List, [], ◌∷◌, ◌++◌, none, some, Result, ok, err, Bool-cases,
  Option-cases, All,
}
use haigosmart.Base.Text.{Str, is_empty}
use haigosmart.Settings.{FlagSet, new_flag_set, assign}
use haigosmart.Settings.Flags.{Setting, kind_of, Carrier, name_of, all_settings, env_name}
use haigosmart.Settings.Load.{
  FlagPackage, LoadError, environment, argument, command_line, read, set_flag, set_all, apply_env,
  parse, gather,
}
use haigosmart.Settings.Load.Precedence.{env_given}

module _ (pk : FlagPackage) where
  abbrev pub Reads : Setting × Str → Type 0
  Reads (s, written) = (v : Carrier (kind_of s)) × (read pk (kind_of s) written ≡ some v)

  -- The first of the assignments whose text does not read, and what it is refused with.
  abbrev pub StopsAt :
      {A : Type 0}
      → (Setting → Str → LoadError)
      → List (Setting × Str)
      → Result LoadError A
      → Type 0
  StopsAt refusal given out =
      (before after : List (Setting × Str)) × (s : Setting) × (written : Str) × (given
        ≡ before ++ (s, written) ∷ after)
      × All Reads before
      × (read pk (kind_of s) written ≡ none)
      × (out ≡ err (refusal s written))

  set_all_outcome :
      (given : List (Setting × Str)) (f : FlagSet)
      → (All Reads given × ((g : FlagSet) × (set_all pk given f ≡ ok g)))
        ⊎ StopsAt argument given (set_all pk given f)
  unfolding set_all set_flag
  set_all_outcome [] f = inl (tt, (f, refl))
  set_all_outcome ((s, written) ∷ rest) f = elim (Option-cases (read pk (kind_of s) written)) [
    | inl e ↦ inr ([], rest, s, written, refl, tt, e, rw (set_all, set_flag, e) refl)
    | inr (v, e) ↦ elim (set_all_outcome rest (assign s v f)) [
      | inl (reads, (g, done)) ↦ inl (((v, e), reads), (g, rw (set_all, set_flag, e) done))
      | inr (before, after, t, w, parts, reads, bad, stops) ↦ inr (
        (s, written) ∷ before,
        after,
        t,
        w,
        ap (◌∷◌ (s, written)) parts,
        ((v, e), reads),
        bad,
        rw (set_all, set_flag, e) stops,
      )
    ]
  ]

  apply_env_outcome :
      (env : Str → Str) (ss : List Setting) (f : FlagSet)
      → (All Reads (env_given env ss)
          × ((out : FlagSet × List Str) × (apply_env pk env ss f ≡ ok out)))
        ⊎ StopsAt environment (env_given env ss) (apply_env pk env ss f)
  unfolding apply_env set_flag env_given
  apply_env_outcome env [] f = inl (tt, ((f, []), refl))
  apply_env_outcome env (s ∷ ss) f = elim (Bool-cases (is_empty (env (env_name (name_of s))))) [
    | inl e ↦ rw e (apply_env_outcome env ss f)
    | inr e ↦ elim (Option-cases (read pk (kind_of s) (env (env_name (name_of s))))) [
      | inl bad ↦
          rw (e, set_flag, bad)
            (inr ([], env_given env ss, s, env (env_name (name_of s)), refl, tt, bad, refl))
      | inr (v, set) ↦ elim (apply_env_outcome env ss (assign s v f)) [
        | inl (reads, (out, done)) ↦
            rw (e, set_flag, set, done)
              (inl (((v, refl), reads), ((out.0, name_of s ∷ out.1), refl)))
        | inr (before, after, t, w, parts, reads, bad, stops) ↦
            rw (e, set_flag, set, stops)
              (inr (
                (s, env (env_name (name_of s))) ∷ before,
                after,
                t,
                w,
                ap (◌∷◌ (s, env (env_name (name_of s)))) parts,
                ((v, set), reads),
                bad,
                refl,
              ))
      ]
    ]
  ]

  -- Gathering the settings stops at the first variable in lexical order whose text does not read, and
  -- whatever the arguments are; where all variables read, at the first argument that does not; where
  -- these read too, at the word that is no argument; and where there is none, it succeeds.
  pub gather_outcome :
      (default_path : Str) (args : List Str) (env : Str → Str)
      → StopsAt environment (env_given env all_settings) (gather pk default_path args env)
        ⊎ (All Reads (env_given env all_settings)
            × (StopsAt argument (pk.arguments args).0 (gather pk default_path args env)
                ⊎ (All Reads (pk.arguments args).0
                    × (((refusal : Str) × ((pk.arguments args).1 ≡ some refusal)
                          × (gather pk default_path args env ≡ err (command_line refusal)))
                        ⊎ (((pk.arguments args).1 ≡ none)
                            × ((out : FlagSet × List Str) × (gather pk default_path args env
                                  ≡ ok out)))))))
  unfolding gather parse
  gather_outcome default_path args env =
      elim (apply_env_outcome env all_settings (new_flag_set default_path)) [
        | inr (before, after, s, w, parts, reads, bad, stops) ↦
            inl (before, after, s, w, parts, reads, bad, rw (gather, stops) refl)
        | inl (reads, (out, applied)) ↦ elim (set_all_outcome (pk.arguments args).0 out.0) [
          | inr (before, after, s, w, parts, given, bad, stops) ↦ inr (
            reads,
            inl (before, after, s, w, parts, given, bad, rw (gather, applied, parse, stops) refl),
          )
          | inl (given, (g, set)) ↦ elim (Option-cases (pk.arguments args).1) [
            | inr (refusal, e) ↦
                inr (reads, inr (given, inl (refusal, e, rw (gather, applied, parse, set, e) refl)))
            | inl e ↦ inr (
              reads,
              inr (given, inr (e, ((g, out.1), rw (gather, applied, parse, set, e) refl))),
            )
          ]
        ]
      ]
