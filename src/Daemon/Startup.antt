-- ===== src/Daemon/Startup.antt =====
-- cmd/haigosmartd/main.go: what holds when the listener opens.
use mathlib.Core.Path.{subst}
use haigosmart.Base.{
  ◌≡◌, ◌≢◌, refl, ap, List, [], Bool, true, Option, none, some, All, Result, ok, err, >>=-eq-ok,
  wrap_error, wrap_error-eq-ok,
}
use haigosmart.Base.Text.{Str}
use haigosmart.Bulb.{Bulb, discovered}
use haigosmart.Registry
use haigosmart.Registry.{Registry, find}
use haigosmart.Registry.Persist as Persist
use haigosmart.Lamps.{declare_lamps, parse_lamps}
use haigosmart.Lamps.Unique.{IsUnique, parse_lamps-IsUnique}
use haigosmart.Lamps.Declared.{Served, declare_lamps-Served, is_configured-Served}
use haigosmart.Settings.{Config}
use haigosmart.Settings.Load.{FlagPackage, LoadError, bad_lamps, gather, load}
use haigosmart.Settings.Checks.{Refusal, validate, Runnable, validate_iff}
use haigosmart.Daemon.{
  System, StartError, settings, configured_lamp, registry_file, Running, admission, declare_all,
  refuse, new_logger, Logger, opened, start_up,
}

lamps_of : {a b : Config} → ◌≡◌ {A = Result LoadError Config} (ok a) (ok b) → a.lamps ≡ b.lamps
lamps_of same =
    ap (λ (out : Result LoadError Config). elim out [ ok c ↦ c.lamps | err e ↦ [] ]) same

load-IsUnique :
    (pk : FlagPackage) (default_path : Str) (args : List Str) (env : Str → Str) (c : Config)
    → load pk default_path args env ≡ ok c
    → IsUnique c.lamps
unfolding load
load-IsUnique pk default_path args env c done =
    let (out, gathered, rest) = >>=-eq-ok (gather pk default_path args env) _ done in
    let (ls, parsed, last) =
      >>=-eq-ok (wrap_error bad_lamps (parse_lamps out.0.lamps_text)) _ rest in
    subst IsUnique (lamps_of last)
      (parse_lamps-IsUnique out.0.lamps_text ls
        (wrap_error-eq-ok bad_lamps (parse_lamps out.0.lamps_text) parsed)).0

declared :
    (out : Registry × Option Registry.Error) {r' : Registry}
    → ◌≡◌ {A = Result StartError Registry}
        (elim out.1 [ some e ↦ err (configured_lamp e) | none ↦ ok out.0 ])
        (ok r')
    → out ≡ (r', none)
declared (r, some e) done = absurd (cc)
declared (r, none) done = cc

declare_all_declares :
    (r r' : Registry) (c : Config) → declare_all r c ≡ ok r' → declare_lamps r c.lamps ≡ (r', none)
unfolding declare_all
declare_all_declares r r' c done = declared (declare_lamps r c.lamps) done

refuse-none : (o : Option Refusal) (u : Unit {0}) → refuse o ≡ ok u → o ≡ none
unfolding refuse
refuse-none none u done = refl
refuse-none (some e) u done = absurd (cc)

-- What the theorem below says of what runs.
abbrev pub Serves : (Str → Bool) → Running → Type 0
Serves splits s =
    Runnable splits s.config
    × All (Served s.registry) s.config.lamps
    × ((id : Str)
        → s.config.headless ≡ true
        → s.admit id ≡ true
        → (b : Bulb) × (find s.registry id ≡ some b) × (b.status ≢ discovered))

opened-Serves :
    (splits : Str → Bool) (c : Config) (l : Logger) (r : Registry)
    → Runnable splits c
    → All (Served r) c.lamps
    → Serves splits (opened c l r)
unfolding opened admission
opened-Serves splits c l r can served = (
  can,
  served,
  λ id headless admitted. is_configured-Served c.lamps r id served (rw headless at admitted),
)

-- When the listener opens: the configuration can run; every configured lamp is registered under its
-- configured name and as adopted; and where nobody is at the terminal, whoever is admitted is a bulb
-- that is registered and adopted.
pub start_up-Serves :
    (pk : FlagPackage) (sys : System) (args : List Str) (env : Str → Str) (s : Running)
    → start_up pk sys args env ≡ ok s
    → Serves sys.splits s
unfolding start_up
start_up-Serves pk sys args env s done =
    let (c, loaded, rest) =
      >>=-eq-ok (wrap_error settings (load pk sys.default_path args env)) _ done in
    let (u, valid, rest₂) = >>=-eq-ok (refuse (validate sys.splits c)) _ rest in
    let (l, logs, rest₃) = >>=-eq-ok (new_logger sys c.log_path c.headless c.verbose) _ rest₂ in
    let (r, found, rest₄) =
      >>=-eq-ok (wrap_error registry_file (Persist.load (sys.on_disk c.registry_path))) _ rest₃ in
    let (r', placed, last) = >>=-eq-ok (declare_all r c) _ rest₄ in
    let unique =
      load-IsUnique pk sys.default_path args env c
        (wrap_error-eq-ok settings (load pk sys.default_path args env) loaded) in
    let same : opened c l r' ≡ s = cc in
    subst (Serves sys.splits) same (
      opened-Serves sys.splits c l r'
        ((validate_iff sys.splits c).0 (refuse-none (validate sys.splits c) u valid))
        (declare_lamps-Served c.lamps r r' unique (declare_all_declares r r' c placed)))
