-- ===== src/Daemon/Ending.antt =====
-- cmd/haigosmartd/main.go: how `run` ends.
use haigosmart.Base.{
  ◌≡◌, refl, List, [], ◌∷◌, ◌++◌, Bool, true, false, Option, none, some, if◌then◌else◌,
}
use haigosmart.Base.Text.{Str, codes}

-- What ends the wait: the server's error, or its return after the context was cancelled; a signal; and
-- the end of the terminal interface, with its error.
pub data Cause : Type 0 where
  server : Option Str → Cause
  signal : Option Str → Option Str → Cause
  terminal : Option Str → Option Str → Cause

pub data Action : Type 0 where
  log_signal : Str → Action
  cancel flush await_server close_subscription close_store close_log : Action

-- signalName: what stands in the channel of signals.
unfoldable pub signal_name : Option Str → Str
signal_name (some name) = name
signal_name none = codes "unknown"

-- What is done before the deferred calls, and the error that `run` returns. The last field of a cause
-- is what the server returns.
unfoldable pub ending : Cause → List Action × Option Str
unfolding signal_name
ending (server error) = (await_server ∷ [], error)
ending (signal name error) = (log_signal (signal_name name) ∷ flush ∷ await_server ∷ [], error)
ending (terminal (some failed) error) = (cancel ∷ await_server ∷ [], some failed)
ending (terminal none error) = (cancel ∷ await_server ∷ [], error)

-- The deferred calls, the last deferred first. The log file is none where the records go to standard
-- output; cancel is deferred too, and has no effect the second time.
unfoldable pub deferred : Bool → Cause → List Action
deferred to_file (terminal failed error) =
    close_subscription ∷ cancel ∷ close_store ∷ (if to_file then close_log ∷ [] else [])
deferred to_file (server error) = cancel ∷ close_store ∷ (if to_file then close_log ∷ [] else [])
deferred to_file (signal name error) =
    cancel ∷ close_store ∷ (if to_file then close_log ∷ [] else [])

unfoldable pub finish : Bool → Cause → List Action
unfolding ending deferred
finish to_file cause = (ending cause).0 ++ deferred to_file cause

abbrev pub is_close_store : Action → Bool
is_close_store close_store = true
is_close_store other = false

abbrev pub closes : List Action → Bool
closes [] = false
closes (a ∷ rest) = if is_close_store a then true else closes rest

-- However the run ends, the store is closed once, after the server has returned and before the log.
pub finish_order :
    (to_file : Bool) (cause : Cause)
    → (before between : List Action) × (finish to_file cause
        ≡ before
          ++ (await_server ∷ (between ++ (close_store ∷ (if to_file then close_log ∷ [] else [])))))
      × (closes before ≡ false)
      × (closes between ≡ false)
unfolding finish
finish_order to_file (server error) = ([], cancel ∷ [], refl, refl, refl)
finish_order to_file (signal name error) =
    (log_signal (signal_name name) ∷ flush ∷ [], cancel ∷ [], refl, refl, refl)
finish_order to_file (terminal (some failed) error) =
    (cancel ∷ [], close_subscription ∷ cancel ∷ [], refl, refl, refl)
finish_order to_file (terminal none error) =
    (cancel ∷ [], close_subscription ∷ cancel ∷ [], refl, refl, refl)
