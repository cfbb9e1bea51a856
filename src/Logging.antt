-- ===== src/Logging.antt =====
-- controllers/logging: the operator's logger (log.go, singleton.go) and its adapter for
-- controller-runtime (logr.go). What zerolog is asked to do is a list of events; that it drops those
-- below the global level is zerolog's part. `fmt.Sprintf("%s", …)` and `json.Marshal` are parameters.
pub mod Laws
use k8gb.Prelude.{
  ℕ, zero, suc, ◌+◌, ◌*◌, ◌/◌, String, Bool, true, false, Option, none, some, List, [], ◌∷◌, ◌++◌,
  ◌==◌, length, get_elem?, leb, ltb, if◌then◌else◌,
}
use k8gb.Prelude.Dict.{Dict, insert}
use k8gb.Prelude.Int.{ℤ, pos, leb_ℤ, eq_ℤ}
use k8gb.Effect.{Error, Outcome, ok, err, panicked}
use k8gb.Depresolver.{Config, LogFormat, LogLevel}

-- A message: its level, the error beside it, the format and its arguments, not put together.
pub data Event : Type 0 where
  set_global_level : LogLevel → Event
  send : LogLevel → Option Error → String → List String → Event

-- A logger writes JSON to the standard output, or text to the console, with colours or without. The
-- zero logger writes nothing.
pub data Logger : Type 0 where
  silent json_stdout : Logger
  console_stderr : Bool → Logger

-- The format is `none` where it is the zero value, which is no `LogFormat`.
pub record LoggerFactory : Type 0 where
  pub level : LogLevel
  pub format : Option LogFormat
  pub no_color : Bool

unfoldable pub new_logger : Option Config → LoggerFactory
new_logger none = record { level = LogLevel.debug_level; format = none; no_color = false }
new_logger (some config) = record {
  level = config.log.level;
  format = some config.log.format;
  no_color = config.log.no_color;
}

abbrev pub format_or_simple : Option LogFormat → Option LogFormat
format_or_simple (some LogFormat.no_format) = some LogFormat.simple_format
format_or_simple format = format

abbrev pub level_or_info : LogLevel → LogLevel
level_or_info LogLevel.no_level = LogLevel.info_level
level_or_info level = level

abbrev pub logger_for : Option LogFormat → Bool → Logger
logger_for (some LogFormat.json_format) no_color = Logger.json_stdout
logger_for (some LogFormat.simple_format) no_color = Logger.console_stderr no_color
logger_for _ no_color = Logger.silent

-- The factory that the call leaves, and the logger. The two messages about the settings follow.
unfoldable pub get : LoggerFactory → LoggerFactory × Logger × List Event
get l =
    let format = format_or_simple l.format in
    let level = level_or_info l.level in
    (
      record l { format = format; level = level },
      logger_for format l.no_color,
      Event.set_global_level level
          ∷ Event.send LogLevel.info_level none "Logger configured" []
          ∷ Event.send LogLevel.debug_level none "Logger settings" []
          ∷ [],
    )

-- The variables `once` and `log` of the package.
pub record Singleton : Type 0 where
  pub once : Bool
  pub log : Logger

abbrev pub fresh_singleton : Singleton
fresh_singleton = record { once = false; log = Logger.silent }

unfoldable pub init : Option Config → Singleton → Singleton × List Event
unfolding new_logger get
init c s =
    let (_, logger, events) = get (new_logger c) in
    if s.once then (s, []) else (record { once = true; log = logger }, events)

pub record LogrAdapter : Type 0 where
  pub z : Logger
  pub keys_and_values : Dict String
  pub name : String

unfoldable pub new_logr_adapter : Logger → LogrAdapter
new_logr_adapter l = record { z = l; keys_and_values = []; name = "" }

unfoldable pub with_name : LogrAdapter → String → LogrAdapter
with_name a name = record a { name = name }

-- An argument of type `interface{}`: any value, or the slice of arguments that `Info` and `Error`
-- pass on as one argument.
pub data Argument (A : Type 0) : Type 0 where
  value : A → Argument A
  slice : List A → Argument A

module _ {A : Type 0} (sprint : Argument A → String) (marshal : Dict String → String) where
  -- The rounds that are left, and the index. An index out of range panics.
  unfoldable pub values_loop : List (Argument A) → ℕ → ℕ → Dict String → Outcome (Dict String)
  unfolding insert
  values_loop args zero i kv = ok kv
  values_loop args (suc n) i kv = elim (get_elem? args (i * 2)) [
    | none ↦ panicked
    | some key ↦
        (let skipped = values_loop args n (i + 1) kv in
          if ltb (length args) (i * 2 + 1) then skipped else elim (get_elem? args (i * 2 + 1)) [
            | none ↦ panicked
            | some v ↦ values_loop args n (i + 1) (insert (sprint key) (sprint v) kv)
          ])
  ]

  abbrev keep_values : LogrAdapter → Outcome (Dict String) → Outcome LogrAdapter
  keep_values a (ok kv) = ok (record a { keys_and_values = kv })
  keep_values a (err e) = err e
  keep_values a panicked = panicked

  unfoldable pub with_values : LogrAdapter → List (Argument A) → Outcome LogrAdapter
  unfolding values_loop
  with_values a args = keep_values a (values_loop args (length args / 2) 0 a.keys_and_values)

  -- One message, with the adapter's name if it has one.
  abbrev named_message : LogrAdapter → String → LogLevel → Option Error → Event
  named_message a msg level e =
      Event.send level e "%s: %s %s" (a.name ∷ msg ∷ marshal a.keys_and_values ∷ [])

  abbrev message : LogrAdapter → String → LogLevel → Option Error → Event
  message a msg level e = Event.send level e "%s %s" (msg ∷ marshal a.keys_and_values ∷ [])

  abbrev pub info_events : LogrAdapter → String → List Event
  info_events a msg =
      let rest = message a msg LogLevel.info_level none ∷ [] in
      if a.name == "" then rest else named_message a msg LogLevel.info_level none ∷ rest

  -- zerolog's `Err` has the level info where there is no error.
  abbrev err_level : Option Error → LogLevel
  err_level none = LogLevel.info_level
  err_level (some e) = LogLevel.error_level

  abbrev pub error_events : LogrAdapter → Option Error → String → List Event
  error_events a e msg =
      if a.name == ""
      then message a msg (err_level e) e ∷ []
      else named_message a msg (err_level e) e ∷ []

  abbrev logged :
      (LogrAdapter → List Event) → Outcome LogrAdapter → Outcome (LogrAdapter × List Event)
  logged events (ok a) = ok (a, events a)
  logged events (err e) = err e
  logged events panicked = panicked

  -- `a.WithValues(keysAndValues)` passes the slice as one argument.
  unfoldable pub info : LogrAdapter → String → List A → Outcome (LogrAdapter × List Event)
  unfolding with_values
  info a msg args = logged (λ b. info_events b msg) (with_values a (Argument.slice args ∷ []))

  unfoldable pub error :
      LogrAdapter → Option Error → String → List A → Outcome (LogrAdapter × List Event)
  unfolding with_values
  error a e msg args = logged (λ b. error_events b e msg) (with_values a (Argument.slice args ∷ []))

-- The three tests of `V`, which sets the level of all loggers and returns the adapter.
unfoldable pub v : ℤ → List Event
v level =
    (if leb_ℤ level (pos 0) then Event.set_global_level LogLevel.debug_level ∷ [] else [])
    ++ ((if eq_ℤ level (pos 1) then Event.set_global_level LogLevel.info_level ∷ [] else [])
        ++ (if leb_ℤ (pos 2) level then Event.set_global_level LogLevel.warn_level ∷ [] else []))
