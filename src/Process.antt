-- ===== src/Process.antt =====
-- src/main.rs: from the process' variables to the report of how the server ended. Logging and the
-- runtime are not modelled.
use portfolio_server.Errors.Start.{Failure, failed, panics}
use portfolio_server.Startup.Build.{build, BuildLib, Application}
use portfolio_server.Errors.Sql.{Anyhow}
use portfolio_server.Configuration.{get_configuration, Settings, ConfigLib}
use portfolio_server.Prelude.{ok, err, Result, Text, ◌++◌, text, and_then}

pub data Level : Type 0 where
  info error : Level

-- What `report_exit` logs of a task that ended, or that the runtime could not finish.
unfoldable pub report_exit : Text → Result (Result (Unit {0}) Anyhow) Anyhow → Level × Text
report_exit task_name (ok (ok _)) = (info, task_name ++ text " has exited")
report_exit task_name (ok (err e)) = (error, task_name ++ text " failed")
report_exit task_name (err e) = (error, task_name ++ text "' task failed to complete")

-- `expect` of the configuration: a panic inside it is that panic.
abbrev read_or_panic : Result Settings Failure → Result Settings Failure
read_or_panic (ok settings) = ok settings
read_or_panic (err (failed e)) = err (panics (text "Failed to read configuration."))
read_or_panic (err (panics why)) = err (panics why)

-- `run_until_stopped` of the application is a parameter. The process succeeds however the server
-- ended.
unfoldable pub main :
    ConfigLib
    → (lib : BuildLib) → (Application lib → Result (Result (Unit {0}) Anyhow) Anyhow)
    → Result (Level × Text) Failure
unfolding get_configuration build report_exit
main config lib run_until_stopped = and_then (read_or_panic (get_configuration config)) (λ settings.
    and_then (build lib settings)
      (λ application. ok (report_exit (text "API") (run_until_stopped application))))
