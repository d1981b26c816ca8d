-- ===== src/Tests/Starting.antt =====
-- The program's start with the default flags, and a run of the UI server.
use poll_operator.Base.{none, some, String, Bool, true, false, Option, [], ◌∷◌, ◌≡◌, ◌↔◌, Memᴰ}
use poll_operator.Ui.Server.{Run, start, shutting_down, draining, returned}
use poll_operator.Main.{Action, default_flags, manager_options, authenticated, main, start_manager}
use poll_operator.Main.Startup.{IsSetUp, all_calls, configured, main_starts, servers_hardened}

-- The check of readiness cannot be added.
abbrev not_ready : Action → Bool
not_ready Action.add_readyz_check = false
not_ready _ = true

main_starts_example :
    (Memᴰ start_manager (main not_ready default_flags "").0 ↔ IsSetUp not_ready default_flags "")
    × (IsSetUp not_ready default_flags ""
        → (main not_ready default_flags "").0 ≡ all_calls not_ready default_flags "")
    × (((main not_ready default_flags "").1 ≡ 0)
        ↔ (IsSetUp not_ready default_flags "" × (not_ready start_manager ≡ true)))
main_starts_example = main_starts not_ready default_flags ""

servers_hardened_example :
    (configured (manager_options default_flags).webhook_server.tls ("h2" ∷ []) ≡ "http/1.1" ∷ [])
    × (configured (manager_options default_flags).metrics.tls ("h2" ∷ []) ≡ "http/1.1" ∷ [])
    × (((manager_options default_flags).metrics.filter_provider ≡ authenticated)
        ↔ ((manager_options default_flags).metrics.secure_serving ≡ true))
servers_hardened_example = servers_hardened default_flags ("h2" ∷ [])

abbrev cancelled : Run
cancelled = record start { is_cancelled = true }

-- The context is cancelled, `Shutdown` makes the goroutine end, and `Start` returns.
abbrev ended : Run
ended = record {
  is_cancelled = true;
  is_closed = true;
  is_listening = false;
  err_ch = none;
  phase = returned none;
}

abbrev closing : Run
closing = record cancelled { is_closed = true; phase = shutting_down }

abbrev closed : Run
closed = record closing { is_listening = false; err_ch = some none }

abbrev drained : Run
drained = record closed { phase = draining }

abbrev no_error : Option String
no_error = none
