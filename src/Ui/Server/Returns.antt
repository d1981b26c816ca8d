-- ===== src/Ui/Server/Returns.antt =====
-- With what the UI server's `Start` returns.
use poll_operator.Base.{String, ◌<>◌, true, Option, none, some, ◌≡◌, ◌⊎◌}
use poll_operator.Ui.Server.{shutting_down, draining, returned, Run}

-- Why the goroutine sends what it sends: nil after the context was cancelled, or the error with
-- which the server exited.
abbrev pub IsCause : Run → Option String → Type 0
IsCause r x =
    ((x ≡ none) × (r.is_cancelled ≡ true)) ⊎ ((e : String) × (x ≡ some ("UI server exited: " <> e)))

record IsCaused (r : Run) : Type 0 where
  closed : r.is_closed ≡ true → r.is_cancelled ≡ true
  left : (r.phase ≡ shutting_down) ⊎ (r.phase ≡ draining) → r.is_cancelled ≡ true
  sent : (x : Option String) → r.err_ch ≡ some x → IsCause r x
  gave : (x : Option String) → r.phase ≡ returned x → IsCause r x
