-- ===== src/Ui/Server.antt =====
-- internal/ui/server.go. `Start` and the goroutine that it runs are a step relation: the select
-- takes any case that is ready, and the context is cancelled when the manager pleases.
pub mod Ends
pub mod Returns
use poll_operator.Base.{
  String, ◌<>◌, Bool, true, false, Option, none, some, ◌==◌, string_eq, if◌then◌else◌, ◌≡◌,
}

-- The client and the handler that a server holds too are parameters of `serve` in Ui/Routes.
pub record Server : Type 0 where
  pub addr : String

-- `New`: nil where no address is given. It never returns an error.
unfoldable pub new_server : String → Option Server
new_server bind_address = if bind_address == "" then none else some (record { addr = bind_address })

abbrev pub need_leader_election : Server → Bool
need_leader_election s = false

-- Where `Start` stands, and with which error it returned.
pub data Phase : Type 0 where
  selecting : Phase
  shutting_down : Phase
  draining : Phase
  returned : Option String → Phase

-- `err_ch` is the channel with room for one error or nil. `is_listening` holds until the goroutine
-- sends, which is its last action.
pub record Run : Type 0 where
  pub is_cancelled : Bool
  pub is_closed : Bool
  pub is_listening : Bool
  pub err_ch : Option (Option String)
  pub phase : Phase

abbrev pub start : Run
start = record {
  is_cancelled = false;
  is_closed = false;
  is_listening = true;
  err_ch = none;
  phase = selecting;
}

pub data Step (a b : Run) : Type 0 where
  cancel : a.is_cancelled ≡ false → b ≡ record a { is_cancelled = true } → Step a b
  -- `ListenAndServe` returns another error than `http.ErrServerClosed`.
  exits :
      (e : String)
      → a.is_listening ≡ true
      → b ≡ record a { is_listening = false; err_ch = some (some ("UI server exited: " <> e)) }
      → Step a b
  -- It returns `http.ErrServerClosed`, after `Shutdown` was called.
  closes :
      a.is_listening ≡ true
      → a.is_closed ≡ true
      → b ≡ record a { is_listening = false; err_ch = some none }
      → Step a b
  -- `case <-ctx.Done()`: `Shutdown` is called.
  shut_down :
      a.phase ≡ selecting
      → a.is_cancelled ≡ true
      → b ≡ record a { is_closed = true; phase = shutting_down }
      → Step a b
  -- `Shutdown` returns, with an error or not, after ten seconds at the latest.
  wait : a.phase ≡ shutting_down → b ≡ record a { phase = draining } → Step a b
  -- `<-errCh; return nil`
  drain :
      (x : Option String)
      → a.phase ≡ draining
      → a.err_ch ≡ some x
      → b ≡ record a { err_ch = none; phase = returned none }
      → Step a b
  -- `case err := <-errCh`
  receive :
      (x : Option String)
      → a.phase ≡ selecting
      → a.err_ch ≡ some x
      → b ≡ record a { err_ch = none; phase = returned x }
      → Step a b

pub data Reach (a : Run) : Run → Type 0 where
  here : Reach a a
  next : {b c : Run} → Reach a b → Step b c → Reach a c
