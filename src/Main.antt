-- ===== src/Main.antt =====
-- cmd/main.go: the configuration that the flags give, and the order of the start-up. Parsing the
-- flags is the flag package's; what it is told of names and defaults is `default_flags`.
pub mod Startup
use poll_operator.Base.{
  ℕ, String, Bool, true, false, Option, none, some, List, [], ◌∷◌, ◌++◌, not, ◌==◌, string_eq,
  if◌then◌else◌,
}
use poll_operator.Ui.Server.{Server, new_server}

pub record Flags : Type 0 where
  pub metrics_addr : String
  pub probe_addr : String
  pub enable_leader_election : Bool
  pub secure_metrics : Bool
  pub webhook_cert_path : String
  pub webhook_cert_name : String
  pub webhook_cert_key : String
  pub metrics_cert_path : String
  pub metrics_cert_name : String
  pub metrics_cert_key : String
  pub enable_http2 : Bool
  pub ui_bind_address : String

abbrev pub default_flags : Flags
default_flags = record {
  metrics_addr = "0";
  probe_addr = ":8081";
  enable_leader_election = false;
  secure_metrics = true;
  webhook_cert_path = "";
  webhook_cert_name = "tls.crt";
  webhook_cert_key = "tls.key";
  metrics_cert_path = "";
  metrics_cert_name = "tls.crt";
  metrics_cert_key = "tls.key";
  enable_http2 = false;
  ui_bind_address = ":8082";
}

-- `NextProtos` of a `tls.Config`, which the options change.
abbrev pub Protocols : Type 0
Protocols = List String

abbrev pub disable_http2 : Protocols → Protocols
disable_http2 c = "http/1.1" ∷ []

unfoldable pub tls_opts : Flags → List (Protocols → Protocols)
tls_opts f = if not f.enable_http2 then disable_http2 ∷ [] else []

pub record WebhookOptions : Type 0 where
  pub tls : List (Protocols → Protocols)
  pub cert_dir : String
  pub cert_name : String
  pub key_name : String

unfoldable pub webhook_server_options : Flags → WebhookOptions
unfolding tls_opts
webhook_server_options f =
    let o : WebhookOptions = record {
      tls = tls_opts f;
      cert_dir = "";
      cert_name = "";
      key_name = "";
    } in
    if not (f.webhook_cert_path == "")
    then record o {
      cert_dir = f.webhook_cert_path;
      cert_name = f.webhook_cert_name;
      key_name = f.webhook_cert_key;
    }
    else o

-- `filters.WithAuthenticationAndAuthorization`, or no filter.
pub data Filter : Type 0 where
  open_to_all : Filter
  authenticated : Filter

pub record MetricsOptions : Type 0 where
  pub bind_address : String
  pub secure_serving : Bool
  pub tls : List (Protocols → Protocols)
  pub filter_provider : Filter
  pub cert_dir : String
  pub cert_name : String
  pub key_name : String

abbrev pub filter_of : Bool → Filter
filter_of secure = if secure then authenticated else open_to_all

unfoldable pub metrics_server_options : Flags → MetricsOptions
unfolding tls_opts
metrics_server_options f =
    let o : MetricsOptions = record {
      bind_address = f.metrics_addr;
      secure_serving = f.secure_metrics;
      tls = tls_opts f;
      filter_provider = filter_of f.secure_metrics;
      cert_dir = "";
      cert_name = "";
      key_name = "";
    } in
    if not (f.metrics_cert_path == "")
    then record o {
      cert_dir = f.metrics_cert_path;
      cert_name = f.metrics_cert_name;
      key_name = f.metrics_cert_key;
    }
    else o

pub record ManagerOptions : Type 0 where
  pub metrics : MetricsOptions
  pub webhook_server : WebhookOptions
  pub health_probe_bind_address : String
  pub leader_election : Bool
  pub leader_election_id : String

unfoldable pub manager_options : Flags → ManagerOptions
manager_options f = record {
  metrics = metrics_server_options f;
  webhook_server = webhook_server_options f;
  health_probe_bind_address = f.probe_addr;
  leader_election = f.enable_leader_election;
  leader_election_id = "ae4bd935.jef.app";
}

-- The calls that may fail.
pub data Action : Type 0 where
  new_manager : ManagerOptions → Action
  setup_poll_controller : Action
  setup_response_controller : Action
  setup_response_webhook : Action
  setup_poll_webhook : Action
  add_ui : Option Server → Action
  add_healthz_check : Action
  add_readyz_check : Action
  start_manager : Action

-- The calls that are made, in order, and the exit code.
abbrev pub Start : Type 0
Start = List Action × ℕ

abbrev pub after : Action → Start → Start
after a (made, code) = (a ∷ made, code)

-- `os.Exit(1)`, under the call that failed.
abbrev pub exit : Action → Start
exit a = (a ∷ [], 1)

-- `enable_webhooks` is the value of `ENABLE_WEBHOOKS`, empty if it is not set.
module _ (succeeds : Action → Bool) (f : Flags) (enable_webhooks : String) where
  abbrev pub run_manager : Start
  run_manager = if succeeds start_manager then (start_manager ∷ [], 0) else exit start_manager

  abbrev pub add_checks : Start
  add_checks =
      if succeeds add_healthz_check
      then after add_healthz_check (
          if succeeds add_readyz_check
          then after add_readyz_check run_manager
          else exit add_readyz_check)
      else exit add_healthz_check

  -- `ui.New` never returns an error, so its exit is left out.
  abbrev pub add_ui_server : Start
  add_ui_server =
      if not (f.ui_bind_address == "")
      then (let server = new_server f.ui_bind_address in
          if succeeds (add_ui server)
          then after (add_ui server) add_checks
          else exit (add_ui server))
      else add_checks

  abbrev pub add_poll_webhook : Start
  add_poll_webhook =
      if not (enable_webhooks == "false")
      then (if succeeds setup_poll_webhook
          then after setup_poll_webhook add_ui_server
          else exit setup_poll_webhook)
      else add_ui_server

  abbrev pub add_response_webhook : Start
  add_response_webhook =
      if not (enable_webhooks == "false")
      then (if succeeds setup_response_webhook
          then after setup_response_webhook add_poll_webhook
          else exit setup_response_webhook)
      else add_poll_webhook

  abbrev pub add_controllers : Start
  add_controllers =
      if succeeds setup_poll_controller
      then after setup_poll_controller (
          if succeeds setup_response_controller
          then after setup_response_controller add_response_webhook
          else exit setup_response_controller)
      else exit setup_poll_controller

  unfoldable pub main : Start
  main =
      let made = new_manager (manager_options f) in
      if succeeds made then after made add_controllers else exit made
