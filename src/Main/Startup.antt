-- ===== src/Main/Startup.antt =====
-- What the start-up guarantees.
use poll_operator.Base.{
  String, Bool, true, some, List, [], ◌∷◌, ◌≡◌, ◌≢◌, ◌↔◌, inl, inr, refl, sym, ap, arith, ◌==◌,
  string_eq, if◌then◌else◌, Bool-cases, Memᴰ, not, false,
}
use poll_operator.Ui.Server.{new_server}
use poll_operator.Main.{
  Flags, Protocols, webhook_server_options, metrics_server_options, manager_options, Action, add_ui,
  new_manager, setup_poll_controller, setup_response_controller, setup_response_webhook,
  setup_poll_webhook, add_healthz_check, add_readyz_check, start_manager, Start, after, exit,
  run_manager, add_checks, add_ui_server, add_poll_webhook, add_response_webhook, add_controllers,
  main, authenticated,
}

-- A part of the start-up that ends in the start of the manager. It comes to that exactly if `P`, and
-- then `calls` are the calls that were made; the exit code is 0 exactly if the manager ran too.
record IsPart (succeeds : Action → Bool) (r : Start) (P : Type 0) (calls : List Action)
    : Type 0 where
  started : Memᴰ start_manager r.0 ↔ P
  ended : (r.1 ≡ 0) ↔ (P × (succeeds start_manager ≡ true))
  listed : P → r.0 ≡ calls

tail_of : {a b : Action} {calls : List Action} → b ≢ a → Memᴰ a (b ∷ calls) → Memᴰ a calls
tail_of other (Memᴰ.head e) = absurd (other (sym e))
tail_of other (Memᴰ.tail m) = m

nil_of : {a : Action} → Memᴰ a [] → ⊥
nil_of m = elim m [ ]

map-IsPart :
    {succeeds : Action → Bool} {r : Start} {P Q : Type 0} {calls : List Action}
    → (P → Q)
    → (Q → P)
    → IsPart succeeds r P calls
    → IsPart succeeds r Q calls
map-IsPart to from p = record {
  started = (λ m. to (p.started.0 m), λ q. p.started.1 (from q));
  ended = (λ e. let (h, ran) = p.ended.0 e in (to h, ran), λ (q, ran). p.ended.1 (from q, ran));
  listed = λ q. p.listed (from q);
}

module _ (succeeds : Action → Bool) where
  run_manager-IsPart :
      (f : Flags) (w : String)
      → IsPart succeeds (run_manager succeeds f w) Unit (start_manager ∷ [])
  run_manager-IsPart f w = elim (Bool-cases (succeeds start_manager)) [
    | inl done ↦ rw done (record {
      started = (λ _. tt, λ _. Memᴰ.head refl);
      ended = (λ _. (tt, done), λ _. refl);
      listed = λ _. refl;
    })
    | inr failed ↦ rw failed (record {
      started = (λ _. tt, λ _. Memᴰ.head refl);
      ended = (λ e. ground arith, λ (_, done). cc);
      listed = λ _. refl;
    })
  ]

  -- A call whose failure ends the program.
  call-IsPart :
      (a : Action) {r : Start} {P : Type 0} {calls : List Action}
      → a ≢ start_manager
      → IsPart succeeds r P calls
      → IsPart succeeds
          (if succeeds a then after a r else exit a)
          ((succeeds a ≡ true) × P)
          (a ∷ calls)
  call-IsPart a other p = elim (Bool-cases (succeeds a)) [
    | inl done ↦ rw done (record {
      started = (λ m. (refl, p.started.0 (tail_of other m)), λ (_, h). Memᴰ.tail (p.started.1 h));
      ended = (
        λ e. let (h, ran) = p.ended.0 e in ((refl, h), ran),
        λ ((_, h), ran). p.ended.1 (h, ran),
      );
      listed = λ (_, h). ap (◌∷◌ a) (p.listed h);
    })
    | inr failed ↦ rw failed (record {
      started = (λ m. absurd (nil_of (tail_of other m)), λ (done, _). cc);
      ended = (λ e. ground arith, λ ((done, _), _). cc);
      listed = λ (done, _). cc;
    })
  ]

  -- A part that is left out under a condition.
  cond-IsPart :
      (off : Bool) {r r' : Start} {P Q : Type 0} {calls calls' : List Action}
      → (off ≡ false → IsPart succeeds r (Q × P) calls)
      → IsPart succeeds r' P calls'
      → IsPart succeeds
          (if not off then r else r')
          ((off ≡ false → Q) × P)
          (if off then calls' else calls)
  cond-IsPart true on p = record {
    started = (λ m. (λ e. cc, p.started.0 m), λ (_, h). p.started.1 h);
    ended = (
      λ e. let (h, ran) = p.ended.0 e in ((λ e. cc, h), ran),
      λ ((_, h), ran). p.ended.1 (h, ran),
    );
    listed = λ (_, h). p.listed h;
  }
  cond-IsPart false on p =
      let here = on refl in
      record {
        started = (
          λ m. let (q, h) = here.started.0 m in (λ _. q, h),
          λ (q, h). here.started.1 (q refl, h),
        );
        ended = (
          λ e. let ((q, h), ran) = here.ended.0 e in ((λ _. q, h), ran),
          λ ((q, h), ran). here.ended.1 ((q refl, h), ran),
        );
        listed = λ (q, h). here.listed (q refl, h);
      }

  module _ (f : Flags) (enable_webhooks : String) where
    -- What must succeed before the manager is started.
    abbrev pub IsSetUp : Type 0
    IsSetUp =
        (succeeds (new_manager (manager_options f)) ≡ true)
        × (succeeds setup_poll_controller ≡ true)
        × (succeeds setup_response_controller ≡ true)
        × ((enable_webhooks == "false") ≡ false → succeeds setup_response_webhook ≡ true)
        × ((enable_webhooks == "false") ≡ false → succeeds setup_poll_webhook ≡ true)
        × ((f.ui_bind_address == "") ≡ false
            → succeeds (add_ui (some (record { addr = f.ui_bind_address }))) ≡ true)
        × (succeeds add_healthz_check ≡ true)
        × (succeeds add_readyz_check ≡ true)

    -- The calls of a start-up that comes to its end.
    abbrev pub all_calls : List Action
    all_calls =
        let checks = add_healthz_check ∷ add_readyz_check ∷ start_manager ∷ [] in
        let ui =
          if f.ui_bind_address == ""
          then checks
          else add_ui (some (record { addr = f.ui_bind_address })) ∷ checks in
        let poll_webhook = if enable_webhooks == "false" then ui else setup_poll_webhook ∷ ui in
        let webhooks =
          if enable_webhooks == "false"
          then poll_webhook
          else setup_response_webhook ∷ poll_webhook in
        new_manager (manager_options f)
        ∷ setup_poll_controller
        ∷ setup_response_controller
        ∷ webhooks

    add_ui_server-IsPart :
        {r : Start} {P : Type 0} {calls : List Action}
        → IsPart succeeds r P calls
        → (f.ui_bind_address == "") ≡ false
        → IsPart succeeds
            (if succeeds (add_ui (new_server f.ui_bind_address))
              then after (add_ui (new_server f.ui_bind_address)) r
              else exit (add_ui (new_server f.ui_bind_address)))
            ((succeeds (add_ui (some (record { addr = f.ui_bind_address }))) ≡ true) × P)
            (add_ui (some (record { addr = f.ui_bind_address })) ∷ calls)
    unfolding new_server
    add_ui_server-IsPart p on =
        rw on (call-IsPart (add_ui (some (record { addr = f.ui_bind_address }))) (λ e. cc) p)

    main-IsPart : IsPart succeeds (main succeeds f enable_webhooks) IsSetUp all_calls
    unfolding main
    main-IsPart =
        let checks : IsPart succeeds (add_checks succeeds f enable_webhooks) _ _ =
          call-IsPart add_healthz_check (λ e. cc)
            (call-IsPart add_readyz_check (λ e. cc) (run_manager-IsPart f enable_webhooks)) in
        let ui : IsPart succeeds (add_ui_server succeeds f enable_webhooks) _ _ =
          cond-IsPart (f.ui_bind_address == "") (add_ui_server-IsPart checks) checks in
        let poll_webhook : IsPart succeeds (add_poll_webhook succeeds f enable_webhooks) _ _ =
          cond-IsPart (enable_webhooks == "false")
            (λ _. call-IsPart setup_poll_webhook (λ e. cc) ui) ui in
        let webhooks : IsPart succeeds (add_response_webhook succeeds f enable_webhooks) _ _ =
          cond-IsPart (enable_webhooks == "false")
            (λ _. call-IsPart setup_response_webhook (λ e. cc) poll_webhook) poll_webhook in
        let controllers : IsPart succeeds (add_controllers succeeds f enable_webhooks) _ _ =
          call-IsPart setup_poll_controller (λ e. cc)
            (call-IsPart setup_response_controller (λ e. cc) webhooks) in
        let all : IsPart succeeds (main succeeds f enable_webhooks) _ all_calls =
          call-IsPart (new_manager (manager_options f)) (λ e. cc) controllers in
        map-IsPart (λ (a, (b, (c, (d, (e, (g, (h, (i, u)))))))). (a, b, c, d, e, g, h, i))
          (λ (a, b, c, d, e, g, h, i). (a, (b, (c, (d, (e, (g, (h, (i, tt))))))))) all

    -- The manager is started exactly if these succeeded: its creation, both controllers, both
    -- webhooks unless ENABLE_WEBHOOKS is "false", the UI server at the given address where one is
    -- given, and both checks. Then these calls were made, in this order, and no others; and the
    -- program ends with exit code 0 exactly if the manager ran without an error too.
    pub main_starts :
        (Memᴰ start_manager (main succeeds f enable_webhooks).0 ↔ IsSetUp)
        × (IsSetUp → (main succeeds f enable_webhooks).0 ≡ all_calls)
        × (((main succeeds f enable_webhooks).1 ≡ 0) ↔ (IsSetUp × (succeeds start_manager ≡ true)))
    main_starts = (main-IsPart.started, main-IsPart.listed, main-IsPart.ended)

abbrev pub configured : List (Protocols → Protocols) → Protocols → Protocols
configured [] c = c
configured (o ∷ opts) c = configured opts (o c)

-- Unless HTTP/2 is enabled, both servers that use TLS offer HTTP/1.1 alone, whatever they offered
-- before; and the metrics are served to authenticated clients exactly if they are served securely.
pub servers_hardened :
    (f : Flags) (c : Protocols)
    → let offered = if f.enable_http2 then c else "http/1.1" ∷ [] in
      (configured (manager_options f).webhook_server.tls c ≡ offered)
      × (configured (manager_options f).metrics.tls c ≡ offered)
      × (((manager_options f).metrics.filter_provider ≡ authenticated)
          ↔ ((manager_options f).metrics.secure_serving ≡ true))
unfolding manager_options webhook_server_options metrics_server_options
servers_hardened f c = ground arith
