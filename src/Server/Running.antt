-- ===== src/Server/Running.antt =====
-- src/main.cpp with src/config.cpp and src/proxy_server.cpp: what runs is what the configuration says.
use redis_proxy.Base.{
  ℕ, ◌≡◌, refl, sym, ap, ◌∙◌, inl, inr, Bool, true, false, List, some, Option-cases,
}
use redis_proxy.Config.{Host, Config, load_config_from_args}
use redis_proxy.Config.Range.{load_config_from_args-InRange}
use redis_proxy.Server.{Server, Moves, Outcome, start, run, run_with, main}
use redis_proxy.Server.Dealing.{Serves, Moves-Serves}

module _ {Endpoint : Type 0} (host : Host Endpoint) (listens : Endpoint → Bool) where
  started :
      (b : Bool) (n : ℕ) (v : Server)
      → run host listens (start b n) ≡ Outcome.serves v
      → (b ≡ true) × (start true n ≡ some v)
  unfolding start run
  started true n v e = (refl, cc e)
  started false n v e = absurd (cc e)

  -- If the program comes to serve, its arguments give a configuration with an address that can be listened on;
  -- and in every state that it comes to, the connections accepted are dealt out, evenly and each to one
  -- worker, to as many workers as this configuration says.
  pub main-Serves :
      (args : List (List ℕ)) (v : Server)
      → main host listens args ≡ Outcome.serves v
      → (c : Config Endpoint) × (load_config_from_args host args ≡ some c)
        × (listens c.listen ≡ true)
        × ((all : List ℕ) (u : Server) → Moves v all u → Serves c.workers all u)
  unfolding main run_with
  main-Serves args v e = elim (Option-cases (load_config_from_args host args)) [
    | inl bad ↦ absurd (cc (sym e ∙ ap (run_with host listens) bad))
    | inr (c, loaded) ↦
        let up = ap (run_with host listens) (sym loaded) ∙ e in
        let r = load_config_from_args-InRange host args c loaded in
        (
          c,
          loaded,
          (started (listens c.listen) c.workers v up).0,
          λ all u m.
              Moves-Serves c.workers v all u r.some_workers
                (started (listens c.listen) c.workers v up).1 m,
        )
  ]
