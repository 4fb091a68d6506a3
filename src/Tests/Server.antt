-- ===== src/Tests/Server.antt =====
-- A run of src/main.cpp with four workers.
use redis_proxy.Base.{◌≡◌, refl, true, some, Bool, ap, ◌∙◌, ℕ, List, replicate}
use redis_proxy.Server.{Server, start, Moves}
use redis_proxy.Config.{Config, load_config_from_args}
use redis_proxy.Server.{run, run_with, main, Outcome}
use redis_proxy.Server.Running.{main-Serves}
use redis_proxy.Tests.Config.{small_host, arguments, loaded, arguments-loaded}
use redis_proxy.Server.Dealing.{Serves}
use redis_proxy.Worker.{new_worker}

abbrev anywhere : List ℕ → Bool
anywhere address = true

abbrev four_workers : Server
four_workers = record { workers = replicate 4 new_worker; next_worker = 0 }

loaded_served : run_with small_host anywhere (some loaded) ≡ Outcome.serves four_workers
unfolding run_with run start
loaded_served = refl

four_served : main small_host anywhere arguments ≡ Outcome.serves four_workers
unfolding main
four_served = ap (run_with small_host anywhere) arguments-loaded ∙ loaded_served

main-Serves_example :
    (c : Config (List ℕ)) × (load_config_from_args small_host arguments ≡ some c)
    × (anywhere c.listen ≡ true)
    × ((all : List ℕ) (u : Server) → Moves four_workers all u → Serves c.workers all u)
main-Serves_example = main-Serves small_host anywhere arguments four_workers four_served
