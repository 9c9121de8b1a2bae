-- ===== src/Tests/Tasks.antt =====
-- src/daemon/service.rs: reloads by the tasks of a service of the sample configuration.
use nic_autoswitch.Common.{zero, suc, [], ◌≡◌, refl, Text-eq, ℕ-eq}
use nic_autoswitch.Error.{ok}
use nic_autoswitch.Config.{
  Config, RouteRule-eq, validate_interface, validate_rule, validate_rules, validate_profile,
  validate,
}
use nic_autoswitch.Config.Loader.{parsed, new_loader, load, load_from_path}
use nic_autoswitch.Engine.Dispatcher.{new_dispatcher}
use nic_autoswitch.Daemon.Service.{DaemonService, load_twice, reload_config, reload_configuration}
use nic_autoswitch.Daemon.Service.Tasks.{
  idle, ready, ended, loaded, stored, indexed, computed, Move, begin, store, compute, put_indices,
  put_config, finish, Tasks, moved, Reach, at_rest, Solo, new_indices, write_indices, write_config,
}
use nic_autoswitch.Daemon.Service.Interleaved.{IsAccepted, Reach-IsAccepted}
use nic_autoswitch.Daemon.Service.Alternating.{
  OthersIdle, OthersIdle-moved, Alternating, Alternating-Reach, still, after, IsAtRest,
  Alternating-agree,
}
use nic_autoswitch.Daemon.Service.Race.{reload-diverges}
use nic_autoswitch.Daemon.Service.Alone.{Solo-reload}
use nic_autoswitch.Tests.Samples.{sample_config}
use nic_autoswitch.Tests.Service.{sample_service, sample_world}

-- The file with no profiles.
abbrev wired_config : Config
wired_config = record sample_config { wifi_profiles = [] }

loads_sample :
    load_twice sample_service.service_config.config_path
      (parsed sample_config)
      (parsed sample_config)
    ≡ ok sample_config
unfolding load_twice new_loader load load_from_path validate validate_interface validate_profile
    validate_rules validate_rule
loads_sample = refl

loads_wired :
    load_twice sample_service.service_config.config_path (parsed wired_config) (parsed wired_config)
    ≡ ok wired_config
unfolding load_twice new_loader load load_from_path validate validate_interface validate_profile
    validate_rules validate_rule
loads_wired = refl

sample-IsAccepted : IsAccepted sample_service
unfolding new_dispatcher validate validate_interface validate_profile validate_rules validate_rule
sample-IsAccepted = (refl, refl)

abbrev reloaded : DaemonService
reloaded = (reload_config (parsed wired_config) (parsed wired_config) sample_service).1

Solo-reload_example :
    Solo 1 (parsed wired_config) (parsed wired_config) sample_service idle reloaded idle
    × Solo 0
        (parsed wired_config)
        (parsed wired_config)
        sample_service
        idle
        (reload_configuration (parsed wired_config) (parsed wired_config) sample_world).service
        idle
Solo-reload_example = Solo-reload (parsed wired_config) (parsed wired_config) 0 sample_world

reload-diverges_example :
    (t : Tasks) × Reach (at_rest sample_service) t
    × IsAtRest t
    × (t.service.config ≡ sample_config)
    × (t.service.dispatcher.config ≡ wired_config)
reload-diverges_example =
    reload-diverges sample_service sample_config wired_config (parsed sample_config)
      (parsed sample_config) (parsed wired_config) (parsed wired_config) loads_sample loads_wired

-- The moves of a call of the control interface, one after the other.
abbrev stored_service : DaemonService
stored_service = record sample_service { config = wired_config }

abbrev put_service : DaemonService
put_service = write_indices (new_indices wired_config stored_service) stored_service

abbrev last_service : DaemonService
last_service = write_config wired_config put_service

abbrev begun : Tasks
begun = moved 1 sample_service ready (at_rest sample_service)

begun-run : Alternating (at_rest sample_service) begun
begun-run = after 1 still (λ j ne. refl) begin

begun-others : OthersIdle 1 begun
begun-others = OthersIdle-moved 1 sample_service ready (at_rest sample_service) (λ j ne. refl)

abbrev took : Tasks
took = moved 1 sample_service (loaded wired_config) begun

took-run : Alternating (at_rest sample_service) took
took-run =
    after 1 begun-run begun-others
      (Move.load (parsed wired_config) (parsed wired_config) wired_config loads_wired)

took-others : OthersIdle 1 took
took-others = OthersIdle-moved 1 sample_service (loaded wired_config) begun begun-others

abbrev wrote : Tasks
wrote = moved 1 stored_service (stored wired_config) took

wrote-run : Alternating (at_rest sample_service) wrote
wrote-run = after 1 took-run took-others (store wired_config)

wrote-others : OthersIdle 1 wrote
wrote-others = OthersIdle-moved 1 stored_service (stored wired_config) took took-others

abbrev planned : Tasks
planned =
    moved 1 stored_service (computed wired_config (new_indices wired_config stored_service)) wrote

planned-run : Alternating (at_rest sample_service) planned
planned-run = after 1 wrote-run wrote-others (compute wired_config)

planned-others : OthersIdle 1 planned
planned-others =
    OthersIdle-moved 1 stored_service
      (computed wired_config (new_indices wired_config stored_service)) wrote wrote-others

abbrev numbered : Tasks
numbered = moved 1 put_service (indexed wired_config) planned

numbered-run : Alternating (at_rest sample_service) numbered
numbered-run =
    after 1 planned-run planned-others
      (put_indices wired_config (new_indices wired_config stored_service))

numbered-others : OthersIdle 1 numbered
numbered-others = OthersIdle-moved 1 put_service (indexed wired_config) planned planned-others

abbrev passed_on : Tasks
passed_on = moved 1 last_service ended numbered

passed_on-run : Alternating (at_rest sample_service) passed_on
passed_on-run = after 1 numbered-run numbered-others (put_config wired_config)

passed_on-others : OthersIdle 1 passed_on
passed_on-others = OthersIdle-moved 1 last_service ended numbered numbered-others

abbrev over : Tasks
over = moved 1 last_service idle passed_on

over-run : Alternating (at_rest sample_service) over
over-run = after 1 passed_on-run passed_on-others finish

over-others : OthersIdle 1 over
over-others = OthersIdle-moved 1 last_service idle passed_on passed_on-others

over_rest : IsAtRest over
over_rest zero = refl
over_rest (suc zero) = refl
over_rest (suc (suc j)) = refl

Alternating-agree_example : over.service.dispatcher.config ≡ over.service.config
unfolding new_dispatcher
Alternating-agree_example = Alternating-agree sample_service over refl over-run over_rest

Reach-IsAccepted_example : IsAccepted over.service
Reach-IsAccepted_example =
    Reach-IsAccepted sample_service over sample-IsAccepted (Alternating-Reach over-run)
