-- ===== src/Tests/Life.antt =====
-- The life of a proxy and of the daemon.
use syrius_orbit_daemon.Common.{◌≡◌, true, false, ◌&&◌, is_some, List, [], ◌∷◌, text, if◌then◌else◌}
use syrius_orbit_daemon.Config.{default_config}
use syrius_orbit_daemon.Proxy.{new_proxy}
use syrius_orbit_daemon.Proxy.States.{IsProxy}
use syrius_orbit_daemon.Proxy.Life.{
  Event, call_init, call_start, call_stop, cloud_connected, live, live-IsProxy,
}
use syrius_orbit_daemon.Proxy.Sessions.{Keeps, live-Keeps}
use syrius_orbit_daemon.Migrator.{migrate}
use syrius_orbit_daemon.Daemon.{Gaps, Round, gateway_start, new_daemon, run}
use syrius_orbit_daemon.Daemon.Runs.{Settled, ready, run-Settled}
use syrius_orbit_daemon.Tests.Data.{network}
use syrius_orbit_daemon.Tests.Tables.{migrations, exec, old_database}

abbrev events : List Event
events =
    call_init default_config
    ∷ call_start network
    ∷ cloud_connected network false
    ∷ cloud_connected network true
    ∷ cloud_connected network true
    ∷ call_stop
    ∷ call_start network
    ∷ []

live-IsProxy_example : IsProxy (live events (new_proxy default_config))
live-IsProxy_example = live-IsProxy events default_config

abbrev rounds : List Round
rounds =
    record { connections = true ∷ []; stop_requested = false }
    ∷ record { connections = []; stop_requested = true }
    ∷ []

-- The cloud client connects while the recorder is built.
abbrev gaps : Gaps
gaps = record { before = []; built = true ∷ []; attached = [] }

run-Settled_example :
    Settled
      (run network gaps exec
        (text "now")
        migrations
        rounds
        (new_daemon default_config old_database)).1
    × ((run network gaps exec
          (text "now")
          migrations
          rounds
          (new_daemon default_config old_database)).0
        ≡ (if is_some (migrate exec (text "now") migrations old_database).0
              && (gateway_start network (ready default_config)).0
            then 0
            else 1))
run-Settled_example =
    run-Settled network gaps exec (text "now") migrations rounds default_config old_database

live-Keeps_example : Keeps (new_proxy default_config) (live events (new_proxy default_config))
live-Keeps_example = live-Keeps events (new_proxy default_config)
