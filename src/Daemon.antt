-- ===== src/Daemon.antt =====
-- FleetGateway, SpatialService and Daemon::run (src/FleetGateway.cpp, src/SpatialService.cpp,
-- src/Daemon.cpp). What the HTTP library answers is a parameter, and so are, for each round of the
-- waiting loop, the stop request that is read and the connection events of the cloud client before it,
-- and (Gaps) those between the start of the gateway and the waiting loop.
-- The HTTP handlers, the projection thread (Projection.run) and logging are not part of this state.
pub mod Handling
pub mod Wired
pub mod Served
pub mod Runs
pub mod Threads
use syrius_orbit_daemon.Common.{
  ℕ, suc, Bool, true, false, not, ◌&&◌, Option, none, some, List, [], ◌∷◌, Bytes, text, ◌==◌,
  if◌then◌else◌,
}
use syrius_orbit_daemon.Config.{RuntimeConfig}
use syrius_orbit_daemon.Proxy
use syrius_orbit_daemon.Proxy.{Proxy, Network, new_proxy}
use syrius_orbit_daemon.Recorder.{Recorder, new_recorder, attach, attach_cloud}
use syrius_orbit_daemon.Migrator.{Migration, Database, migrate}

pub record FleetGateway : Type 0 where
  pub proxy : Proxy
  pub initialized : Bool

-- FleetGateway::init.
unfoldable pub gateway_init : RuntimeConfig → FleetGateway → Bool × FleetGateway
gateway_init config g =
    let step = Proxy.init config g.proxy in
    if not step.0
    then (false, record g { proxy = step.1 })
    else (true, record g { proxy = step.1; initialized = true })

-- FleetGateway::start.
unfoldable pub gateway_start : Network → FleetGateway → Bool × FleetGateway
gateway_start net g =
    let step = Proxy.start net g.proxy in
    if not g.initialized
    then (false, g)
    else if g.proxy.running
    then (true, g)
    else (step.0, record g { proxy = step.1 })

-- FleetGateway::stop.
unfoldable pub gateway_stop : FleetGateway → FleetGateway
gateway_stop g = record g { proxy = Proxy.stop g.proxy }

pub record SpatialService : Type 0 where
  pub initialized : Bool
  pub running : Bool

-- SpatialService::init.
unfoldable pub spatial_init : SpatialService → Bool × SpatialService
spatial_init s = (true, record s { initialized = true })

-- SpatialService::bindRoutes; the route itself is registered with the HTTP server.
unfoldable pub bind_routes : SpatialService → Bool × SpatialService
bind_routes s =
    if not s.initialized
    then (false, s)
    else if s.running
    then (true, s)
    else (true, record s { running = true })

-- SpatialService::stop.
unfoldable pub spatial_stop : SpatialService → SpatialService
spatial_stop s = record s { running = false }

-- The handler of /health: status and body.
unfoldable pub health : Bytes → ℕ × Bytes
health target =
    if not (target == text "/health")
    then (404, text "Not Found")
    else (200, text "{\"status\":\"ok\"}")

-- bind_host.
unfoldable pub bind_host : RuntimeConfig → Bytes
bind_host config = if config.http_host == text "*" then text "0.0.0.0" else config.http_host

-- The members of Daemon that run changes, with its local event_recorder.
pub record Daemon (D : Type 0) : Type 0 where
  pub config : RuntimeConfig
  pub database : Database D
  pub gateway : FleetGateway
  pub spatial : SpatialService
  pub recorder : Option Recorder
  pub projecting : Bool

-- Daemon's constructor.
abbrev pub new_daemon : {D : Type 0} → RuntimeConfig → Database D → Daemon D
new_daemon config database = record {
  config = config;
  database = database;
  gateway = record { proxy = new_proxy config; initialized = false };
  spatial = record { initialized = false; running = false };
  recorder = none;
  projecting = false;
}

-- The end of run.
unfoldable pub shut_down : {D : Type 0} → Daemon D → Daemon D
shut_down d = record d {
  projecting = false;
  spatial = spatial_stop d.spatial;
  gateway = gateway_stop d.gateway;
}

-- One round of the loop: the connections of the cloud client before it (true for success), and the
-- value of stop_requested_ that it reads.
pub record Round : Type 0 where
  pub connections : List Bool
  pub stop_requested : Bool

-- The on_cloud_connected_ callback, if the proxy calls it.
abbrev pub on_cloud_connected : Bool → Option Recorder → Proxy → Option Recorder × Proxy
on_cloud_connected called none p = (none, p)
on_cloud_connected called (some r) p =
    let (r', p') = attach_cloud (r, p) in if called then (some r', p') else (some r, p)

module _ {D : Type 0} (net : Network) where
  unfoldable pub connected : List Bool → Daemon D → Daemon D
  connected [] d = d
  connected (success ∷ more) d =
      let step = Proxy.on_cloud_connect net success d.gateway.proxy in
      let (recorder, proxy) = on_cloud_connected step.0 d.recorder step.1 in
      connected more
        (record d { gateway = record d.gateway { proxy = proxy }; recorder = recorder })

  -- The waiting loop; gives exit_code. Where the list of rounds ends, stop is requested.
  unfoldable pub wait : List Round → Daemon D → ℕ × Daemon D
  wait [] d = (0, d)
  wait (round ∷ rounds) d =
      let d' = connected round.connections d in
      let rest = wait rounds d' in
      if round.stop_requested
      then (0, d')
      else if not d'.gateway.proxy.running
      then (1, d')
      else rest

-- The connections of the cloud client, which may come from the start of the gateway on: before the
-- recorder is built, then before it is attached, and then before setOnCloudConnected. The callback is
-- not set yet.
pub record Gaps : Type 0 where
  pub before : List Bool
  pub built : List Bool
  pub attached : List Bool

module _ {D : Type 0} (net : Network) (gaps : Gaps) where
  -- run between the start of the gateway and the waiting loop.
  unfoldable pub begin_serving : Daemon D → Daemon D
  begin_serving d =
      let first = connected net gaps.before d in
      let event_recorder = new_recorder first.gateway.proxy in
      let second = connected net gaps.built first in
      let (recorder, proxy) = attach (event_recorder, second.gateway.proxy) in
      let third =
        connected net gaps.attached
          (record second { gateway = record second.gateway { proxy = proxy } }) in
      record third {
        recorder = some recorder;
        spatial = (bind_routes (spatial_init third.spatial).1).1;
        projecting = true;
      }

  -- run behind the start of the gateway.
  unfoldable pub serve : List Round → Daemon D → ℕ × Daemon D
  serve rounds d = let waited = wait net rounds (begin_serving d) in (waited.0, shut_down waited.1)

  unfoldable pub launch : List Round → Daemon D → ℕ × Daemon D
  launch rounds d =
      let first = gateway_init d.config d.gateway in
      let second = gateway_start net first.1 in
      if not first.0
      then (1, record d { gateway = first.1 })
      else if not second.0
      then (1, record d { gateway = second.1 })
      else serve rounds (record d { gateway = second.1 })

  abbrev pub after_migrate : List Round → Daemon D → Option ℕ × Database D → ℕ × Daemon D
  after_migrate rounds d (none, database) = (1, record d { database = database })
  after_migrate rounds d (some count, database) = launch rounds (record d { database = database })

  -- Daemon::run.
  unfoldable pub run :
      (Bytes → D → Option D) → Bytes → List Migration → List Round → Daemon D → ℕ × Daemon D
  run exec now migrations rounds d = after_migrate rounds d (migrate exec now migrations d.database)
