-- ===== src/Daemon/Threads/Lost.antt =====
-- A join that never returns: no stop has reached the HTTP server, and none will.
use syrius_orbit_daemon.Common.{◌≡◌, Bool, true, false}
use syrius_orbit_daemon.Daemon.Threads.{
  Server, joining, System, starting, listening, joining_daemon,
}

-- The HTTP thread is there, and no stop has reached its server.
abbrev pub is_unheard : Server → Bool
is_unheard starting = true
is_unheard listening = true
is_unheard _ = false

-- The daemon's thread waits for an HTTP thread that no stop has reached, and main for the daemon's.
pub record IsStuck (s : System) : Type 0 where
  pub phase : s.phase ≡ joining
  pub started : s.http_server_started ≡ true
  pub unheard : is_unheard s.server ≡ true
  pub watch : s.watch ≡ joining_daemon
