-- ===== src/Daemon/Served.antt =====
-- The running daemon (src/Daemon.cpp): what its gateway, the proxy and the recorder do together with a
-- message.
pub mod Effects
pub mod Relays
pub mod Shown
use mathlib.Core.Option
use syrius_orbit_daemon.Common.{
  ◌≡◌, refl, sym, ap, ◌∙◌, subst, Bool, true, false, not, ◌||◌, Option, none, some, is_some, List,
  [], ◌∷◌, arith, inl, inr, Option-cases,
}
use syrius_orbit_daemon.Config.{RuntimeConfig}
use syrius_orbit_daemon.Topic.{TopicContext, parse_topic_prefix}
use syrius_orbit_daemon.Proxy
use syrius_orbit_daemon.Proxy.{Network, Proxy, new_proxy}
use syrius_orbit_daemon.Proxy.Serving.{IsServing, start-Serves, on_cloud_connect-IsServing}
use syrius_orbit_daemon.Recorder.{Recorder, new_recorder, attach}
use syrius_orbit_daemon.Recorder.Attach.{attach_cloud-fixed, start-NoCloud}
use syrius_orbit_daemon.Migrator.{Database}
use syrius_orbit_daemon.Daemon.{
  Daemon, Gaps, gateway_init, gateway_start, begin_serving, on_cloud_connected, connected,
  new_daemon,
}
use syrius_orbit_daemon.Daemon.Runs.{ready}
use syrius_orbit_daemon.Daemon.Wired.Attached.{attach-IsWired}
use syrius_orbit_daemon.Daemon.Wired.{
  IsCloud, IsWired, on_cloud_connect-fixed, on_cloud_connect-IsWired,
}

-- The recorder is set as the callback's owner, and its callbacks stand on the endpoints.
pub record IsServed {D : Type 0} (t : TopicContext) (held : Bool) (d : Daemon D) : Type 0 where
  pub recorder : Recorder
  pub set : d.recorder ≡ some recorder
  pub pointer : recorder.cloud_ep ≡ held
  pub proxy : IsWired t held d.gateway.proxy

on_cloud_connected-kept :
    (called : Bool) (o : Option Recorder) (r : Recorder) (p : Proxy)
    → o ≡ some r
    → r.cloud_ep ≡ false
    → on_cloud_connected called o p ≡ (some r, p)
on_cloud_connected-kept called none r p e h = absurd (cc e)
on_cloud_connected-kept true (some q) r p e h =
    let same : q ≡ r = ground arith in
    ap (λ x. on_cloud_connected true (some x) p) same
    ∙ ap (λ (s : Recorder × Proxy). (some s.0, s.1))
        (attach_cloud-fixed r p (ap (λ b. not b || r.attached_cloud) h))
on_cloud_connected-kept false (some q) r p e h = ap (λ o. (o, p)) e

on_cloud_connected-served :
    (net : Network) (t : TopicContext) (held success : Bool) (o : Option Recorder) (r : Recorder)
    (p : Proxy)
    → o ≡ some r
    → r.cloud_ep ≡ held
    → IsWired t held p
    → let step = Proxy.on_cloud_connect net success p in
      on_cloud_connected step.0 o step.1 ≡ (some r, step.1)
on_cloud_connected-served net t false success o r p e h w =
    let step = Proxy.on_cloud_connect net success p in on_cloud_connected-kept step.0 o r step.1 e h
on_cloud_connected-served net t true success o r p e h w = elim (Option-cases p.cloud_endpoint) [
  | inl c ↦ absurd (cc (subst (IsCloud t true) c w.cloud))
  | inr (ep, c) ↦
      subst (λ (step : Bool × Proxy). on_cloud_connected step.0 o step.1 ≡ (some r, step.1))
        (sym (on_cloud_connect-fixed net success p ep c)) (ap (λ x. on_cloud_connected false x p) e)
]

module _ {D : Type 0} (net : Network) where
  -- What every connection keeps, the connections keep while the callback is not set.
  connected-unset :
      (P : Proxy → Type 0)
      → ((success : Bool) (p : Proxy) → P p → P (Proxy.on_cloud_connect net success p).1)
      → (cs : List Bool) (d : Daemon D) → d.recorder ≡ none
      → P d.gateway.proxy
      → ((connected net cs d).recorder ≡ none) × P (connected net cs d).gateway.proxy
  unfolding connected
  connected-unset P keeps [] d h s = (h, s)
  connected-unset P keeps (success ∷ cs) d h s =
      let step = Proxy.on_cloud_connect net success d.gateway.proxy in
      let after = λ (x : Option Recorder × Proxy). record d {
        gateway = record d.gateway { proxy = x.1 };
        recorder = x.0;
      } in
      subst
        (λ o.
          let x = connected net cs (after (on_cloud_connected step.0 o step.1)) in
          (x.recorder ≡ none) × P x.gateway.proxy)
        (sym h)
        (connected-unset P keeps cs (after (none, step.1)) refl (keeps success d.gateway.proxy s))

  connected-IsServed :
      (t : TopicContext) (held : Bool) (cs : List Bool) (d : Daemon D)
      → IsServed t held d
      → IsServed t held (connected net cs d)
  unfolding connected
  connected-IsServed t held [] d s = s
  connected-IsServed t held (success ∷ cs) d s =
      let step = Proxy.on_cloud_connect net success d.gateway.proxy in
      let after = λ (x : Option Recorder × Proxy). record d {
        gateway = record d.gateway { proxy = x.1 };
        recorder = x.0;
      } in
      let next : IsServed t held (after (some s.recorder, step.1)) = record {
        recorder = s.recorder;
        set = refl;
        pointer = s.pointer;
        proxy = on_cloud_connect-IsWired net t held success d.gateway.proxy s.proxy;
      } in
      connected-IsServed t held cs _ (
        subst (λ x. IsServed t held (after x))
          (sym (
            on_cloud_connected-served net t held success d.recorder s.recorder d.gateway.proxy s.set
              s.pointer s.proxy))
          next)

-- A proxy that serves, and has a cloud endpoint if the recorder holds one.
abbrev Holds : TopicContext → Bool → Proxy → Type 0
Holds t held p = (p.cloud_endpoint ≡ none → held ≡ false) × IsServing t [] p

on_cloud_connect-Holds :
    (net : Network) (t : TopicContext) (held success : Bool) (p : Proxy)
    → Holds t held p
    → Holds t held (Proxy.on_cloud_connect net success p).1
on_cloud_connect-Holds net t held success p (known, s) = elim (Option-cases p.cloud_endpoint) [
  | inl c ↦ ((λ _. known c), on_cloud_connect-IsServing net t [] success p s)
  | inr (e, c) ↦
      subst (λ (x : Bool × Proxy). Holds t held x.1)
        (sym (on_cloud_connect-fixed net success p e c)) (known, s)
]

some-held : {A : Type 0} (o : Option A) → o ≡ none → is_some o ≡ false
some-held o h = ap is_some h

module _ {D : Type 0} (net : Network) (gaps : Gaps) (t : TopicContext) where
  begin_serving-IsServed :
      (d : Daemon D)
      → d.recorder ≡ none
      → IsServing t [] d.gateway.proxy
      → IsServed t
          (is_some (connected net gaps.before d).gateway.proxy.cloud_endpoint)
          (begin_serving net gaps d)
  unfolding begin_serving new_recorder
  begin_serving-IsServed d unset s =
      let first = connected net gaps.before d in
      let held = is_some first.gateway.proxy.cloud_endpoint in
      let (unset1, s1) =
        connected-unset net (IsServing t []) (on_cloud_connect-IsServing net t []) gaps.before d
          unset s in
      let second = connected net gaps.built first in
      let (unset2, s2) =
        connected-unset net (Holds t held) (on_cloud_connect-Holds net t held) gaps.built first
          unset1 (some-held first.gateway.proxy.cloud_endpoint, s1) in
      let event_recorder = new_recorder first.gateway.proxy in
      let attached = attach (event_recorder, second.gateway.proxy) in
      let (pointer, wired) =
        attach-IsWired t held second.gateway.proxy event_recorder refl refl s2.0 s2.1 in
      let (_, s3) =
        connected-unset net (IsWired t held) (on_cloud_connect-IsWired net t held) gaps.attached
          (record second { gateway = record second.gateway { proxy = attached.1 } }) unset2 wired in
      record { recorder = attached.0; set = refl; pointer = pointer; proxy = s3 }

-- The proxy of a new daemon whose gateway was started, behind the connections.
abbrev pub started : {D : Type 0} → Network → RuntimeConfig → Database D → Daemon D
started net config db = record (new_daemon config db) {
  gateway = (gateway_start net (ready config)).1;
}

started-IsServing :
    {D : Type 0} (net : Network) (config : RuntimeConfig) (db : Database D) (t : TopicContext)
    → parse_topic_prefix config.mqtt_topic_prefix ≡ some t
    → (gateway_start net (ready config)).0 ≡ true
    → let p = (started net config db).gateway.proxy in (p.cloud_endpoint ≡ none) × IsServing t [] p
unfolding gateway_start gateway_init Proxy.init
started-IsServing net config db t prefix ok =
    let p : Proxy = record (new_proxy config) { initialized = true } in
    (start-NoCloud net p refl, start-Serves net t p prefix refl refl refl ok)

-- The daemon behind the first connections, those of `gaps` before it waits and then those of `cs`.
abbrev pub serving : {D : Type 0} → Network → Gaps → RuntimeConfig → Database D → List Bool → Proxy
serving net gaps config db cs =
    (connected net cs (begin_serving net gaps (started net config db))).gateway.proxy

-- Whether there was a cloud endpoint when the recorder was built.
abbrev pub recorder_held : {D : Type 0} → Network → Gaps → RuntimeConfig → Database D → Bool
recorder_held net gaps config db =
    is_some (connected net gaps.before (started net config db)).gateway.proxy.cloud_endpoint

pub serving-IsWired :
    {D : Type 0} (net : Network) (gaps : Gaps) (config : RuntimeConfig) (db : Database D)
    (cs : List Bool) (t : TopicContext)
    → parse_topic_prefix config.mqtt_topic_prefix ≡ some t
    → (gateway_start net (ready config)).0 ≡ true
    → IsWired t (recorder_held net gaps config db) (serving net gaps config db cs)
serving-IsWired net gaps config db cs t prefix ok =
    let (_, s) = started-IsServing net config db t prefix ok in
    let d = started net config db in
    (connected-IsServed net t (recorder_held net gaps config db) cs (begin_serving net gaps d)
      (begin_serving-IsServed net gaps t d refl s)).proxy
