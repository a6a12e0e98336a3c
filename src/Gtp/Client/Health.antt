-- ===== src/Gtp/Client/Health.antt =====
-- internal/gtp/gtp.go: the health of the packet gateway, as the echo watchdog keeps it. Each probe is
-- what `echo` returned to it, with the time at which the client wrote it down.
pub mod Watch
use vectorcore_twag.Base.{
  ℕ, zero, suc, ◌+◌, ◌≡◌, ◌⊎◌, inl, inr, refl, Bool, true, false, not, ◌&&◌, List, [], ◌∷◌, ltb,
  leb, ◌==◌, if◌then◌else◌, arith, Bool-cases,
}
use vectorcore_twag.Session.Types.{Time}

pub data PeerHealth : Type 0 where
  unknown healthy unhealthy : PeerHealth

abbrev pub is_unknown : PeerHealth → Bool
is_unknown unknown = true
is_unknown healthy = false
is_unknown unhealthy = false

abbrev pub is_unhealthy : PeerHealth → Bool
is_unhealthy unknown = false
is_unhealthy healthy = false
is_unhealthy unhealthy = true

-- The settings of config.GTPEchoConfig that are numbers; config.go refuses negative ones.
pub record EchoConfig : Type 0 where
  pub interval_seconds : ℕ
  pub timeout_seconds : ℕ
  pub max_failures : ℕ

abbrev pub min_gtp_echo_interval_seconds : ℕ
min_gtp_echo_interval_seconds = 60

abbrev or_default : ℕ → ℕ → ℕ
or_default n d = if n == 0 then d else n

-- normalizeEchoConfig
unfoldable pub normalize_echo_config : EchoConfig → EchoConfig
normalize_echo_config cfg = record {
  interval_seconds =
      if cfg.interval_seconds == 0
      then min_gtp_echo_interval_seconds
      else if ltb 0 cfg.interval_seconds && ltb cfg.interval_seconds min_gtp_echo_interval_seconds
      then min_gtp_echo_interval_seconds
      else cfg.interval_seconds;
  timeout_seconds = or_default cfg.timeout_seconds 5;
  max_failures = or_default cfg.max_failures 3;
}

-- The fields that healthMu guards; PeerHealth returns a copy of them.
pub record Status : Type 0 where
  pub peer_health : PeerHealth
  pub consecutive_echo_failures : ℕ
  pub last_echo_success : Time
  pub last_echo_failure : Time
  pub last_echo_latency : ℕ

unfoldable pub new_status : Status
new_status = record {
  peer_health = unknown;
  consecutive_echo_failures = 0;
  last_echo_success = 0;
  last_echo_failure = 0;
  last_echo_latency = 0;
}

-- recordEchoSuccess: the health before, and whether the peer recovered.
unfoldable pub record_echo_success : Time → ℕ → Status → Status × PeerHealth × Bool
record_echo_success now latency c = (
  record c {
    peer_health = healthy;
    consecutive_echo_failures = 0;
    last_echo_success = now;
    last_echo_latency = latency;
  },
  c.peer_health,
  is_unhealthy c.peer_health,
)

-- recordEchoFailure: the count of failures, and whether the peer became unhealthy.
unfoldable pub record_echo_failure : ℕ → Time → Status → Status × ℕ × Bool
record_echo_failure max_failures now c =
    let n = c.consecutive_echo_failures + 1 in
    let d = record c { consecutive_echo_failures = n; last_echo_failure = now } in
    if leb max_failures n && not (is_unhealthy c.peer_health)
    then (record d { peer_health = unhealthy }, n, true)
    else (d, n, false)

-- What `echo` gives: an answer after a time, or an error.
pub data Probe : Type 0 where
  answered : Time → ℕ → Probe
  lost : Time → Probe

-- What runEchoProbe reports beyond the probe itself.
pub data Notice : Type 0 where
  silent marked_unhealthy recovered : Notice

-- runEchoProbe
unfoldable pub run_echo_probe : ℕ → Probe → Status → Status × Notice
unfolding record_echo_success record_echo_failure
run_echo_probe max_failures (answered now latency) c =
    let r = record_echo_success now latency c in (r.0, if r.2 then recovered else silent)
run_echo_probe max_failures (lost now) c =
    let r = record_echo_failure max_failures now c in
    (r.0, if r.2 then marked_unhealthy else silent)

-- The status after the probes of a list, the newest first.
unfoldable pub watched : ℕ → List Probe → Status
unfolding new_status run_echo_probe
watched max_failures [] = new_status
watched max_failures (p ∷ ps) = (run_echo_probe max_failures p (watched max_failures ps)).0
