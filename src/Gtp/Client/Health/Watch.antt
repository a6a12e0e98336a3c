-- ===== src/Gtp/Client/Health/Watch.antt =====
-- The echo watchdog's status against the list of the probes that led to it, the newest first.
use vectorcore_twag.Base.{
  ℕ, ◌+◌, ◌≤◌, ◌≡◌, refl, Bool, true, false, List, [], ◌∷◌, leb, ◌==◌, if◌then◌else◌, arith,
}
use vectorcore_twag.Session.Types.{Time}
use vectorcore_twag.Gtp.Client.Health.{
  PeerHealth, unknown, healthy, unhealthy, is_unhealthy, EchoConfig, normalize_echo_config, Status,
  Probe, answered, lost, silent, marked_unhealthy, recovered, run_echo_probe, watched, new_status,
  record_echo_success, record_echo_failure,
}

-- The probes that failed since the newest answer.
unfoldable pub failures : List Probe → ℕ
failures [] = 0
failures (answered now latency ∷ ps) = 0
failures (lost now ∷ ps) = failures ps + 1

unfoldable pub was_answered : List Probe → Bool
was_answered [] = false
was_answered (answered now latency ∷ ps) = true
was_answered (lost now ∷ ps) = was_answered ps

unfoldable pub newest_answer : List Probe → Time × ℕ
newest_answer [] = (0, 0)
newest_answer (answered now latency ∷ ps) = (now, latency)
newest_answer (lost now ∷ ps) = newest_answer ps

unfoldable pub newest_loss : List Probe → Time
newest_loss [] = 0
newest_loss (answered now latency ∷ ps) = newest_loss ps
newest_loss (lost now ∷ ps) = now

-- The health that a list of probes shows.
unfoldable pub judged : ℕ → List Probe → PeerHealth
judged max_failures ps =
    if leb max_failures (failures ps)
    then unhealthy
    else if was_answered ps
    then healthy
    else unknown

pub max_failures_pos : (cfg : EchoConfig) → 1 ≤ (normalize_echo_config cfg).max_failures
unfolding normalize_echo_config
max_failures_pos cfg = ground arith

-- The status, field by field.
pub record IsShown (max_failures : ℕ) (ps : List Probe) (c : Status) : Type 0 where
  pub health : c.peer_health ≡ judged max_failures ps
  pub count : c.consecutive_echo_failures ≡ failures ps
  pub success : c.last_echo_success ≡ (newest_answer ps).0
  pub latency : c.last_echo_latency ≡ (newest_answer ps).1
  pub failure : c.last_echo_failure ≡ newest_loss ps

judged_unhealthy :
    (max : ℕ) (ps : List Probe) → is_unhealthy (judged max ps) ≡ leb max (failures ps)
unfolding judged
judged_unhealthy max ps = ground arith

module _ (max : ℕ) (pos : 1 ≤ max) where
  new_status-IsShown : IsShown max [] new_status
  unfolding judged failures was_answered newest_answer newest_loss new_status
  new_status-IsShown = record {
    health = ground arith;
    count = refl;
    success = refl;
    latency = refl;
    failure = refl;
  }

  run_echo_probe-IsShown :
      (p : Probe) (ps : List Probe) (c : Status)
      → IsShown max ps c
      → IsShown max (p ∷ ps) ((run_echo_probe max p c).0)
  unfolding judged failures was_answered newest_answer newest_loss run_echo_probe
      record_echo_success record_echo_failure
  run_echo_probe-IsShown (answered now latency) ps c h = record {
    health = ground arith;
    count = refl;
    success = refl;
    latency = refl;
    failure = h.failure;
  }
  run_echo_probe-IsShown (lost now) ps c h = record {
    health = ground (arith, h.health, h.count);
    count = ground (arith, h.count);
    success = ground (arith, h.success);
    latency = ground (arith, h.latency);
    failure = ground arith;
  }

  watched-IsShown : (ps : List Probe) → IsShown max ps (watched max ps)
  unfolding watched
  watched-IsShown [] = new_status-IsShown
  watched-IsShown (p ∷ ps) = run_echo_probe-IsShown p ps (watched max ps) (watched-IsShown ps)

-- Whatever probes the watchdog has made with a normalized configuration, the peer is unhealthy
-- exactly when the probes since the newest answer are at least `max_failures`, otherwise healthy
-- when a probe was answered at all, and otherwise unknown; the count of failures is the number of
-- the probes since the newest answer, and the latency and the times are those of the newest answer
-- and the newest loss.
pub watched_lem :
    (cfg : EchoConfig) (ps : List Probe)
    → IsShown
        (normalize_echo_config cfg).max_failures
        ps
        (watched (normalize_echo_config cfg).max_failures ps)
watched_lem cfg ps =
    watched-IsShown (normalize_echo_config cfg).max_failures (max_failures_pos cfg) ps

-- With a normalized configuration, after any probes, a probe that fails reports the peer unhealthy
-- exactly when it is the `max_failures`-th since the newest answer, so once in each run of losses,
-- and an answered one reports that the peer recovered exactly when at least `max_failures` had
-- failed.
pub run_echo_probe-notice :
    (cfg : EchoConfig) (ps : List Probe) (now latency : ℕ)
    → let max = (normalize_echo_config cfg).max_failures in
      ((run_echo_probe max (lost now) (watched max ps)).1
        ≡ (if failures (lost now ∷ ps) == max then marked_unhealthy else silent))
      × ((run_echo_probe max (answered now latency) (watched max ps)).1
          ≡ (if leb max (failures ps) then recovered else silent))
unfolding failures run_echo_probe record_echo_success record_echo_failure
run_echo_probe-notice cfg ps now latency =
    let max = (normalize_echo_config cfg).max_failures in
    let shown = watched_lem cfg ps in
    let bad = judged_unhealthy max ps in
    ground (arith, max_failures_pos cfg, shown.health, shown.count, bad)
