-- ===== src/Relay/Worker.antt =====
-- app/mailrelaysrv/worker.go: the loop of the relay's server. A run is the number of the
-- flushes until its context is done; an error of a flush is logged and dropped.
use globalmail.Prelude.{ℕ, zero, suc}
use globalmail.Prelude.Int.{ℤ, pos, positive_or}
use globalmail.Types.{Time, Duration}
use globalmail.Relay.{OutboxRelay, flush}

pub record Worker (W : Type 0) : Type 0 where
  pub relay : OutboxRelay W
  pub limit : ℕ
  pub interval : Duration

unfoldable pub new_worker : {W : Type 0} → OutboxRelay W → ℤ → ℤ → Worker W
new_worker relay limit interval = record {
  relay = relay;
  limit = positive_or limit 100;
  interval = positive_or interval 1000000000;
}

unfoldable pub worker_run : {W : Type 0} → Worker W → (W → Time) → ℕ → W → W
worker_run worker clock zero w = w
worker_run worker clock (suc ticks) w =
    worker_run worker clock ticks (flush worker.relay clock (pos worker.limit) w).1
