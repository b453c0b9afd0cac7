-- ===== src/Sink/Bind.antt =====
-- internal/sink/consumer.go: binding the durable consumer at the start, with its retries and the
-- repair of a stale configuration. The stream is a parameter: what the calls of its client answer and
-- how they change it, what changes while the sink waits, and whether the context is cancelled then.
pub mod Attempts
pub mod Runs
use vikasa_demo.Base.{
  ℕ, zero, suc, Bool, true, false, ◌&&◌, Option, none, some, ltb, ◌==◌, if◌then◌else◌,
}

abbrev pub bind_retry_attempts : ℕ
bind_retry_attempts = 60

abbrev pub max_config_heal_attempts : ℕ
max_config_heal_attempts = 3

pub record Stream : Type 1 where
  pub State : Type 0
  pub Subscription : Type 0
  -- PullSubscribe with a limit of pending acknowledgements, where 0, which stands for all limits that
  -- are not positive, leaves it to the server
  pub pull_subscribe : ℕ → State → State × Option Subscription
  -- the limit of the durable consumer, if there is one, where one below 0 counts as 0
  pub consumer_info : State → Option ℕ
  pub update_consumer : ℕ → State → State × Bool
  pub delete_consumer : State → State × Bool
  pub wait : State → State
  pub cancelled : State → Bool

module _ (J : Stream) where
  -- healConfigMismatch: the stream after it, and whether it changed something
  abbrev pub delete_stale : J.State → J.State × Bool
  delete_stale s = J.delete_consumer s

  abbrev pub repair : ℕ → J.State → J.State × Bool
  repair limit s =
      let (s1, updated) = J.update_consumer limit s in
      if updated then (s1, true) else delete_stale s1

  abbrev pub heal_found : ℕ → Option ℕ → J.State → J.State × Bool
  heal_found limit none s = (s, false)
  heal_found limit (some n) s = if n == limit then (s, false) else repair limit s

  unfoldable pub heal_config_mismatch : ℕ → J.State → J.State × Bool
  heal_config_mismatch limit s =
      if limit == 0 then (s, false) else heal_found limit (J.consumer_info s) s

  pub data Outcome : Type 0 where
    bound : J.Subscription → Outcome
    stopped gave_up : Outcome

  -- the outcome, with how often it healed and waited; the attempts are counted in Sink/Bind/Runs
  pub record Binding : Type 0 where
    pub outcome : Outcome
    pub state : J.State
    pub heals : ℕ
    pub waits : ℕ

  -- what is tried before the wait
  abbrev pub try_heal : ℕ → ℕ → J.State → J.State × Bool
  try_heal limit heals s =
      if ltb heals max_config_heal_attempts then heal_config_mismatch limit s else (s, false)

  -- The loop, with the attempts that are left.
  unfoldable pub bind_from : ℕ → ℕ → ℕ → ℕ → J.State → Binding
  bind_from limit zero heals waits s = record {
    outcome = gave_up;
    state = s;
    heals = heals;
    waits = waits;
  }
  bind_from limit (suc left) heals waits s =
      let (s1, r) = J.pull_subscribe limit s in
      elim r [
        | some sub ↦ record { outcome = bound sub; state = s1; heals = heals; waits = waits }
        | none ↦
            let (s2, healed) = try_heal limit heals s1 in
            elim healed [
              | true ↦ bind_from limit left (suc heals) waits s2
              | false ↦ elim (J.cancelled s2) [
                | true ↦ record { outcome = stopped; state = s2; heals = heals; waits = waits }
                | false ↦ bind_from limit left heals (suc waits) (J.wait s2)
              ]
            ]
      ]

  unfoldable pub bind_stream : ℕ → J.State → Binding
  unfolding bind_from
  bind_stream limit s = bind_from limit bind_retry_attempts 0 0 s
