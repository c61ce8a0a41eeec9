-- ===== src/Lifecycle.antt =====
-- src/k8s/lifecycle.ts: the probes of a pod, and what a draining one does to connections. Texts of the
-- environment are read as the number that they stand for.
pub mod Probes
pub mod Tests
use nodejs_advanced_homework.Prelude.{
  ℕ, Bool, true, false, not, ◌&&◌, Option, none, some, String, str_eq, if◌then◌else◌, Result, ok,
  err,
}

pub record LifecycleSettings : Type 0 where
  pub warmup_ms : ℕ
  pub drain_ms : ℕ
  pub close_timeout_ms : ℕ

-- A variable: not set or blank, a non-negative integer, or anything else.
pub data Variable : Type 0 where
  absent invalid : Variable
  integer : ℕ → Variable

unfoldable pub non_negative_int : String → Variable → ℕ → Result String ℕ
non_negative_int name absent fallback = ok fallback
non_negative_int name invalid fallback = err name
non_negative_int name (integer n) fallback = ok n

-- `env` gives each variable; the error is the name of the one that is refused.
unfoldable pub read_lifecycle_settings : (String → Variable) → Result String LifecycleSettings
read_lifecycle_settings env = elim (non_negative_int "WARMUP_MS" (env "WARMUP_MS") 4000) [
  | err e ↦ err e
  | ok warmup ↦ elim (non_negative_int "DRAIN_MS" (env "DRAIN_MS") 5000) [
    | err e ↦ err e
    | ok drain ↦ elim (non_negative_int "CLOSE_TIMEOUT_MS" (env "CLOSE_TIMEOUT_MS") 10000) [
      | err e ↦ err e
      | ok close ↦ ok (record { warmup_ms = warmup; drain_ms = drain; close_timeout_ms = close })
    ]
  ]
]

pub record Lifecycle : Type 0 where
  pub ready : Bool
  pub draining : Bool

pub data Answer : Type 0 where
  live : Answer
  readiness : (status : ℕ) → (ready draining : Bool) → Answer
  -- the request goes on to the application
  next : (closes_connection : Bool) → Answer

unfoldable pub middleware : Lifecycle → String → Answer
middleware self path =
    if str_eq path "/healthz"
    then live
    else if str_eq path "/readyz"
    then (let is_ready = self.ready && not self.draining in
        readiness (if is_ready then 200 else 503) is_ready self.draining)
    else next self.draining

-- src/k8s/serve-main.ts: the process around it. The listener is registered with `once`.
pub record Pod : Type 0 where
  pub lifecycle : Lifecycle
  pub listening : Bool
  pub exited : Bool

abbrev pub fresh_pod : Pod
fresh_pod = record {
  lifecycle = record { ready = false; draining = false };
  listening = false;
  exited = false;
}

-- What happens to the process: SIGTERM; the application is there and the warm-up is over; the drain is
-- over and the socket closed.
pub data Happening : Type 0 where
  sigterm booted closed : Happening

-- `shutdown`, up to its first `await`
unfoldable pub shutdown : Pod → Pod
shutdown pod = record pod {
  lifecycle = record pod.lifecycle { draining = true };
  exited = not pod.listening;
}

-- the end of `main`
unfoldable pub listen : Pod → Pod
listen pod =
    if pod.lifecycle.draining
    then pod
    else record pod { lifecycle = record pod.lifecycle { ready = true }; listening = true }

abbrev once : Pod → Pod
once pod = if pod.lifecycle.draining then pod else shutdown pod

unfoldable pub happens : Happening → Pod → Pod
happens sigterm pod = once pod
happens booted pod = listen pod
happens closed pod = if pod.lifecycle.draining then record pod { exited = true } else pod
