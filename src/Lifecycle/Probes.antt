-- ===== src/Lifecycle/Probes.antt =====
-- src/k8s/lifecycle.ts, src/k8s/serve-main.ts: when a pod says that it is ready.
use nodejs_advanced_homework.Prelude.{
  refl, inr, inl, Bool-cases, if◌then◌else◌, arith, not, ◌||◌, [], ◌&&◌, ◌≡◌, false, any, ◌∷◌, true,
  List, Bool,
}
use nodejs_advanced_homework.Lifecycle.{
  sigterm, booted, closed, live, readiness, fresh_pod, listen, shutdown, Happening, Pod, happens,
  middleware,
}

unfoldable pub run : List Happening → Pod → Pod
run [] pod = pod
run (h ∷ hs) pod = run hs (happens h pod)

abbrev is_sigterm : Happening → Bool
is_sigterm sigterm = true
is_sigterm booted = false
is_sigterm closed = false

abbrev is_booted : Happening → Bool
is_booted booted = true
is_booted sigterm = false
is_booted closed = false

-- Ready is what has booted before any SIGTERM.
abbrev pub is_ready_after : List Happening → Bool
is_ready_after hs = any is_booted hs && not (any is_sigterm hs)

run-draining :
    (hs : List Happening) (pod : Pod)
    → (run hs pod).lifecycle.draining ≡ (pod.lifecycle.draining || any is_sigterm hs)
unfolding run happens shutdown listen
run-draining [] pod = ground arith
run-draining (sigterm ∷ hs) pod = ground (arith, run-draining hs (happens sigterm pod))
run-draining (booted ∷ hs) pod = ground (arith, run-draining hs (happens booted pod))
run-draining (closed ∷ hs) pod = ground (arith, run-draining hs (happens closed pod))

run-ready :
    (hs : List Happening) (pod : Pod)
    → any is_sigterm hs ≡ false
    → pod.lifecycle.draining ≡ false
    → (run hs pod).lifecycle.ready ≡ (pod.lifecycle.ready || any is_booted hs)
unfolding run happens shutdown listen
run-ready [] pod s d = ground arith
run-ready (sigterm ∷ hs) pod s d = cc
run-ready (booted ∷ hs) pod s d = ground (arith, run-ready hs (happens booted pod))
run-ready (closed ∷ hs) pod s d = ground (arith, run-ready hs (happens closed pod))

-- Whatever happens to a pod, the readiness probe is answered 200 exactly when it has booted and no
-- SIGTERM has come (not even after a later boot), and 503 otherwise; and the liveness probe is answered 200 all the same, as long as the process answers at all.
pub readyz-is_ready_after :
    (hs : List Happening)
    → (middleware (run hs fresh_pod).lifecycle "/readyz"
        ≡ readiness
            (if is_ready_after hs then 200 else 503)
            (is_ready_after hs)
            (any is_sigterm hs))
      × (middleware (run hs fresh_pod).lifecycle "/healthz" ≡ live)
unfolding middleware
readyz-is_ready_after hs = elim (Bool-cases (any is_sigterm hs)) [
  | inl t ↦ (ground (arith, run-draining hs fresh_pod), refl)
  | inr f ↦ (ground (arith, run-draining hs fresh_pod, run-ready hs fresh_pod f refl), refl)
]
