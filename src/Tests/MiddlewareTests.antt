-- ===== src/Tests/MiddlewareTests.antt =====
-- src/middleware at concrete inputs.
use pulsar_beam.Prelude.{◌+◌, String, ok, ◌≡◌, ◌⊎◌, refl, arith, Result}
use pulsar_beam.Db.InMemory.{in_memory}
use pulsar_beam.Db.InMemory.Effects.{in_memory-IsLawful}
use pulsar_beam.Db.Contract.{Drops}
use pulsar_beam.Middleware.{limit_rate_enter, acquire, new_sema}
use pulsar_beam.Middleware.Limits.{
  Rate, rate, idle, IsBounded, ◌⟶*◌, stop, step, enter, refuse, limit_rate-IsBounded,
  limit_rate-unbounded,
}
use pulsar_beam.Middleware.Authentication.{MayDeleteAs, protected_delete, protected_delete-effect}
use pulsar_beam.Tests.Samples.{plain, server, ask, stored, stored-IsKeyed}

abbrev subjects_of : String → Result String
subjects_of token = ok "acme-1"

protected_delete-effect_example :
    ((protected_delete server subjects_of (in_memory plain) (ask "superuser") stored).1 ≡ stored)
    ⊎ ((key : String) × MayDeleteAs server subjects_of
          (in_memory plain)
          (ask "superuser")
          stored
          key
        × Drops
            (in_memory plain)
            key
            stored
            (protected_delete server subjects_of (in_memory plain) (ask "superuser") stored).1)
protected_delete-effect_example =
    protected_delete-effect server subjects_of (in_memory plain) (in_memory-IsLawful plain)
      (ask "superuser") stored stored-IsKeyed

two_requests : idle 1 ⟶* rate (record { size = 1; ch = 1 }) 1 1
unfolding limit_rate_enter acquire new_sema
two_requests = step (step stop (enter refl)) (refuse {e = "all semaphore buffer full"} refl)

limit_rate-IsBounded_test : IsBounded 1 (rate (record { size = 1; ch = 1 }) 1 1)
limit_rate-IsBounded_test =
    limit_rate-IsBounded 1 (rate (record { size = 1; ch = 1 }) 1 1) two_requests

limit_rate-unbounded_example : (r : Rate) × (idle 200 ⟶* r) × (r.serving ≡ 50 + 200)
limit_rate-unbounded_example = limit_rate-unbounded 200 50 (omega arith)
