-- ===== src/Health/Probing.antt =====
-- A probe of packages/gateway-core/src/governed_llm_gateway_core/application/resilience.py while its
-- lease runs, and calls of others in the meantime.
use governed_llm_gateway.Base.{
  ℤ, subst, sym, ap, ◌∙◌, ℕ, suc, ◌+◌, ◌-◌, ◌≤◌, ◌<◌, ◌≡◌, refl, ◌≢◌, ◌⊎◌, true, false, Option,
  none, some, List, [], ◌∷◌, All, arith, Text, ok, is_normalized, length,
}
use governed_llm_gateway.Health.{
  half_open, CircuitState-discrete, CircuitBreakerPolicy, HealthAdmission, ProviderError,
  check_admission,
}
use governed_llm_gateway.Health.Circuit.{
  Cell, World, MutableHealth, tick, matches, controls_circuit, refresh_circuit, snapshot,
  allow_request, admit_probe, release_request, is_admitted, record_success, record_failure, succeed,
  fail_transient, fail_permanent, count_transient, count_request, half_open_if_cooled,
}
use governed_llm_gateway.Health.Calls.{
  Call, reads, allows, releases, checks, succeeds, fails, after,
}
use governed_llm_gateway.Health.Fencing.{after_all}

module _ (p : CircuitBreakerPolicy) (d holder generation : Text) (expires : ℕ) where
  -- The circuit is half-open, and the holder has its probe under this generation and deadline.
  pub record IsProbed (h : MutableHealth) : Type 0 where
    pub half : h.circuit_state ≡ half_open
    pub current : h.generation ≡ generation
    pub holds : h.probe_owner ≡ some holder
    pub until : h.probe_expires_at ≡ some expires

  -- The handle is not that of the probe: another attempt's, or of another generation.
  abbrev pub IsForeignHandle : HealthAdmission → Type 0
  IsForeignHandle a = (a.attempt_id ≢ holder) ⊎ (a.generation ≢ generation)

  abbrev pub IsForeignReport : Option HealthAdmission → Type 0
  IsForeignReport none = Unit
  IsForeignReport (some a) = IsForeignHandle a

  -- A call that neither comes from the holder nor bears the handle of its probe.
  abbrev pub IsForeign : Call → Type 0
  IsForeign (allows owner) = owner ≢ holder
  IsForeign (releases a) = IsForeignHandle a
  IsForeign (succeeds latency a) = IsForeignReport a
  IsForeign (fails e latency a) = IsForeignReport a
  IsForeign _ = Unit

  -- The next `k` readings of the clock come before the deadline.
  abbrev pub IsAhead : ℕ → World → Type 0
  IsAhead k w = (n : ℕ) → w.ticks ≤ n → n < w.ticks + k → w.times n < expires

  -- The probe stays as it is, and the clock was read once.
  record IsUndisturbed (c c' : Cell) : Type 0 where
    probed : IsProbed c'.health
    world : c'.world ≡ tick c.world

  refresh-IsUndisturbed :
      (c : Cell)
      → IsProbed c.health
      → c.world.times c.world.ticks < expires
      → IsUndisturbed c (refresh_circuit p c)
  unfolding refresh_circuit half_open_if_cooled CircuitState-discrete
  refresh-IsUndisturbed c h lt = ground arith

  foreign-not-matches :
      (h : MutableHealth) (a : HealthAdmission)
      → IsProbed h
      → IsForeignHandle a
      → matches h a ≡ false
  unfolding matches CircuitState-discrete
  foreign-not-matches h a i f = ground arith

  allows-IsUndisturbed :
      (owner : Text) (c : Cell)
      → IsProbed c.health
      → owner ≢ holder
      → c.world.times c.world.ticks < expires
      → IsUndisturbed c (allow_request p d owner c).1 × ((allow_request p d owner c).0 ≡ ok none)
  unfolding allow_request admit_probe CircuitState-discrete
  allows-IsUndisturbed owner c h other lt =
      let r = refresh-IsUndisturbed c h lt in ground (arith, r, r.probed)

  releases-IsUndisturbed :
      (a : HealthAdmission) (c : Cell)
      → IsProbed c.health
      → IsForeignHandle a
      → c.world.times c.world.ticks < expires
      → IsUndisturbed c (release_request p a c)
  unfolding release_request
  releases-IsUndisturbed a c h f lt =
      let r = refresh-IsUndisturbed c h lt in
      ground (arith, r, foreign-not-matches (refresh_circuit p c).health a r.probed f)

  -- A report that is not the probe's does not control the circuit.
  report-not-controls :
      (h : MutableHealth) (a : Option HealthAdmission)
      → IsProbed h
      → IsForeignReport a
      → controls_circuit d h a ≢ ok true
  unfolding controls_circuit CircuitState-discrete
  report-not-controls h none i f = ground arith
  report-not-controls h (some a) i f = ground (arith, foreign-not-matches h a i f)

  succeeds-IsUndisturbed :
      (latency : ℤ) (a : Option HealthAdmission) (c : Cell)
      → IsProbed c.health
      → IsForeignReport a
      → c.world.times c.world.ticks < expires
      → IsUndisturbed c (record_success p d latency a c).1
  unfolding record_success succeed
  succeeds-IsUndisturbed latency a c h f lt =
      let r = refresh-IsUndisturbed c h lt in
      ground (arith, r, r.probed, report-not-controls (refresh_circuit p c).health a r.probed f)

  counted-IsProbed :
      (e : ProviderError) (latency : ℤ) (h : MutableHealth)
      → IsProbed h
      → IsProbed (count_transient e false (count_request latency h))
  unfolding count_transient count_request
  counted-IsProbed e latency h i = ground arith

  noted-IsProbed :
      (latency : ℤ) (h : MutableHealth) → IsProbed h → IsProbed (count_request latency h)
  unfolding count_request
  noted-IsProbed latency h i = ground arith

  fails-IsUndisturbed :
      (e : ProviderError) (latency : ℤ) (a : Option HealthAdmission) (c : Cell)
      → IsProbed c.health
      → IsForeignReport a
      → c.world.times c.world.ticks < expires
      → IsUndisturbed c (record_failure p d e latency a c).1
  unfolding record_failure fail_transient fail_permanent
  fails-IsUndisturbed e latency a c h f lt =
      let r = refresh-IsUndisturbed c h lt in
      ground (
        arith,
        r,
        r.probed,
        report-not-controls (refresh_circuit p c).health a r.probed f,
        counted-IsProbed e latency (refresh_circuit p c).health r.probed,
        noted-IsProbed latency (refresh_circuit p c).health r.probed,
      )

  after-IsUndisturbed :
      (call : Call) (c : Cell)
      → IsProbed c.health
      → IsForeign call
      → c.world.times c.world.ticks < expires
      → IsUndisturbed c (after p d call c)
  unfolding after snapshot is_admitted
  after-IsUndisturbed reads c h f lt = refresh-IsUndisturbed c h lt
  after-IsUndisturbed (allows owner) c h f lt = (allows-IsUndisturbed owner c h f lt).0
  after-IsUndisturbed (releases a) c h f lt = releases-IsUndisturbed a c h f lt
  after-IsUndisturbed (checks a) c h f lt = refresh-IsUndisturbed c h lt
  after-IsUndisturbed (succeeds latency a) c h f lt = succeeds-IsUndisturbed latency a c h f lt
  after-IsUndisturbed (fails e latency a) c h f lt = fails-IsUndisturbed e latency a c h f lt

  -- The probe after calls of others, with the world as far on as they read the clock.
  record IsKept (k : ℕ) (c c' : Cell) : Type 0 where
    probed : IsProbed c'.health
    times : c'.world.times ≡ c.world.times
    ticks : c'.world.ticks ≡ c.world.ticks + k

  after_all-IsKept :
      (calls : List Call) (c : Cell)
      → IsProbed c.health
      → All IsForeign calls
      → IsAhead (length calls) c.world
      → IsKept (length calls) c (after_all p d calls c)
  unfolding after_all
  after_all-IsKept [] c h fs ahead = record { probed = h; times = refl; ticks = omega arith }
  after_all-IsKept (call ∷ calls) c h (f, fs) ahead =
      let c' = after p d call c in
      let u = after-IsUndisturbed call c h f (ahead c.world.ticks (omega arith) (omega arith)) in
      let rest = after_all-IsKept calls c' u.probed fs (λ n low high.
        subst (λ w. w.times n < expires) (sym u.world)
          (ahead n (ground (arith, low, ap (λ w. w.ticks) u.world))
            (ground (arith, high, ap (λ w. w.ticks) u.world)))) in
      record {
        probed = rest.probed;
        times = rest.times ∙ ap (λ w. w.times) u.world;
        ticks = ground (arith, rest.ticks, ap (λ w. w.ticks) u.world);
      }

  ahead_now :
      (k : ℕ) (c c' : Cell)
      → IsKept k c c'
      → IsAhead (suc k) c.world
      → c'.world.times c'.world.ticks < expires
  ahead_now k c c' kept ahead =
      rw (kept.times, kept.ticks) (ahead (c.world.ticks + k) (omega arith) (omega arith))

  -- While a probe is held and its lease runs, no other attempt is admitted: not after any calls of
  -- others either, with whatever handles they hold but the probe's, and the holder, the generation
  -- and the deadline of the probe stay as they are. The clock is before the deadline each time that
  -- these calls read it.
  pub probe-exclusive :
      (calls : List Call) (owner : Text) (c : Cell)
      → IsProbed c.health
      → All IsForeign calls
      → owner ≢ holder
      → IsAhead (suc (length calls)) c.world
      → let c' = after_all p d calls c in
        IsProbed c'.health × ((allow_request p d owner c').0 ≡ ok none)
  probe-exclusive calls owner c h fs other ahead =
      let k = after_all-IsKept calls c h fs (λ n low high. ahead n low (omega (arith, high))) in
      (
        k.probed,
        (allows-IsUndisturbed owner (after_all p d calls c) k.probed other
            (ahead_now (length calls) c (after_all p d calls c) k ahead)).1,
      )

  -- The handle of the probe, with the time that is left at an instant.
  abbrev pub handle_at : ℕ → HealthAdmission
  handle_at now = record {
    deployment_id = d;
    attempt_id = holder;
    generation = generation;
    probe_timeout_seconds = some (expires - now);
  }

  admit_probe-own :
      (c : Cell)
      → IsProbed c.health
      → check_admission (handle_at (c.world.times c.world.ticks))
        ≡ ok (handle_at (c.world.times c.world.ticks))
      → (admit_probe p d holder c).0 ≡ ok (some (handle_at (c.world.times c.world.ticks)))
  unfolding admit_probe
  admit_probe-own c h valid = ground (arith, h, valid)

  allow_half_open :
      (owner : Text) (c : Cell)
      → (refresh_circuit p c).health.circuit_state ≡ half_open
      → allow_request p d owner c ≡ admit_probe p d owner (refresh_circuit p c)
  unfolding allow_request CircuitState-discrete
  allow_half_open owner c half = ground (arith, half)

  recheck :
      (c : Cell)
      → IsProbed c.health
      → c.world.times c.world.ticks < expires
      → check_admission (handle_at (c.world.times (suc c.world.ticks)))
        ≡ ok (handle_at (c.world.times (suc c.world.ticks)))
      → (allow_request p d holder c).0 ≡ ok (some (handle_at (c.world.times (suc c.world.ticks))))
  recheck c h lt valid =
      let r = refresh-IsUndisturbed c h lt in
      ap (λ e. e.0) (allow_half_open holder c r.probed.half)
      ∙ (subst
          (λ w.
            (admit_probe p d holder (refresh_circuit p c)).0
            ≡ ok (some (handle_at (w.times w.ticks))))
          r.world
          (admit_probe-own (refresh_circuit p c) r.probed (
            subst
              (λ w.
                check_admission (handle_at (w.times w.ticks)) ≡ ok (handle_at (w.times w.ticks)))
              (sym r.world) valid)))

  -- The texts of a handle are as its constructor asks for.
  pub record IsNamed : Type 0 where
    pub deployment : is_normalized d ≡ true
    pub attempt : is_normalized holder ≡ true
    pub normalized : is_normalized generation ≡ true
    pub short_attempt : length holder ≤ 128
    pub short_generation : length generation ≤ 128

  handle_at-ok :
      (now : ℕ) → IsNamed → now < expires → check_admission (handle_at now) ≡ ok (handle_at now)
  unfolding check_admission
  handle_at-ok now n lt = ground arith

  -- The holder of a probe may ask again after any calls of others, and its lease is not renewed: it
  -- gets a handle of the same generation, with the time that is left until the same deadline. The
  -- clock is before the deadline each time that it is read, and the texts are well formed.
  pub recheck-keeps_lease :
      (calls : List Call) (c : Cell)
      → IsProbed c.health
      → All IsForeign calls
      → IsNamed
      → IsAhead (suc (suc (length calls))) c.world
      → (allow_request p d holder (after_all p d calls c)).0
        ≡ ok (some (handle_at (c.world.times (suc (c.world.ticks + length calls)))))
  recheck-keeps_lease calls c h fs names ahead =
      let k = after_all-IsKept calls c h fs (λ n low high. ahead n low (omega (arith, high))) in
      let c' = after_all p d calls c in
      let last = ahead (suc (c.world.ticks + length calls)) (omega arith) (omega arith) in
      let same_reading : c'.world.times (suc c'.world.ticks)
          ≡ c.world.times (suc (c.world.ticks + length calls)) =
        rw (k.times, k.ticks) refl in
      subst (λ now. (allow_request p d holder c').0 ≡ ok (some (handle_at now))) same_reading
        (recheck c' k.probed
          (ahead_now (length calls) c c' k (λ n low high. ahead n low (omega (arith, high))))
          (handle_at-ok _ names (rw same_reading last)))
