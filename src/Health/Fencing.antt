-- ===== src/Health/Fencing.antt =====
-- The generation that fences a retired probe of
-- packages/gateway-core/src/governed_llm_gateway_core/application/resilience.py.
use governed_llm_gateway.Base.{
  ℤ, ℕ, ◌≤◌, ◌<◌, ◌≡◌, refl, sym, ap, ◌∙◌, ◌≢◌, ◌⊎◌, inl, inr, Bool, true, false, Option, some,
  List, [], ◌∷◌, ok, arith, Text, if◌then◌else◌,
}
use governed_llm_gateway.Health.{
  open_circuit, CircuitBreakerPolicy, HealthAdmission, is_probe, ProviderError,
}
use governed_llm_gateway.Health.Circuit.{
  Cell, clock, tick, matches, controls_circuit, is_probe_handle, refresh_circuit, snapshot,
  allow_request, admit_probe, claim_probe, release_request, is_admitted, record_success,
  record_failure, succeed, fail_transient, fail_permanent, count_transient, count_request, open_now,
  retire_probe, half_open_if_cooled,
}
use governed_llm_gateway.Health.Calls.{
  Call, reads, allows, releases, checks, succeeds, fails, after,
}

-- How a state may change: identifiers are drawn in order, and the generation is kept or drawn.
record Evolves (c c' : Cell) : Type 0 where
  same_ids : c'.world.ids ≡ c.world.ids
  more_drawn : c.world.drawn ≤ c'.world.drawn
  generation :
      (c'.health.generation ≡ c.health.generation)
      ⊎ ((n : ℕ) × (c.world.drawn ≤ n)
          × (n < c'.world.drawn)
          × (c'.health.generation ≡ c.world.ids n))

Evolves-trans : (a b c : Cell) → Evolves a b → Evolves b c → Evolves a c
Evolves-trans a b c x y = record {
  same_ids = y.same_ids ∙ x.same_ids;
  more_drawn = omega arith;
  generation = elim y.generation [
    | inl kept ↦ elim x.generation [
      | inl kept' ↦ inl (kept ∙ kept')
      | inr (n, le, lt, e) ↦ inr (n, le, omega arith, kept ∙ e)
    ]
    | inr (n, le, lt, e) ↦ inr (n, omega arith, lt, ground arith)
  ];
}

retire_probe-Evolves : (c : Cell) → Evolves c (retire_probe c)
unfolding retire_probe
retire_probe-Evolves c = record {
  same_ids = refl;
  more_drawn = omega arith;
  generation = inr (c.world.drawn, omega arith, omega arith, refl);
}

claim_probe-Evolves :
    (p : CircuitBreakerPolicy) (owner : Text) (c : Cell) → Evolves c (claim_probe p owner c)
unfolding claim_probe
claim_probe-Evolves p owner c = record {
  same_ids = refl;
  more_drawn = omega arith;
  generation = inr (c.world.drawn, omega arith, omega arith, refl);
}

Evolves-rfl : (c : Cell) → Evolves c c
Evolves-rfl c = record { same_ids = refl; more_drawn = omega arith; generation = inl refl }

-- The same generation, identifiers and draws, whatever else has changed.
record IsLevel (c c' : Cell) : Type 0 where
  level_ids : c'.world.ids ≡ c.world.ids
  level_drawn : c'.world.drawn ≡ c.world.drawn
  level_generation : c'.health.generation ≡ c.health.generation

Evolves-level : (a b c : Cell) → IsLevel a b → Evolves b c → Evolves a c
Evolves-level a b c l x =
    Evolves-trans a b c
      (record {
        same_ids = l.level_ids;
        more_drawn = omega arith;
        generation = inl l.level_generation;
      })
      x

counted-IsLevel :
    (latency : ℤ) (c : Cell) → IsLevel c (record c { health = count_request latency c.health })
unfolding count_request
counted-IsLevel latency c = ground arith

module _ (p : CircuitBreakerPolicy) where
  refresh_circuit-Evolves : (c : Cell) → Evolves c (refresh_circuit p c)
  unfolding refresh_circuit half_open_if_cooled
  refresh_circuit-Evolves c =
      let h = half_open_if_cooled p (clock c.world) c.health in
      let c' : Cell = record { health = h; world = tick c.world } in
      let l : IsLevel c c' = ground arith in
      ground (
        arith,
        Evolves-level c c' c' l (Evolves-rfl c'),
        Evolves-level c c' (retire_probe c') l (retire_probe-Evolves c'),
      )

  admit_probe-Evolves : (d owner : Text) (c : Cell) → Evolves c (admit_probe p d owner c).1
  unfolding admit_probe
  admit_probe-Evolves d owner c = ground (arith, Evolves-rfl c, claim_probe-Evolves p owner c)

  -- What follows a refresh evolves from the state before it.
  after_refresh : (c c' : Cell) → Evolves (refresh_circuit p c) c' → Evolves c c'
  after_refresh c c' x = Evolves-trans c (refresh_circuit p c) c' (refresh_circuit-Evolves c) x

  allow_request-Evolves : (d owner : Text) (c : Cell) → Evolves c (allow_request p d owner c).1
  unfolding allow_request
  allow_request-Evolves d owner c =
      let r = refresh_circuit p c in
      ground (
        arith,
        refresh_circuit-Evolves c,
        after_refresh c (admit_probe p d owner r).1 (admit_probe-Evolves d owner r),
      )

  release_request-Evolves : (a : HealthAdmission) (c : Cell) → Evolves c (release_request p a c)
  unfolding release_request
  release_request-Evolves a c =
      let r = refresh_circuit p c in
      ground (
        arith,
        refresh_circuit-Evolves c,
        after_refresh c (retire_probe r) (retire_probe-Evolves r),
      )

  -- A change of the counters and the circuit, with the probe retired or not.
  retiring-Evolves :
      (b : Bool) (c c' : Cell) → IsLevel c c' → Evolves c (if b then retire_probe c' else c')
  retiring-Evolves true c c' l = Evolves-level c c' _ l (retire_probe-Evolves c')
  retiring-Evolves false c c' l = Evolves-level c c' _ l (Evolves-rfl c')

  succeed-Evolves :
      (latency : ℤ) (controls probe : Bool) (c : Cell)
      → Evolves c (succeed latency controls probe c)
  unfolding succeed
  succeed-Evolves latency true probe c =
      retiring-Evolves probe c _
        (record { level_ids = refl; level_drawn = refl; level_generation = refl })
  succeed-Evolves latency false probe c =
      retiring-Evolves false c _
        (record { level_ids = refl; level_drawn = refl; level_generation = refl })

  fail_permanent-Evolves :
      (controls probe : Bool) (c : Cell) → Evolves c (fail_permanent controls probe c)
  unfolding fail_permanent
  fail_permanent-Evolves true probe c =
      retiring-Evolves probe c _
        (record { level_ids = refl; level_drawn = refl; level_generation = refl })
  fail_permanent-Evolves false probe c = Evolves-rfl c

  fail_transient-Evolves :
      (e : ProviderError) (controls : Bool) (c : Cell) → Evolves c (fail_transient p e controls c)
  unfolding fail_transient count_transient open_now
  fail_transient-Evolves e controls c =
      let counted : Cell = record c { health = count_transient e controls c.health } in
      let opening : Cell = record {
        health = record counted.health {
          circuit_state = open_circuit;
          opened_at = some (clock c.world);
        };
        world = tick c.world;
      } in
      ground (
        arith,
        retiring-Evolves true c opening (ground arith),
        retiring-Evolves false c counted (ground arith),
      )

  record_success-Evolves :
      (d : Text) (latency : ℤ) (a : Option HealthAdmission) (c : Cell)
      → Evolves c (record_success p d latency a c).1
  unfolding record_success
  record_success-Evolves d latency a c =
      let r = refresh_circuit p c in
      ground (
        arith,
        refresh_circuit-Evolves c,
        after_refresh c _ (succeed-Evolves latency true (is_probe_handle a) r),
        after_refresh c _ (succeed-Evolves latency false (is_probe_handle a) r),
      )

  record_failure-Evolves :
      (d : Text) (e : ProviderError) (latency : ℤ) (a : Option HealthAdmission) (c : Cell)
      → Evolves c (record_failure p d e latency a c).1
  unfolding record_failure
  record_failure-Evolves d e latency a c =
      let r = refresh_circuit p c in
      let k : Cell = record r { health = count_request latency r.health } in
      let level : IsLevel r k = counted-IsLevel latency r in
      let past =
        λ (c' : Cell) (x : Evolves k c'). after_refresh c c' (Evolves-level r k c' level x) in
      ground (
        arith,
        refresh_circuit-Evolves c,
        past _ (fail_transient-Evolves e true k),
        past _ (fail_transient-Evolves e false k),
        past _ (fail_permanent-Evolves true (is_probe_handle a) k),
        past _ (fail_permanent-Evolves false (is_probe_handle a) k),
      )

  after-Evolves : (d : Text) (call : Call) (c : Cell) → Evolves c (after p d call c)
  unfolding after snapshot is_admitted
  after-Evolves d reads c = refresh_circuit-Evolves c
  after-Evolves d (allows owner) c = allow_request-Evolves d owner c
  after-Evolves d (releases a) c = release_request-Evolves a c
  after-Evolves d (checks a) c = refresh_circuit-Evolves c
  after-Evolves d (succeeds latency a) c = record_success-Evolves d latency a c
  after-Evolves d (fails e latency a) c = record_failure-Evolves d e latency a c

  unfoldable pub after_all : Text → List Call → Cell → Cell
  after_all d [] c = c
  after_all d (call ∷ calls) c = after_all d calls (after p d call c)

  -- A handle is retired when its generation is neither the current one nor still to be drawn.
  record IsRetired (a : HealthAdmission) (c : Cell) : Type 0 where
    past : c.health.generation ≢ a.generation
    never : (n : ℕ) → c.world.drawn ≤ n → c.world.ids n ≢ a.generation

  Evolves-IsRetired :
      (a : HealthAdmission) (c c' : Cell) → Evolves c c' → IsRetired a c → IsRetired a c'
  Evolves-IsRetired a c c' x r = record {
    past = λ e. elim x.generation [
      | inl kept ↦ r.past (ground arith)
      | inr (n, le, lt, drawn) ↦ r.never n le (ground arith)
    ];
    never = λ n le e. r.never n (omega (arith, x.more_drawn)) (ap (λ f. f n) (sym x.same_ids) ∙ e);
  }

  after_all-IsRetired :
      (d : Text) (a : HealthAdmission) (calls : List Call) (c : Cell)
      → IsRetired a c
      → IsRetired a (after_all d calls c)
  unfolding after_all
  after_all-IsRetired d a [] c r = r
  after_all-IsRetired d a (call ∷ calls) c r =
      after_all-IsRetired d a calls _ (Evolves-IsRetired a c _ (after-Evolves d call c) r)

  retired-not-matches :
      (a : HealthAdmission) (c : Cell)
      → IsRetired a c
      → matches (refresh_circuit p c).health a ≡ false
  unfolding matches
  retired-not-matches a c r =
      let r' = Evolves-IsRetired a c _ (refresh_circuit-Evolves c) r in ground (arith, r'.past)

  -- The generation of the state was drawn before, and no identifier is drawn twice.
  pub record IsIssued (c : Cell) : Type 0 where
    pub index : ℕ
    pub drawn_before : index < c.world.drawn
    pub is_id : c.health.generation ≡ c.world.ids index
    pub no_repeat : (n : ℕ) → c.world.drawn ≤ n → c.world.ids n ≢ c.world.ids index

  retire_probe-IsRetired :
      (a : HealthAdmission) (c : Cell)
      → IsIssued c
      → c.health.generation ≡ a.generation
      → IsRetired a (retire_probe c)
  unfolding retire_probe
  retire_probe-IsRetired a c i e = record {
    past = λ q. i.no_repeat c.world.drawn (omega arith) (ground arith);
    never = λ n le q. i.no_repeat n (omega arith) (ground arith);
  }

  -- What a handle can still do to a state: nothing beyond the refresh that every call makes.
  pub record IsFenced (d : Text) (a : HealthAdmission) (c : Cell) : Type 0 where
    pub no_success :
        (latency : ℤ) → record_success p d latency (some a) c ≡ (ok false, refresh_circuit p c)
    pub no_failure :
        (e : ProviderError) (latency : ℤ)
        → record_failure p d e latency (some a) c ≡ (ok tt, refresh_circuit p c)
    pub no_release : release_request p a c ≡ refresh_circuit p c
    pub not_admitted : is_admitted p a c ≡ (false, refresh_circuit p c)

  not_matching-IsFenced :
      (d : Text) (a : HealthAdmission) (c : Cell)
      → a.deployment_id ≡ d
      → is_probe a ≡ true
      → matches (refresh_circuit p c).health a ≡ false
      → IsFenced d a c
  unfolding record_success record_failure release_request is_admitted controls_circuit
  not_matching-IsFenced d a c own probe m = record {
    no_success = λ latency. ground arith;
    no_failure = λ e latency. ground arith;
    no_release = ground arith;
    not_admitted = ground arith;
  }

  -- A probe's handle is fenced for good once the probe is retired: whatever calls follow, a late
  -- success is refused, a late failure and a late release change nothing but the refresh that
  -- every call makes, and the handle is no longer admitted. The generation of the state was drawn
  -- before, `uuid4` repeats no identifier, and the handle carries the generation that is retired.
  pub retired-IsFenced :
      (d : Text) (a : HealthAdmission) (c : Cell) (calls : List Call)
      → IsIssued c
      → c.health.generation ≡ a.generation
      → a.deployment_id ≡ d
      → is_probe a ≡ true
      → IsFenced d a (after_all d calls (retire_probe c))
  retired-IsFenced d a c calls i e own probe =
      not_matching-IsFenced d a _ own probe
        (retired-not-matches a _ (after_all-IsRetired d a calls _ (retire_probe-IsRetired a c i e)))
