-- ===== src/Orchestrate/Metrics.antt =====
-- `Metrics` of client_transport.go, and what it says of repeated inspections.
use goros.Common.{
  ℕ, ◌+◌, ◌≤◌, Text, true, [], Option, none, some, ◌≡◌, refl, sym, subst, ap, ◌∙◌, ◌⊎◌, inl, inr,
  arith, Bool-cases, append-nil,
}
use goros.Roserr.{GoError, Result, ok}
use goros.Proto.Sentence.{Sentence}
use goros.Schema.{CommandSchema}
use goros.Schema.Cache.{Cache, schema_key, cache_get, cache_put}
use goros.Schema.Store.{discover}
use goros.Schema.Store.Caching.{fresh_hit, stored, discover_hit}
use goros.Session.{Wire, Session, probe_inspect, probe_parse}
use goros.Orchestrate.{
  Pipeline, after_probes, session_device, recounted, note_ready, then_parse, ensure_run, and_then,
  inspect_schema,
}

-- The latencies are the clock's.
pub record Metrics : Type 0 where
  pub inspect_round_trips : ℕ
  pub gate1_latency : ℕ
  pub gate2_latency : ℕ

-- `Metrics`, with the latencies that the gates have stored.
abbrev pub metrics : Session → ℕ → ℕ → Metrics
metrics s g1 g2 = record {
  inspect_round_trips = s.inspect_trips;
  gate1_latency = g1;
  gate2_latency = g2;
}

module _ (format : Sentence → Text) (wire : Wire) where
  note_ready-ready :
      (p q : Pipeline) (r : Session × Option GoError)
      → note_ready format wire p r ≡ (q, none)
      → q.ready ≡ true
  note_ready-ready p q (s, some e) h = absurd (cc)
  note_ready-ready p q (s, none) h = cc

  then_parse-ready :
      (p q : Pipeline) (r : Session × Option GoError)
      → then_parse format wire p r ≡ (q, none)
      → q.ready ≡ true
  then_parse-ready p q (s, some e) h = absurd (cc)
  then_parse-ready p q (s, none) h = note_ready-ready p q (probe_parse format wire s) h

  -- Once `ensureRun` has returned no error, the pipeline is built.
  pub ensure_run-ready : (p q : Pipeline) → ensure_run format wire p ≡ (q, none) → q.ready ≡ true
  unfolding ensure_run
  ensure_run-ready p q h = elim (Bool-cases p.ready) [
    | inl e ↦ ground arith
    | inr e ↦ then_parse-ready p q (probe_inspect format wire p.session) (ground arith)
  ]

  ensure_run_again : (p : Pipeline) → p.ready ≡ true → ensure_run format wire p ≡ (p, none)
  unfolding ensure_run
  ensure_run_again p h = ground arith

-- What `Inspect` does once the pipeline is built.
abbrev inspected :
    (Sentence → Text) → Wire → ℕ → ℕ → Text → Text → Pipeline → Pipeline × Result CommandSchema
inspected format wire later now path verb q =
    let (s, r) =
      discover (session_device format wire q.session) later path verb now
        (recounted format wire q.store) in
    (record q { session = after_probes q.session s.calls; store = s }, r)

no_probes : (s : Session) → after_probes s [] ≡ s
no_probes s =
    ap (λ sent. record s { sent = sent; inspect_trips = s.inspect_trips + 0 }) (append-nil s.sent)
    ∙ ap (λ n. record s { inspect_trips = n }) (omega arith)

module _ (format : Sentence → Text) (wire : Wire) (later now : ℕ) (path verb : Text) where
  inspect_ready :
      (q : Pipeline)
      → q.ready ≡ true
      → inspect_schema format wire later now path verb q
        ≡ inspected format wire later now path verb q
  unfolding inspect_schema
  inspect_ready q h = rw (ensure_run_again format wire q h) refl

  -- A schema that the store has leaves the session as it is.
  inspected_hit :
      (q : Pipeline) (sch : CommandSchema)
      → cache_get now (schema_key path verb) q.store.cache ≡ (q.store.cache, some sch)
      → inspected format wire later now path verb q
        ≡ (record q { store = recounted format wire q.store }, ok sch)
  inspected_hit q sch hit =
      rw
        (discover_hit (session_device format wire q.session) later path verb now
          (recounted format wire q.store) sch hit)
        (ap (λ s. (record q { session = s; store = recounted format wire q.store }, ok sch))
          (no_probes q.session))

  after_ensure :
      (r : Pipeline × Option GoError) (q : Pipeline) (sch : CommandSchema)
      → and_then format wire later now r (inspected format wire later now path verb) ≡ (q, ok sch)
      → (r ≡ (r.0, none)) × (inspected format wire later now path verb r.0 ≡ (q, ok sch))
  after_ensure (p, some e) q sch h = absurd (cc)
  after_ensure (p, none) q sch h = (refl, h)

  inspected_stored :
      (p q : Pipeline) (c : Cache) (sch : CommandSchema)
      → cache_get now (schema_key path verb) p.store.cache ≡ (c, none)
      → inspected format wire later now path verb p ≡ (q, ok sch)
      → (q.store.cache ≡ cache_put later (schema_key path verb) sch c) × (q.ready ≡ p.ready)
  inspected_stored p q c sch miss h =
      let device = session_device format wire p.session in
      let found = discover device later path verb now (recounted format wire p.store) in
      let e : found ≡ (q.store, ok sch) = cc h in
      (stored device later path verb now (recounted format wire p.store) q.store c sch miss e, cc h)

-- After `Inspect` has probed the device and returned the schema of a command, another `Inspect` of the
-- command within the TTL, or with no TTL at any time, returns the same schema whatever the device
-- would answer; it sends nothing, and the metrics of the session are as they were: the round trips to
-- /console/inspect do not grow.
pub inspect_schema_again :
    (format : Sentence → Text) (wire wire' : Wire) (later now later' now' : ℕ) (path verb : Text)
    (p q : Pipeline) (c : Cache) (sch : CommandSchema)
    → cache_get now (schema_key path verb) (ensure_run format wire p).0.store.cache ≡ (c, none)
    → inspect_schema format wire later now path verb p ≡ (q, ok sch)
    → (now' ≤ later + c.ttl) ⊎ (c.ttl ≡ 0)
    → (q' : Pipeline) × (inspect_schema format wire' later' now' path verb q ≡ (q', ok sch))
      × (q'.session.sent ≡ q.session.sent)
      × ((g1 g2 : ℕ) → metrics q'.session g1 g2 ≡ metrics q.session g1 g2)
unfolding inspect_schema
inspect_schema_again format wire wire' later now later' now' path verb p q c sch miss first fresh =
    let key = schema_key path verb in
    let p1 = (ensure_run format wire p).0 in
    let (built, found) =
      after_ensure format wire later now path verb (ensure_run format wire p) q sch first in
    let (cached, same) = inspected_stored format wire later now path verb p1 q c sch miss found in
    let ready = same ∙ ensure_run-ready format wire p p1 built in
    let hit : cache_get now' key q.store.cache ≡ (q.store.cache, some sch) =
      subst (λ cache. cache_get now' key cache ≡ (cache, some sch)) (sym cached)
        (fresh_hit later now' key sch c fresh) in
    (
      record q { store = recounted format wire' q.store },
      inspect_ready format wire' later' now' path verb q ready
          ∙ inspected_hit format wire' later' now' path verb q sch hit,
      refl,
      λ g1 g2. refl,
    )
