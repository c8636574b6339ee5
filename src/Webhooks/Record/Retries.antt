-- ===== src/Webhooks/Record/Retries.antt =====
-- How often a delivery is retried, over the ticks of webhooks/worker.ts.
use agent_fs.Prelude.{
  ℕ, Option, none, suc, ◌+◌, ◌-◌, ◌≤◌, ◌≡◌, refl, subst, ap, ◌∙◌, true, some, List, Text, arith,
  ===_refl, length,
}
use agent_fs.Webhooks.{Delivery, WebhookDb, delivery_of}
use agent_fs.Webhooks.Unique.{
  claim_due_deliveries-IsUnique, record_result-IsUnique, defer_claim-IsUnique,
}
use agent_fs.Webhooks.Schedule.{server_error_retry_ms}
use agent_fs.Webhooks.Worker.{is_in, due_ids, leased, claim_of, claim_due_deliveries}
use agent_fs.Webhooks.Worker.Claims.{IsUnique, claim_row, delivery_of-id, delivery_of-update}
use agent_fs.Webhooks.Record.{fence, Outcome, SendResult, RecordContext, record_result, defer_claim}
use agent_fs.Webhooks.Record.Outcomes.{HasOutcome, record_result-HasOutcome}

-- The ticks that claim the delivery of an id and record a retry of it, n of them; between them,
-- ticks that release or defer it, and any writes that keep its row.
pub data Retries (schedule : List ℕ) (id : Text) (first : WebhookDb) : ℕ → WebhookDb → Type 0 where
  start : Retries schedule id first 0 first
  retried :
      {n : ℕ} {db : WebhookDb} (db' : WebhookDb) (d : Delivery) (now batch : ℕ)
      (result : SendResult) (ctx : RecordContext)
      → Retries schedule id first n db
      → ctx.schedule ≡ schedule
      → delivery_of id db.deliveries ≡ some d
      → is_in (due_ids db now batch) id ≡ true
      → record_result (claim_due_deliveries db now batch).0 (claim_of now d) result ctx
        ≡ (db', some Outcome.retrying)
      → Retries schedule id first (suc n) db'
  released :
      {n : ℕ} {db : WebhookDb} (db' : WebhookDb) (d : Delivery) (now batch : ℕ)
      (result : SendResult) (ctx : RecordContext)
      → Retries schedule id first n db
      → delivery_of id db.deliveries ≡ some d
      → is_in (due_ids db now batch) id ≡ true
      → record_result (claim_due_deliveries db now batch).0 (claim_of now d) result ctx
        ≡ (db', some Outcome.released)
      → Retries schedule id first n db'
  deferred :
      {n : ℕ} {db : WebhookDb} (d : Delivery) (now batch later : ℕ) (error : Text)
      → Retries schedule id first n db
      → delivery_of id db.deliveries ≡ some d
      → is_in (due_ids db now batch) id ≡ true
      → Retries schedule id first n
          (defer_claim (claim_due_deliveries db now batch).0 (claim_of now d) error later).0
  elsewhere :
      {n : ℕ} {db : WebhookDb} (db' : WebhookDb)
      → Retries schedule id first n db
      → IsUnique db'.deliveries
      → delivery_of id db'.deliveries ≡ delivery_of id db.deliveries
      → Retries schedule id first n db'

-- the attempts that the row of the id has are n at least
record IsCounted (id : Text) (n : ℕ) (db : WebhookDb) : Type 0 where
  row : Delivery
  found : delivery_of id db.deliveries ≡ some row
  unique : IsUnique db.deliveries
  counted : n ≤ row.attempts

module _ (id : Text) (n : ℕ) (db : WebhookDb) (d : Delivery) (now batch : ℕ) (c : IsCounted id n db)
    (e : delivery_of id db.deliveries ≡ some d)
    (taken : is_in (due_ids db now batch) id ≡ true) where
  same_row : c.row ≡ d
  same_row = ground (arith, c.found, e)

  -- the row and the fence after the claim
  claimed :
      (delivery_of (claim_of now d).id (claim_due_deliveries db now batch).0.deliveries
        ≡ some (leased now d))
      × (fence (claim_of now d) (leased now d) ≡ true)
  claimed =
      let row = claim_row db now batch id d c.unique e taken in
      (
        ap (λ i. delivery_of i (claim_due_deliveries db now batch).0.deliveries)
              (delivery_of-id id db.deliveries d e)
            ∙ row.1,
        ground (arith, row.0, ===_refl d.id),
      )

  outcome :
      (result : SendResult) (ctx : RecordContext)
      → HasOutcome ctx
          (claim_of now d)
          (leased now d)
          (record_result (claim_due_deliveries db now batch).0 (claim_of now d) result ctx)
  outcome result ctx =
      record_result-HasOutcome (claim_due_deliveries db now batch).0 (claim_of now d) (leased now d)
        result ctx claimed.0 claimed.1 refl

  recorded :
      (db' : WebhookDb) (o : Outcome) (result : SendResult) (ctx : RecordContext)
      → record_result (claim_due_deliveries db now batch).0 (claim_of now d) result ctx
        ≡ (db', some o)
      → IsUnique db'.deliveries × HasOutcome ctx (claim_of now d) (leased now d) (db', some o)
  recorded db' o result ctx r = (
    subst (λ (x : WebhookDb × Option Outcome). IsUnique x.0.deliveries) r
        (record_result-IsUnique (claim_due_deliveries db now batch).0 (claim_of now d) result ctx
          (claim_due_deliveries-IsUnique db now batch c.unique)),
    subst (HasOutcome ctx (claim_of now d) (leased now d)) r (outcome result ctx),
  )

  at_least : n ≤ d.attempts
  at_least = subst (λ (r : Delivery). n ≤ r.attempts) same_row c.counted

  -- A recorded result keeps the attempt that the claim added.
  recorded-IsCounted :
      (k : ℕ) (db' : WebhookDb) (o : Outcome) (result : SendResult) (ctx : RecordContext)
      → k ≤ suc n
      → record_result (claim_due_deliveries db now batch).0 (claim_of now d) result ctx
        ≡ (db', some o)
      → IsCounted id k db'
  recorded-IsCounted k db' o result ctx h r =
      let (u, (row, found, free, attempts, agrees)) = recorded db' o result ctx r in
      record {
        row = row;
        found =
            subst (λ i. delivery_of i db'.deliveries ≡ some row)
              (delivery_of-id id db.deliveries d e) found;
        unique = u;
        counted = omega (arith, at_least, attempts, h);
      }

  within_schedule :
      (db' : WebhookDb) (result : SendResult) (ctx : RecordContext)
      → record_result (claim_due_deliveries db now batch).0 (claim_of now d) result ctx
        ≡ (db', some Outcome.retrying)
      → suc n ≤ length ctx.schedule
  within_schedule db' result ctx r =
      let (u, (row, found, free, attempts, (waits, within, delay))) =
        recorded db' Outcome.retrying result ctx r in
      omega (arith, at_least, within)

  deferred-IsCounted :
      (error : Text) (later : ℕ)
      → IsCounted id n
          (defer_claim (claim_due_deliveries db now batch).0 (claim_of now d) error later).0
  unfolding defer_claim
  deferred-IsCounted error later = record {
    row = record (leased now d) {
      attempts = d.attempts + 1 - 1;
      next_attempt_at = later + server_error_retry_ms;
      lease_until = none;
      last_error = some error;
    };
    found =
        delivery_of-update (fence (claim_of now d)) _ id _ (λ r. refl)
        ∙ rw
            (subst
              (λ i.
                delivery_of i (claim_due_deliveries db now batch).0.deliveries
                ≡ some (leased now d))
              (delivery_of-id id db.deliveries d e) claimed.0)
            (rw claimed.1 refl);
    unique =
        defer_claim-IsUnique (claim_due_deliveries db now batch).0 (claim_of now d) error later
          (claim_due_deliveries-IsUnique db now batch c.unique);
    counted = omega (arith, at_least);
  }

Retries-IsCounted :
    (schedule : List ℕ) (id : Text) (first : WebhookDb) (d : Delivery)
    → IsUnique first.deliveries
    → delivery_of id first.deliveries ≡ some d
    → {n : ℕ} {db : WebhookDb} → Retries schedule id first n db
    → IsCounted id n db × (n ≤ length schedule)
Retries-IsCounted schedule id first d u e start =
    (record { row = d; found = e; unique = u; counted = omega arith }, omega arith)
Retries-IsCounted schedule id first d u e
      (retried {n} {db} db' r now batch result ctx run same found taken recorded) =
    let (c, below) = Retries-IsCounted schedule id first d u e run in
    (
      recorded-IsCounted id n db r now batch c found taken (suc n) db' Outcome.retrying result ctx
          (omega arith) recorded,
      subst (λ s. suc n ≤ length s) same
          (within_schedule id n db r now batch c found taken db' result ctx recorded),
    )
Retries-IsCounted schedule id first d u e
      (released {n} {db} db' r now batch result ctx run found taken recorded) =
    let (c, below) = Retries-IsCounted schedule id first d u e run in
    (
      recorded-IsCounted id n db r now batch c found taken n db' Outcome.released result ctx
          (omega arith) recorded,
      below,
    )
Retries-IsCounted schedule id first d u e
      (deferred {n} {db} r now batch later error run found taken) =
    let (c, below) = Retries-IsCounted schedule id first d u e run in
    (deferred-IsCounted id n db r now batch c found taken error later, below)
Retries-IsCounted schedule id first d u e (elsewhere {n} {db} db' run unique same) =
    let (c, below) = Retries-IsCounted schedule id first d u e run in
    (record { row = c.row; found = same ∙ c.found; unique = unique; counted = c.counted }, below)

-- With unique delivery ids: over any number of ticks that claim a delivery and record a retry of
-- it, release it or defer it, and of writes in between that keep its row and unique ids, it is
-- retried at most as often as the schedule has delays, whatever the results and the times are.
pub resending_ends :
    (schedule : List ℕ) (id : Text) (first db : WebhookDb) (d : Delivery) (n : ℕ)
    → IsUnique first.deliveries
    → delivery_of id first.deliveries ≡ some d
    → Retries schedule id first n db
    → n ≤ length schedule
resending_ends schedule id first db d n u e run =
    let (counted, below) = Retries-IsCounted schedule id first d u e run in below
