-- ===== src/Webhooks/Worker/Exclusive.antt =====
-- The claims that callers of `claimDueDeliveries` of webhooks/worker.ts get.
use agent_fs.Prelude.{
  ℕ, suc, ◌+◌, ◌≤◌, ◌≡◌, refl, ap, ◌∙◌, Bool, true, false, not, ◌||◌, some, List, [], ◌∷◌, Text,
  arith, any, all, length, map, keep_if, ◌===◌, ===_iff, ===_refl, Bool-cases, inl, inr, ltb→lt,
  length,
}
use agent_fs.Sql.{count_where}
use agent_fs.Webhooks.{Delivery, WebhookDb, is_pending, delivery_of}
use agent_fs.Webhooks.Schedule.{lease_ms}
use agent_fs.Webhooks.Record.{holds, fence}
use agent_fs.Webhooks.Worker.{
  ClaimedDelivery, is_due, is_in, due_ids, leased, claim_of, claim_due_deliveries,
}
use agent_fs.Webhooks.Worker.Claims.{
  IsUnique, claim_row, delivery_of-id, all_of_ids, length-due_ids, row_of_any, due_of_id,
  any_of_delivery,
}

-- a claim of an id is among the claims
abbrev pub took : Text → List ClaimedDelivery → Bool
took id claims = any (λ c. c.id === id) claims

abbrev selected : List Text → List Delivery → List Delivery
selected ids rows = keep_if (λ d. is_in ids d.id) rows

took-is_in :
    (ids : List Text) (now : ℕ) (id : Text) (rows : List Delivery)
    → took id (map (claim_of now) (selected ids rows)) ≡ true
    → (is_in ids id ≡ true) × (any (λ d. d.id === id) rows ≡ true)
took-is_in ids now id [] h = ground arith
took-is_in ids now id (d ∷ rows) h = elim (Bool-cases (d.id === id)) [
  | inl here ↦
      ground
        (arith, took-is_in ids now id rows, ===_iff d.id id, ap (λ i. is_in ids i) (eq_of here))
  | inr other ↦ ground (arith, took-is_in ids now id rows)
]
  where
    eq_of : d.id === id ≡ true → d.id ≡ id
    eq_of e = (===_iff d.id id).0 e

row_of_id :
    (id : Text) (rows : List Delivery)
    → any (λ d. d.id === id) rows ≡ true
    → (d : Delivery) × (delivery_of id rows ≡ some d)
unfolding delivery_of
row_of_id id [] h = ground arith
row_of_id id (d ∷ rows) h = elim (Bool-cases (d.id === id)) [
  | inl here ↦ (d, rw here refl)
  | inr other ↦ let found = row_of_id id rows (ground arith) in (found.0, ground (arith, found.1))
]

all-selected :
    (p : ClaimedDelivery → Bool) (ids : List Text) (now : ℕ) (rows : List Delivery)
    → all (λ d. not (is_in ids d.id) || p (claim_of now d)) rows ≡ true
    → all p (map (claim_of now) (selected ids rows)) ≡ true
all-selected p ids now [] h = refl
all-selected p ids now (d ∷ rows) h = ground (arith, all-selected p ids now rows)

fence-leased :
    (now : ℕ) (d : Delivery)
    → is_pending d.status ≡ true
    → fence (claim_of now d) (leased now d) ≡ true
fence-leased now d h = ground (arith, ===_refl d.id)

-- With unique delivery ids, every claim that is returned holds the lease that was written for it:
-- its row passes the fence through which its result is recorded.
pub claims_held :
    (db : WebhookDb) (now batch : ℕ)
    → IsUnique db.deliveries
    → all (λ c. holds c (claim_due_deliveries db now batch).0) (claim_due_deliveries db now batch).1
      ≡ true
unfolding claim_due_deliveries
claims_held db now batch u =
    all-selected (λ c. holds c (claim_due_deliveries db now batch).0) (due_ids db now batch) now
      db.deliveries
      (all_of_ids _ db.deliveries u (λ id d e. elim (Bool-cases (is_in (due_ids db now batch) id)) [
        | inl h ↦
            let row = claim_row db now batch id d u e h in
            ground (
              arith,
              any_of_delivery (fence (claim_of now d)) id
                  (claim_due_deliveries db now batch).0.deliveries (leased now d) row.1
                  (fence-leased now d (ground (arith, row.0))),
            )
        | inr h ↦ rw (delivery_of-id id db.deliveries d e) (rw h refl)
      ]))

count_one :
    (id : Text) (rows : List Delivery)
    → any (λ d. d.id === id) rows ≡ false
    → count_where (λ d. id === d.id) rows ≡ 0
count_one id [] h = refl
count_one id (d ∷ rows) h = ground (arith, count_one id rows, ===_iff d.id id, ===_iff id d.id)

count_id :
    (id : Text) (rows : List Delivery) → IsUnique rows → count_where (λ d. id === d.id) rows ≤ 1
count_id id [] u = omega arith
count_id id (d ∷ rows) (new, u) = elim (Bool-cases (id === d.id)) [
  | inl here ↦ rw here (ground (arith, count_one d.id rows new, same_count id d rows here))
  | inr other ↦ rw other (count_id id rows u)
]
  where
    same_count :
        (id : Text) (d : Delivery) (rows : List Delivery)
        → id === d.id ≡ true
        → count_where (λ e. id === e.id) rows ≡ count_where (λ e. d.id === e.id) rows
    same_count id d rows e = ap (λ i. count_where (λ e. i === e.id) rows) ((===_iff id d.id).0 e)

count-or :
    (p q : Delivery → Bool) (rows : List Delivery)
    → count_where (λ d. p d || q d) rows ≤ count_where p rows + count_where q rows
count-or p q [] = omega arith
count-or p q (d ∷ rows) = ground (arith, count-or p q rows)

count-none : (rows : List Delivery) → count_where (λ _. false) rows ≡ 0
count-none [] = refl
count-none (d ∷ rows) = count-none rows

length-selected :
    (ids : List Text) (rows : List Delivery)
    → IsUnique rows
    → length (selected ids rows) ≤ length ids
length-selected [] rows u = omega (arith, count-none rows)
length-selected (i ∷ ids) rows u = omega (
  arith,
  count-or (λ d. i === d.id) (λ d. is_in ids d.id) rows,
  count_id i rows u,
  length-selected ids rows u,
)

length-map : (now : ℕ) (rows : List Delivery) → length (map (claim_of now) rows) ≡ length rows
length-map now [] = refl
length-map now (d ∷ rows) = ap suc (length-map now rows)

-- With unique delivery ids, a claim takes at most a batch of deliveries.
pub claims_bounded :
    (db : WebhookDb) (now batch : ℕ)
    → IsUnique db.deliveries
    → length (claim_due_deliveries db now batch).1 ≤ batch
unfolding claim_due_deliveries
claims_bounded db now batch u = omega (
  arith,
  length-map now (selected (due_ids db now batch) db.deliveries),
  length-selected (due_ids db now batch) db.deliveries u,
  length-due_ids db now batch,
)

-- With unique delivery ids: a delivery that one claim took, and whose row was not written since,
-- is in no claim made until its lease is over.
pub claims_exclusive :
    (db db' : WebhookDb) (now now' batch batch' : ℕ) (id : Text)
    → IsUnique db.deliveries
    → IsUnique db'.deliveries
    → took id (claim_due_deliveries db now batch).1 ≡ true
    → delivery_of id db'.deliveries
      ≡ delivery_of id (claim_due_deliveries db now batch).0.deliveries
    → now' ≤ now + lease_ms
    → took id (claim_due_deliveries db' now' batch').1 ≡ false
unfolding claim_due_deliveries
claims_exclusive db db' now now' batch batch' id u u' first kept early =
    let sel = took-is_in (due_ids db now batch) now id db.deliveries first in
    let row = row_of_id id db.deliveries sel.1 in
    let leased_row = claim_row db now batch id row.0 u row.1 sel.0 in
    elim (Bool-cases (took id (claim_due_deliveries db' now' batch').1)) [
      | inl again ↦
          let due =
            row_of_any (is_due db'.subscriptions now') id db'.deliveries (leased now row.0) u'
              (kept ∙ leased_row.1)
              (due_of_id db' now' batch' id
                (took-is_in (due_ids db' now' batch') now' id db'.deliveries again).0) in
          ground (arith, due, ltb→lt (now + lease_ms) now')
      | inr free ↦ free
    ]
