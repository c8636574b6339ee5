-- ===== src/Webhooks/Worker/Claims.antt =====
-- The rows that `claimDueDeliveries` of webhooks/worker.ts selects and writes.
use agent_fs.Prelude.{
  ℕ, zero, suc, ◌≤◌, ◌≡◌, refl, ap, sym, ◌∙◌, Bool, true, false, ◌&&◌, ◌||◌, Option, none, some,
  List, [], ◌∷◌, Text, arith, any, all, length, take, map, keep_if, ◌===◌, ===_iff, ===_refl,
  eq_of_===, if◌then◌else◌, Bool-cases, inl, inr, find?-holds,
}
use agent_fs.Sql.{update_where, any-keep_if}
use agent_fs.Webhooks.{Subscription, Delivery, WebhookDb, delivery_of}
use agent_fs.Webhooks.Worker.{is_due, insert, sort, is_in, due_ids, leased, claim_due_deliveries}
use agent_fs.Webhooks.Invariant.{IsSound, IsTame, selects, update_deliveries-IsSound}

-- the primary key of the deliveries
abbrev pub IsUnique : List Delivery → Type 0
IsUnique [] = Unit
IsUnique (d ∷ rows) = (any (λ e. e.id === d.id) rows ≡ false) × IsUnique rows

any-insert :
    (p : Delivery → Bool) (d : Delivery) (rows : List Delivery)
    → any p (insert d rows) ≡ (p d || any p rows)
unfolding insert
any-insert p d [] = refl
any-insert p d (e ∷ rows) = ground (arith, any-insert p d rows)

any-sort : (p : Delivery → Bool) (rows : List Delivery) → any p (sort rows) ≡ any p rows
unfolding sort
any-sort p [] = refl
any-sort p (d ∷ rows) = any-insert p d (sort rows) ∙ ap (λ b. p d || b) (any-sort p rows)

any-take :
    (p : Delivery → Bool) (n : ℕ) (rows : List Delivery)
    → any p (take n rows) ≡ true
    → any p rows ≡ true
any-take p zero rows h = ground arith
any-take p (suc n) [] h = h
any-take p (suc n) (d ∷ rows) h = ground (arith, any-take p n rows)

is_in-map :
    (id : Text) (rows : List Delivery)
    → is_in (map (λ d. d.id) rows) id ≡ any (λ d. d.id === id) rows
is_in-map id [] = refl
is_in-map id (d ∷ rows) = ground (arith, is_in-map id rows)

-- Every selected id is that of a due row.
pub due_of_id :
    (db : WebhookDb) (now batch : ℕ) (id : Text)
    → is_in (due_ids db now batch) id ≡ true
    → any (λ d. is_due db.subscriptions now d && d.id === id) db.deliveries ≡ true
unfolding due_ids
due_of_id db now batch id h =
    let due : List Delivery = keep_if (is_due db.subscriptions now) db.deliveries in
    sym (any-keep_if (λ d. d.id === id) (is_due db.subscriptions now) db.deliveries)
    ∙ sym (any-sort (λ d. d.id === id) due)
    ∙ any-take (λ d. d.id === id) batch (sort due) (sym (is_in-map id (take batch (sort due))) ∙ h)

length-map : (rows : List Delivery) → length (map (λ (d : Delivery). d.id) rows) ≡ length rows
length-map [] = refl
length-map (d ∷ rows) = ap suc (length-map rows)

length-take : (n : ℕ) (rows : List Delivery) → length (take n rows) ≤ n
length-take zero rows = omega arith
length-take (suc n) [] = omega arith
length-take (suc n) (d ∷ rows) = omega (arith, length-take n rows)

pub length-due_ids : (db : WebhookDb) (now batch : ℕ) → length (due_ids db now batch) ≤ batch
unfolding due_ids
length-due_ids db now batch = omega (
  arith,
  length-map (take batch (sort (keep_if (is_due db.subscriptions now) db.deliveries))),
  length-take batch (sort (keep_if (is_due db.subscriptions now) db.deliveries)),
)

same_id :
    (q : Delivery → Bool) (id : Text) (r : Delivery) (rows : List Delivery)
    → r.id === id ≡ true
    → any (λ e. e.id === r.id) rows ≡ false
    → any (λ e. q e && e.id === id) rows ≡ false
same_id q id r [] here new = refl
same_id q id r (e ∷ rows) here new =
    ground (arith, same_id q id r rows, ===_iff r.id id, ===_iff e.id id, ===_iff e.id r.id)

-- With unique ids, a row that has some id and some test is the row of that id.
pub row_of_any :
    (q : Delivery → Bool) (id : Text) (rows : List Delivery) (d : Delivery)
    → IsUnique rows
    → delivery_of id rows ≡ some d
    → any (λ e. q e && e.id === id) rows ≡ true
    → q d ≡ true
unfolding delivery_of
row_of_any q id [] d u e h = ground arith
row_of_any q id (r ∷ rows) d (new, u) e h = elim (Bool-cases (r.id === id)) [
  | inl here ↦ ground (arith, same_id q id r rows here new)
  | inr other ↦ ground (arith, row_of_any q id rows d u)
]

abbrev pub map_option : (Delivery → Delivery) → Option Delivery → Option Delivery
map_option f none = none
map_option f (some d) = some (f d)

-- What a write to the selected rows does to the row of an id, when it keeps ids.
pub delivery_of-update :
    (w : Delivery → Bool) (f : Delivery → Delivery) (id : Text) (rows : List Delivery)
    → ((d : Delivery) → (f d).id ≡ d.id)
    → delivery_of id (update_where w f rows)
      ≡ map_option (λ d. if w d then f d else d) (delivery_of id rows)
unfolding delivery_of
delivery_of-update w f id [] same = refl
delivery_of-update w f id (r ∷ rows) same =
    ground (arith, delivery_of-update w f id rows same, same r, ap (λ i. i === id) (same r))

pub delivery_of-id :
    (id : Text) (rows : List Delivery) (d : Delivery) → delivery_of id rows ≡ some d → d.id ≡ id
unfolding delivery_of
delivery_of-id id rows d h = eq_of_=== d.id id (find?-holds (λ e. e.id === id) rows d h)

-- The rows of a claim: each is due, and the write leases it.
pub claim_row :
    (db : WebhookDb) (now batch : ℕ) (id : Text) (d : Delivery)
    → IsUnique db.deliveries
    → delivery_of id db.deliveries ≡ some d
    → is_in (due_ids db now batch) id ≡ true
    → (is_due db.subscriptions now d ≡ true)
      × (delivery_of id (claim_due_deliveries db now batch).0.deliveries ≡ some (leased now d))
unfolding claim_due_deliveries
claim_row db now batch id d u e h = (
  row_of_any (is_due db.subscriptions now) id db.deliveries d u e (due_of_id db now batch id h),
  delivery_of-update (λ r. is_in (due_ids db now batch) r.id) (leased now) id db.deliveries
        (λ r. refl)
      ∙ rw e (rw (delivery_of-id id db.deliveries d e) (rw h refl)),
)

absent_row :
    (id : Text) (r : Delivery) (rows : List Delivery)
    → r.id === id ≡ true
    → any (λ e. e.id === r.id) rows ≡ false
    → delivery_of id rows ≡ none
unfolding delivery_of
absent_row id r [] here new = refl
absent_row id r (e ∷ rows) here new =
    ground (arith, absent_row id r rows, ===_iff r.id id, ===_iff e.id id, ===_iff e.id r.id)

delivery_of-tail :
    (id : Text) (r : Delivery) (rows : List Delivery) (d : Delivery)
    → any (λ e. e.id === r.id) rows ≡ false
    → delivery_of id rows ≡ some d
    → delivery_of id (r ∷ rows) ≡ some d
unfolding delivery_of
delivery_of-tail id r rows d new e = elim (Bool-cases (r.id === id)) [
  | inl here ↦ ground (arith, absent_row id r rows here new)
  | inr other ↦ ground arith
]

delivery_of-head : (r : Delivery) (rows : List Delivery) → delivery_of r.id (r ∷ rows) ≡ some r
unfolding delivery_of
delivery_of-head r rows = rw (===_refl r.id) refl

-- With unique ids, what holds of each row that an id finds holds of all rows.
pub all_of_ids :
    (p : Delivery → Bool) (rows : List Delivery)
    → IsUnique rows
    → ((id : Text) (d : Delivery) → delivery_of id rows ≡ some d → p d ≡ true)
    → all p rows ≡ true
all_of_ids p [] u h = refl
all_of_ids p (r ∷ rows) (new, u) h = ground (
  arith,
  h r.id r (delivery_of-head r rows),
  all_of_ids p rows u (λ id d e. h id d (delivery_of-tail id r rows d new e)),
)

selects_due :
    (db : WebhookDb) (now batch : ℕ)
    → IsUnique db.deliveries
    → all
        (selects (λ d. is_in (due_ids db now batch) d.id) (is_due db.subscriptions now))
        db.deliveries
      ≡ true
selects_due db now batch u = all_of_ids _ db.deliveries u (λ id d e.
    elim (Bool-cases (is_in (due_ids db now batch) id)) [
      | inl h ↦ ground (arith, claim_row db now batch id d u e h)
      | inr h ↦ rw (delivery_of-id id db.deliveries d e) (rw h refl)
    ])

leased-IsTame : (subs : List Subscription) (now : ℕ) → IsTame (is_due subs now) (leased now)
leased-IsTame subs now = record {
  same_subscription = λ d. refl;
  not_woken = λ d h. h;
  freed = λ d h. ground arith;
}

-- Claiming keeps the outbox's invariant.
pub claim_due_deliveries-IsSound :
    (db : WebhookDb) (now batch : ℕ)
    → IsUnique db.deliveries
    → IsSound db
    → IsSound (claim_due_deliveries db now batch).0
unfolding claim_due_deliveries
claim_due_deliveries-IsSound db now batch u sound =
    update_deliveries-IsSound db _ (is_due db.subscriptions now) (leased now)
      (selects_due db now batch u) (leased-IsTame db.subscriptions now) sound

pub any_of_delivery :
    (p : Delivery → Bool) (id : Text) (rows : List Delivery) (d : Delivery)
    → delivery_of id rows ≡ some d
    → p d ≡ true
    → any p rows ≡ true
unfolding delivery_of
any_of_delivery p id [] d e h = ground arith
any_of_delivery p id (r ∷ rows) d e h = ground (arith, any_of_delivery p id rows d)
