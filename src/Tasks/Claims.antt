-- ===== src/Tasks/Claims.antt =====
-- The compare-and-set of a claim: who can own a work item after it.
use m8flow_bpmn_core.Base.{
  ℕ, suc, String, true, false, Option, none, some, [], ◌∷◌, ◌≡◌, ◌≢◌, ◌⊎◌, inl, inr, refl, sym, ap,
  ◌∙◌, subst, arith, ◌==◌, Nat_Eq, String_Eq, eq_of_test, not_true, Option-cases, find,
  find-update_where, keep_unique, Distinct-update_where, keep, update_where, Distinct,
}
use m8flow_bpmn_core.Errors.{Error}
use m8flow_bpmn_core.Model.Process.{Timestamp}
use m8flow_bpmn_core.Model.Task.{WorkItem}
use m8flow_bpmn_core.Model.Database.{Database}
use m8flow_bpmn_core.Session.{Result, ok, err, update, select, first}
use m8flow_bpmn_core.WorkItems.{claim_work_item}
use m8flow_bpmn_core.Tasks.{owned_by_another, is_claimable, touch_instance, claim_write}

-- The row under a key.
abbrev pub item_at : Database → ℕ → Option WorkItem
item_at db id = find (λ (w : WorkItem). w.id == id) db.work_items.rows

-- Keys are keys.
abbrev pub HasKeys : Database → Type 0
HasKeys db = Distinct (λ (w : WorkItem). w.id) db.work_items.rows

claimable-key : (t : String) (id u : ℕ) (w : WorkItem) → is_claimable t id u w ≡ true → w.id ≡ id
unfolding is_claimable
claimable-key t id u w h = eq_of_test w.id id (ground arith)

claimed-key :
    (u : ℕ) (at : Timestamp) (id : ℕ) (w : WorkItem)
    → ((claim_work_item u at w).id == id) ≡ (w.id == id)
unfolding claim_work_item
claimed-key u at id w = refl

module _ (t : String) (item : WorkItem) (u : ℕ) (db : Database) (keys : HasKeys db) where
  -- The time that the claim is dated.
  abbrev claimed_at : Timestamp
  claimed_at = db.clock db.readings

  claim_write-lost :
      keep (is_claimable t item.id u) db.work_items.rows ≡ []
      → (claim_write t item u db).0 ≡ err Error.invalid_state_error
  unfolding claim_write select update
  claim_write-lost h = ground (arith, h)

  -- The database after a claim that found its row.
  abbrev claimed : WorkItem → Database
  claimed w =
      (touch_instance w.process_instance_id claimed_at (record db {
        readings = suc db.readings;
        work_items = record db.work_items {
          rows =
              update_where (is_claimable t item.id u) (claim_work_item u claimed_at)
                db.work_items.rows;
        };
      })).1

  claim_write-won :
      (w : WorkItem)
      → keep (is_claimable t item.id u) db.work_items.rows ≡ w ∷ []
      → item_at db item.id ≡ some w
      → is_claimable t item.id u w ≡ true
      → (claim_write t item u db ≡ (ok (claim_work_item u claimed_at w), claimed w))
        × (item_at (claimed w) item.id ≡ some (claim_work_item u claimed_at w))
  unfolding claim_write select update first touch_instance claim_work_item
  claim_write-won w one found holds =
      let refreshed =
        find-update_where (λ (x : WorkItem). x.id == item.id) (is_claimable t item.id u)
          (claim_work_item u claimed_at) db.work_items.rows
          (λ x _. claimed-key u claimed_at item.id x) in
      (ground (arith, one, found, holds, refreshed), ground (arith, found, holds, refreshed))

  claimed-HasKeys : (w : WorkItem) → HasKeys (claimed w)
  unfolding touch_instance update claim_work_item
  claimed-HasKeys w =
      Distinct-update_where (λ (x : WorkItem). x.id) (is_claimable t item.id u)
        (claim_work_item u claimed_at) db.work_items.rows (λ x. refl) keys

claimable-owner :
    (t : String) (id u : ℕ) (w : WorkItem)
    → is_claimable t id u w ≡ true
    → (w.completed ≡ false)
      × (w.m8f_tenant_id ≡ t)
      × ((w.actual_owner_id ≡ none) ⊎ (w.actual_owner_id ≡ some u))
unfolding is_claimable owned_by_another
claimable-owner t id u w h = (
  ground arith,
  eq_of_test w.m8f_tenant_id t (ground arith),
  elim (Option-cases w.actual_owner_id) [
    | inl e ↦ inl e
    | inr (v, e) ↦ inr (e ∙ ap some (eq_of_test v u (ground (arith, e, h))))
  ],
)

claimed-not_claimable :
    (t : String) (id u v : ℕ) (at : Timestamp) (w : WorkItem)
    → u ≢ v
    → is_claimable t id v (claim_work_item u at w) ≡ false
unfolding is_claimable owned_by_another claim_work_item
claimed-not_claimable t id u v at w ne =
    ground (arith, not_true (u == v) (λ yes. ne (eq_of_test u v yes)))

claim_write-refused :
    (t : String) (item : WorkItem) (v : ℕ) (db : Database) (w : WorkItem)
    → HasKeys db
    → item_at db item.id ≡ some w
    → is_claimable t item.id v w ≡ false
    → (claim_write t item v db).0 ≡ err Error.invalid_state_error
claim_write-refused t item v db w keys stored refused =
    elim (keep_unique (λ (x : WorkItem). x.id) item.id (is_claimable t item.id v) db.work_items.rows
      keys (claimable-key t item.id v)) [
        | inl nothing ↦ claim_write-lost t item v db keys nothing
        | inr (x, one, found, holds) ↦
            let same : x ≡ w = ground (arith, found, stored) in ground (arith, same, holds, refused)
      ]

-- Whatever the table has become since the checks of the claim were made, if only no two work items
-- have one key: the compare-and-set fails
-- with an invalid state, or there is an open item under the key, of the tenant, that nobody or this
-- user owns; then the item is returned and stored as claimed by the user.
pub claim_write-exclusive :
    (t : String) (item : WorkItem) (u : ℕ) (db : Database)
    → HasKeys db
    → ((claim_write t item u db).0 ≡ err Error.invalid_state_error)
      ⊎ ((w : WorkItem) × (db' : Database) × (item_at db item.id ≡ some w)
          × (w.completed ≡ false)
          × (w.m8f_tenant_id ≡ t)
          × ((w.actual_owner_id ≡ none) ⊎ (w.actual_owner_id ≡ some u))
          × (claim_write t item u db ≡ (ok (claim_work_item u (db.clock db.readings) w), db'))
          × (item_at db' item.id ≡ some (claim_work_item u (db.clock db.readings) w)))
claim_write-exclusive t item u db keys =
    elim (keep_unique (λ (w : WorkItem). w.id) item.id (is_claimable t item.id u) db.work_items.rows
      keys (claimable-key t item.id u)) [
        | inl nothing ↦ inl (claim_write-lost t item u db keys nothing)
        | inr (w, one, found, holds) ↦
            let (run, stored) = claim_write-won t item u db keys w one found holds in
            let (is_open, tenant, owner) = claimable-owner t item.id u w holds in
            inr (w, claimed t item u db keys w, found, is_open, tenant, owner, run, stored)
      ]

-- Where no two work items have one key: of two different users whose checks on one item both passed,
-- the second to write loses. Once the claim of the first has returned, that of the other fails with
-- an invalid state.
pub claim_write-race :
    (t t' : String) (item item' : WorkItem) (u v : ℕ) (db db' : Database) (row : WorkItem)
    → HasKeys db
    → u ≢ v
    → item.id ≡ item'.id
    → claim_write t item u db ≡ (ok row, db')
    → (claim_write t' item' v db').0 ≡ err Error.invalid_state_error
claim_write-race t t' item item' u v db db' row keys ne same run =
    elim (keep_unique (λ (w : WorkItem). w.id) item.id (is_claimable t item.id u) db.work_items.rows
      keys (claimable-key t item.id u)) [
        | inl nothing ↦
            let lost = claim_write-lost t item u db keys nothing in ground (arith, lost, run)
        | inr (w, one, found, holds) ↦
            let (won, stored) = claim_write-won t item u db keys w one found holds in
            subst (λ d. (claim_write t' item' v d).0 ≡ err Error.invalid_state_error)
              (ap (λ (o : Result WorkItem × Database). o.1) (sym won ∙ run))
              (claim_write-refused t' item' v (claimed t item u db keys w)
                (claim_work_item u (db.clock db.readings) w) (claimed-HasKeys t item u db keys w)
                (subst
                  (λ n.
                    item_at (claimed t item u db keys w) n
                    ≡ some (claim_work_item u (db.clock db.readings) w))
                  same stored)
                (claimed-not_claimable t' item'.id u v (db.clock db.readings) w ne))
      ]
