-- ===== src/Rbac/Rows.antt =====
-- Which rows the predicate of a role lets through: the fragments read against rows.
use serv_grid.Common.{
  ℕ, Bool, true, false, ◌≡◌, ◌≢◌, ◌⊎◌, ◌↔◌, some, none, List, [], ◌∷◌, ◌||◌, ◌&&◌, ◌==◌, is_id,
  is_none, Table, arith,
}
use serv_grid.Shared.Permissions.{
  Role, owner, dispatcher, technician, sales_rep, Resource, job, customer, customer_stack, company,
  sale, payment, Action, read,
}
use serv_grid.Store.Rows.{JobCard, Company, SalesCard, Payment}
use serv_grid.Rbac.{Fragment, Answer, unrestricted, restricted, scope_predicate, unregistered}

-- EXISTS (SELECT 1 FROM job_cards jc WHERE jc.customer_id = c AND jc.assigned_to = a)
unfoldable pub has_job : Table JobCard → ℕ → ℕ → Bool
has_job [] c a = false
has_job ((k, jc) ∷ t) c a = jc.customer_id == c && is_id jc.assigned_to a || has_job t c a

-- The row's columns that the fragments read; a table without the column leaves it out.
pub data ScopedRow : Type 0 where
  job_row : JobCard → ScopedRow
  company_row : Company → ScopedRow
  sale_row : SalesCard → ScopedRow
  payment_row : Payment → ScopedRow
  -- a customer or a unit of its stack, by the customer's id
  site_row : ℕ → ScopedRow

-- Whether the WHERE clause holds of a row, with `a` bound to the placeholder.
abbrev pub holds : Table JobCard → Fragment → ℕ → ScopedRow → Bool
holds jobs Fragment.assigned_to_is a (job_row r) = is_id r.assigned_to a
holds jobs Fragment.owner_rep_is_or_null a (company_row r) =
    is_id r.owner_rep_id a || is_none r.owner_rep_id
holds jobs Fragment.sales_rep_is a (sale_row r) = r.sales_rep_id == a
holds jobs Fragment.received_by_is a (payment_row r) = r.received_by == a
holds jobs Fragment.has_job_at_customer a (site_row c) = has_job jobs c a
holds jobs Fragment.has_job_at_site a (site_row c) = has_job jobs c a
holds jobs _ a r = false

abbrev bound : Table JobCard → Fragment → List ℕ → ScopedRow → Bool
bound jobs f [] r = false
bound jobs f (a ∷ _) r = holds jobs f a r

-- Does a scoped query return the row?
abbrev pub selects : Table JobCard → Answer → ScopedRow → Bool
selects jobs unrestricted r = true
selects jobs (restricted p) r = bound jobs p.sql p.params r
selects jobs _ r = false

module _ (jobs : Table JobCard) (a : ℕ) where
  -- The row is selected by the predicate of the cell.
  abbrev pub IsVisible : Role → Resource → Action → ScopedRow → Type 0
  IsVisible role resource action r =
      selects jobs (scope_predicate role a resource action none none) r ≡ true

  -- A scoped read returns a job to the owner, a dispatcher, and the technician it is assigned
  -- to; a sale to the owner and the rep who made it; a payment to the owner and the rep who
  -- received it; an account to the owner, the rep who owns it and, when nobody owns it, every
  -- rep; and to nobody else.
  pub IsVisible-rows :
      (role : Role) (j : JobCard) (s : SalesCard) (p : Payment) (c : Company)
      → (IsVisible role job read (job_row j)
          ↔ ((role ≡ owner) ⊎ (role ≡ dispatcher) ⊎ (role ≡ technician) × (j.assigned_to ≡ some a)))
        × (IsVisible role sale read (sale_row s)
            ↔ ((role ≡ owner) ⊎ (role ≡ sales_rep) × (s.sales_rep_id ≡ a)))
        × (IsVisible role payment read (payment_row p)
            ↔ ((role ≡ owner) ⊎ (role ≡ sales_rep) × (p.received_by ≡ a)))
        × (IsVisible role company read (company_row c) ↔ (
            (role ≡ owner)
            ⊎ (role ≡ sales_rep) × ((c.owner_rep_id ≡ some a) ⊎ (c.owner_rep_id ≡ none))))
  unfolding scope_predicate
  IsVisible-rows role j s p c = (
    (ground arith, ground arith),
    (ground arith, ground arith),
    (ground arith, ground arith),
    (ground arith, ground arith),
  )

  -- The six registered resources never meet the programmer error, in any cell.
  pub registered :
      (role : Role) (action : Action)
      → (scope_predicate role a job action none none ≢ unregistered)
        × (scope_predicate role a customer action none none ≢ unregistered)
        × (scope_predicate role a customer_stack action none none ≢ unregistered)
        × (scope_predicate role a company action none none ≢ unregistered)
        × (scope_predicate role a sale action none none ≢ unregistered)
        × (scope_predicate role a payment action none none ≢ unregistered)
  unfolding scope_predicate
  registered role action =
      (ground arith, ground arith, ground arith, ground arith, ground arith, ground arith)
