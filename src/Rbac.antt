-- ===== src/Rbac.antt =====
-- apps/api/src/plugins/rbac.ts: a cell of the matrix as a predicate on the rows of a query.
pub mod Rows
use serv_grid.Common.{ℕ, Bool, true, false, Option, some, get_or, List, [], ◌∷◌}
use serv_grid.Shared.Errors.{ErrorCode, forbidden}
use serv_grid.Shared.Permissions.{
  Role, Resource, job, customer, customer_stack, company, sale, payment, Action, Scope, all, own,
  assigned, permit,
}

-- The SQL fragments, each on a column of the query's own table.
pub data Fragment : Type 0 where
  -- assigned_to = $n
  assigned_to_is : Fragment
  -- (owner_rep_id = $n OR owner_rep_id IS NULL)
  owner_rep_is_or_null : Fragment
  -- EXISTS (SELECT 1 FROM job_cards jc WHERE jc.customer_id = q.id AND jc.assigned_to = $n)
  has_job_at_customer : Fragment
  -- sales_rep_id = $n
  sales_rep_is : Fragment
  -- received_by = $n
  received_by_is : Fragment
  -- EXISTS (… WHERE jc.customer_id = q.customer_id AND jc.assigned_to = $n)
  has_job_at_site : Fragment

-- The table that a query names when it gives no alias.
pub data TableName : Type 0 where
  job_cards companies customers sales_cards payments customer_products : TableName
  alias : ℕ → TableName

-- The fragment's table, the number of its placeholder, and the values that it binds.
pub record ScopePredicate : Type 0 where
  pub sql : Fragment
  pub qualifier : TableName
  pub param_start : ℕ
  pub params : List ℕ

-- PREDICATES[resource]?.[scope], with the resource's table
unfoldable pub predicates : Resource → Scope → Option (TableName × Fragment)
predicates job own = some (job_cards, assigned_to_is)
predicates company own = some (companies, owner_rep_is_or_null)
predicates customer assigned = some (customers, has_job_at_customer)
predicates sale own = some (sales_cards, sales_rep_is)
predicates payment own = some (payments, received_by_is)
predicates customer_stack assigned = some (customer_products, has_job_at_site)
predicates _ _ = Option.none

-- What `scopePredicate` answers; `unregistered` is the programmer error that it throws.
pub data Answer : Type 0 where
  unrestricted : Answer
  restricted : ScopePredicate → Answer
  refused : ErrorCode → Answer
  unregistered : Answer

abbrev build : ℕ → Option ℕ → Option TableName → Option (TableName × Fragment) → Answer
build actor start qualifier Option.none = unregistered
build actor start qualifier (some (table, sql)) = restricted (record {
  sql = sql;
  qualifier = get_or qualifier table;
  param_start = get_or start 1;
  params = actor ∷ [];
})

abbrev by_scope : ℕ → Resource → Option ℕ → Option TableName → Scope → Answer
by_scope actor resource start qualifier all = unrestricted
by_scope actor resource start qualifier Scope.none = refused forbidden
by_scope actor resource start qualifier s = build actor start qualifier (predicates resource s)

unfoldable pub scope_predicate : Role → ℕ → Resource → Action → Option ℕ → Option TableName → Answer
unfolding permit predicates
scope_predicate role actor resource action start qualifier =
    by_scope actor resource start qualifier (permit role resource action)

abbrev is_granted : Scope → Bool
is_granted Scope.none = false
is_granted _ = true

-- request.can
unfoldable pub can : Role → Resource → Action → Bool
unfolding permit
can role resource action = is_granted (permit role resource action)
