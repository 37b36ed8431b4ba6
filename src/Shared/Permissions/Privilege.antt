-- ===== src/Shared/Permissions/Privilege.antt =====
-- What the matrix keeps from whom.
use serv_grid.Common.{◌≡◌, ◌⊎◌, arith}
use serv_grid.Shared.Permissions.{
  Role, owner, dispatcher, technician, job_money, cash_confirm, location_read, contract_money,
  job_assign, Action, create, none, permit,
}

-- A granted cell for reading positions or for confirming cash is the owner's. A granted cell for
-- job revenue is the owner's or a technician's `create`, and one for assigning jobs or for the
-- price of a contract is the owner's or a dispatcher's.
pub owner_only :
    (r : Role) (a : Action)
    → ((permit r location_read a ≡ none) ⊎ (r ≡ owner))
      × ((permit r cash_confirm a ≡ none) ⊎ (r ≡ owner))
      × ((permit r job_money a ≡ none) ⊎ (r ≡ owner) ⊎ (r ≡ technician) × (a ≡ create))
      × ((permit r job_assign a ≡ none) ⊎ (r ≡ owner) ⊎ (r ≡ dispatcher))
      × ((permit r contract_money a ≡ none) ⊎ (r ≡ owner) ⊎ (r ≡ dispatcher))
unfolding permit
owner_only r a = (ground arith, ground arith, ground arith, ground arith, ground arith)
