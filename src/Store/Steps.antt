-- ===== src/Store/Steps.antt =====
-- How a statement or a block of statements can end: it returns with a property of the state, or
-- it throws, for a reason that is stated with what `mapDbRefusal` makes of it.
use serv_grid.Common.{◌≡◌}
use serv_grid.Store.Db.{Db}
use serv_grid.Store.Tx.{Result, ok, err, Failure, map_db_refusal}

pub data Ran (r : Result (Unit {0}) × Db) (Why : Failure → Type 0) (P : Db → Type 0) : Type 0 where
  went : (db' : Db) → r ≡ (ok tt, db') → P db' → Ran r Why P
  refused : (e : Failure) (db' : Db) → r ≡ (err e, db') → Why (map_db_refusal e) → Ran r Why P

-- How an action with a result can end, when only a run that returns is described.
pub data Done {A : Type 0} (r : Result A × Db) (P : A → Db → Type 0) : Type 0 where
  done : (a : A) (db' : Db) → r ≡ (ok a, db') → P a db' → Done r P
  failed : (e : Failure) (db' : Db) → r ≡ (err e, db') → Done r P
