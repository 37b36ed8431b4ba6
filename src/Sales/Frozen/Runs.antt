-- ===== src/Sales/Frozen/Runs.antt =====
-- Every run of requests to the sales service.
use serv_grid.Common.{ℕ, ◌≡◌, false, some, List, [], ◌∷◌, Text, lookup}
use serv_grid.Store.Rows.{SalesCard}
use serv_grid.Store.Db.{Db}
use serv_grid.Api.Clock.{Env}
use serv_grid.Jobs.Cards.{Actor}
use serv_grid.Sales.Repo.{is_draft}
use serv_grid.Sales.Books.{IsBooks, IsStep, IsKept, IsStep-refl, IsStep-trans}
use serv_grid.Sales.Doors.{SaleCreate, SalePatch, create_sale, patch_sale, confirm_sale, void_sale}
use serv_grid.Sales.Frozen.{void_sale-IsStep}
use serv_grid.Sales.Frozen.Confirm.{confirm_sale-IsStep}
use serv_grid.Sales.Frozen.Draft.{patch_sale-IsStep, create_sale-IsStep}

pub data SalesRequest : Type 0 where
  create_request : Actor → SaleCreate → SalesRequest
  patch_request : Actor → ℕ → ℕ → SalePatch → SalesRequest
  confirm_request : Env → Actor → ℕ → SalesRequest
  void_request : Env → Actor → ℕ → Text → SalesRequest

-- The database after the request, whatever it answered.
abbrev pub serve_sale : SalesRequest → Db → Db
serve_sale (create_request actor input) db = (create_sale actor input db).1
serve_sale (patch_request actor id if_match patch) db = (patch_sale actor id if_match patch db).1
serve_sale (confirm_request env actor id) db = (confirm_sale env actor id db).1
serve_sale (void_request env actor id reason) db = (void_sale env actor id reason db).1

unfoldable pub serve_sales : List SalesRequest → Db → Db
serve_sales [] db = db
serve_sales (r ∷ l) db = serve_sales l (serve_sale r db)

serve_sale-IsStep : (r : SalesRequest) (db : Db) → IsBooks db → IsStep db (serve_sale r db)
serve_sale-IsStep (create_request actor input) db h = create_sale-IsStep actor input db h
serve_sale-IsStep (patch_request actor id if_match patch) db h =
    patch_sale-IsStep actor id if_match patch db h
serve_sale-IsStep (confirm_request env actor id) db h = confirm_sale-IsStep env actor id db h
serve_sale-IsStep (void_request env actor id reason) db h =
    void_sale-IsStep env actor id reason db h

run-IsStep : (l : List SalesRequest) (db : Db) → IsBooks db → IsStep db (serve_sales l db)
unfolding serve_sales
run-IsStep [] db h = IsStep-refl db h
run-IsStep (r ∷ l) db h =
    let one = serve_sale-IsStep r db h in
    IsStep-trans db (serve_sale r db) (serve_sales l (serve_sale r db)) one
      (run-IsStep l (serve_sale r db) one.books)

-- A card that is not a draft is still there after any sequence of create, patch, confirm and void
-- requests, by any actors and at any instants, with its number, account, rep, date, notes, stamp and lines; its status is the same, or it is void.
pub serve_sales-IsKept :
    (l : List SalesRequest) (db : Db) (id : ℕ) (c : SalesCard)
    → IsBooks db
    → lookup id db.sales_cards ≡ some c
    → is_draft c.status ≡ false
    → IsKept id c db (serve_sales l db)
serve_sales-IsKept l db id c h e n = (run-IsStep l db h).kept id c e n
