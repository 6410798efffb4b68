-- ===== src/Controller/Reconcile/Balance.antt =====
-- The handles of database servers that Reconcile of internal/controller/database_controller.go
-- opens.
use database_user_operator.Base.{◌≡◌, refl, String}
use database_user_operator.World.{World}
use database_user_operator.Effects.{Calls}
use database_user_operator.Effects.Avoids.{kube, object}
use database_user_operator.Database.Client.Handles.{open_handles, Open, Open-Ignores}
use database_user_operator.Controller.Resources.Balance.{reconcile_database-Open}
use database_user_operator.Controller.Delete.Balance.{reconcile_delete-Open}
use database_user_operator.Controller.Reconcile.{reconcile}
use database_user_operator.Controller.Reconcile.Calls.{reconcile-Keeps}

-- A call of Reconcile leaves exactly those handles open that were open before: in each branch,
-- whatever fails, every handle that sql.Open returned is closed.
pub reconcile-open_handles :
    (w : World) (namespace name : String) (calls : Calls)
    → open_handles w (reconcile w namespace name calls).1 ≡ open_handles w calls
reconcile-open_handles w namespace name calls =
    let handles = open_handles w calls in
    let other = Open-Ignores w handles in
    (reconcile-Keeps w (Open w handles) (other kube refl) (reconcile_database-Open w handles)
        (other object refl) (λ db. reconcile_delete-Open w db handles) namespace name).after
      calls refl
