-- ===== src/Controller/Metrics.antt =====
-- internal/controller/metrics.go: the collectors and their registration. No other code of the program
-- sets their values.
pub mod Laws
use database_user_operator.Base.{
  ℕ, Bool, true, false, not, ◌&&◌, ◌||◌, ◌=ℕ◌, leb, String, List, [], ◌∷◌, ◌==◌, if◌then◌else◌,
  codes, starts_with, Result,
}

pub data CollectorKind : Type 0 where
  counter histogram gauge : CollectorKind

-- A collector as NewCounterVec, NewHistogramVec and NewGaugeVec make it; the histogram has
-- prometheus.DefBuckets.
pub record Collector : Type 0 where
  pub kind : CollectorKind
  pub name : String
  pub help : String
  pub labels : List String

abbrev pub database_user_reconciliation_total : Collector
database_user_reconciliation_total = record {
  kind = counter;
  name = "databaseuser_reconciliation_total";
  help = "Total number of DatabaseUser reconciliations";
  labels = "namespace" ∷ "name" ∷ "result" ∷ [];
}

abbrev pub database_user_reconciliation_duration : Collector
database_user_reconciliation_duration = record {
  kind = histogram;
  name = "databaseuser_reconciliation_duration_seconds";
  help = "Duration of DatabaseUser reconciliations in seconds";
  labels = "namespace" ∷ "name" ∷ [];
}

abbrev pub database_user_info : Collector
database_user_info = record {
  kind = gauge;
  name = "databaseuser_info";
  help = "Information about DatabaseUser resources";
  labels = "namespace" ∷ "name" ∷ "username" ∷ "database" ∷ "phase" ∷ [];
}

abbrev pub database_user_validation_errors : Collector
database_user_validation_errors = record {
  kind = counter;
  name = "databaseuser_validation_errors_total";
  help = "Total number of validation errors for DatabaseUser";
  labels = "namespace" ∷ "name" ∷ "error_type" ∷ [];
}

abbrev pub database_user_conditions : Collector
database_user_conditions = record {
  kind = gauge;
  name = "databaseuser_condition_status";
  help = "Status of DatabaseUser conditions (1 = true, 0 = false, -1 = unknown)";
  labels = "namespace" ∷ "name" ∷ "condition" ∷ [];
}

-- The global registry: the names of the collectors that others have registered, and MustRegister,
-- with an error for a panic.
pub record Registry : Type 0 where
  pub registered : List String
  pub must_register : List Collector → Result (Unit {0})

-- The function init.
unfoldable pub init : Registry → Result (Unit {0})
init registry = registry.must_register (
    database_user_reconciliation_total ∷ database_user_reconciliation_duration ∷ database_user_info
    ∷ database_user_validation_errors ∷ database_user_conditions ∷ [])
