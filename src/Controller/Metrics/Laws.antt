-- ===== src/Controller/Metrics/Laws.antt =====
-- The registration of the collectors of internal/controller/metrics.go, by the rules of Prometheus.
use database_user_operator.Base.{
  ◌≡◌, refl, sym, ap, ◌∙◌, inl, inr, ℕ, Bool, true, false, not, ◌&&◌, ◌||◌, ◌=ℕ◌, leb, String, List,
  [], ◌∷◌, ◌==◌, if◌then◌else◌, codes, has_prefix, starts_with, eq_iff, Bool-cases, arith, ok,
}
use database_user_operator.Controller.Metrics.{Collector, CollectorKind, histogram, Registry, init}

-- What Prometheus documents of names: a metric name matches [a-zA-Z_:][a-zA-Z0-9_:]*, and a label
-- name [a-zA-Z_][a-zA-Z0-9_]*, without two underscores in front.
abbrev is_letter : ℕ → Bool
is_letter c = (leb b'a' c && leb c b'z') || ((leb b'A' c && leb c b'Z') || (c =ℕ b'_'))

abbrev is_digit : ℕ → Bool
is_digit c = leb b'0' c && leb c b'9'

abbrev all_among : (ℕ → Bool) → List ℕ → Bool
all_among test [] = true
all_among test (c ∷ s) = test c && all_among test s

abbrev is_metric_name : List ℕ → Bool
is_metric_name [] = false
is_metric_name (c ∷ s) =
    (is_letter c || (c =ℕ b':')) && all_among (λ d. (is_letter d || is_digit d) || (d =ℕ b':')) s

abbrev is_label_name : List ℕ → Bool
is_label_name [] = false
is_label_name (c ∷ s) =
    (is_letter c && all_among (λ d. is_letter d || is_digit d) s)
    && not (has_prefix (c ∷ s) (b'_' ∷ b'_' ∷ []))

abbrev is_member : String → List String → Bool
is_member name [] = false
is_member name (n ∷ names) = if n == name then true else is_member name names

abbrev are_labels : List String → Bool
are_labels [] = true
are_labels (l ∷ labels) = (is_label_name (codes l) && not (is_member l labels)) && are_labels labels

-- The label of the buckets of a histogram.
abbrev has_own_label : CollectorKind → List String → Bool
has_own_label histogram labels = is_member "le" labels
has_own_label _ labels = false

abbrev is_valid : Collector → Bool
is_valid c =
    (is_metric_name (codes c.name) && are_labels c.labels) && not (has_own_label c.kind c.labels)

-- Each collector is valid, and its name is not among these nor that of an earlier one.
abbrev pub can_register : List String → List Collector → Bool
can_register names [] = true
can_register names (c ∷ collectors) =
    (is_valid c && not (is_member c.name names)) && can_register (c.name ∷ names) collectors

-- The documented behaviour of MustRegister.
pub record Documented (registry : Registry) : Type 0 where
  pub registers :
      (collectors : List Collector)
      → can_register registry.registered collectors ≡ true
      → registry.must_register collectors ≡ ok tt

-- No name begins like those of this program.
abbrev pub are_foreign : List String → Bool
are_foreign [] = true
are_foreign (n ∷ names) = not (starts_with n "databaseuser_") && are_foreign names

differs :
    (n name : String)
    → starts_with name "databaseuser_" ≡ true
    → starts_with n "databaseuser_" ≡ false
    → (n == name) ≡ false
differs n name h k = elim (Bool-cases (n == name)) [
  | inl e ↦
      absurd (clash _ h (ap (λ s. starts_with s "databaseuser_") (sym ((eq_iff n name).0 e)) ∙ k))
  | inr e ↦ e
]
  where
    clash : (b : Bool) → b ≡ true → b ≡ false → ⊥
    clash b h k = ground arith

foreign_parts : (b c : Bool) → (not b && c) ≡ true → (b ≡ false) × (c ≡ true)
foreign_parts b c h = ground arith

is_member-foreign :
    (name : String) (names : List String)
    → starts_with name "databaseuser_" ≡ true
    → are_foreign names ≡ true
    → is_member name names ≡ false
is_member-foreign name [] h f = refl
is_member-foreign name (n ∷ names) h f =
    let (first, later) = foreign_parts (starts_with n "databaseuser_") (are_foreign names) f in
    rw (differs n name h first) (is_member-foreign name names h later)

-- Where the registry behaves as documented and holds no name that begins like those of this program,
-- the registration of the five collectors does not panic: their names and labels are valid, and no
-- name is taken.
pub init-registers :
    (registry : Registry)
    → Documented registry
    → are_foreign registry.registered ≡ true
    → init registry ≡ ok tt
unfolding init codes has_prefix starts_with
init-registers registry d f =
    let new = λ (name : String) (h : starts_with name "databaseuser_" ≡ true).
      is_member-foreign name registry.registered h f in
    d.registers _ (
      rw
        (
          new "databaseuser_reconciliation_total" refl,
          new "databaseuser_reconciliation_duration_seconds" refl,
          new "databaseuser_info" refl,
          new "databaseuser_validation_errors_total" refl,
          new "databaseuser_condition_status" refl,
        )
        refl)
