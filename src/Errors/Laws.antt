-- ===== src/Errors/Laws.antt =====
-- The class of an error that fmt.Errorf wraps.
use mathlib.Core.List.{map-append}
use database_user_operator.Base.{
  ℕ, true, some, String, ◌<>◌, List, [], ◌∷◌, ◌++◌, ◌≡◌, arith, codes, codes-<>, to_lower,
  lower_code, contains, contains_any, GoError, wrapped,
}
use database_user_operator.Errors.{
  error_text, is_aws_permission_error, is_aws_resource_not_found_error, permission_words,
  not_found_words,
}

-- A text that follows another is still contained in the whole.
contains-append : (s t sub : List ℕ) → contains t sub ≡ true → contains (s ++ t) sub ≡ true
unfolding contains
contains-append [] t sub h = h
contains-append (c ∷ s) t sub h = ground (arith, contains-append s t sub h)

contains_any-append :
    (s t : List ℕ) (ws : List String) → contains_any t ws ≡ true → contains_any (s ++ t) ws ≡ true
unfolding contains_any
contains_any-append s t [] h = cc
contains_any-append s t (w ∷ ws) h =
    ground (arith, contains-append s t (codes w), contains_any-append s t ws)

to_lower-<> : (s t : String) → to_lower (s <> t) ≡ to_lower s ++ to_lower t
unfolding to_lower
to_lower-<> s t = rw codes-<> (map-append lower_code (codes s) (codes t))

contains_any-<> :
    (s t : String) (ws : List String)
    → contains_any (to_lower t) ws ≡ true
    → contains_any (to_lower (s <> t)) ws ≡ true
contains_any-<> s t ws h = rw to_lower-<> (contains_any-append (to_lower s) (to_lower t) ws h)

-- The words that mark an error's text still mark it after fmt.Errorf("<prefix>: %w").
wrapped_words :
    (prefix : String) (e : GoError) (ws : List String)
    → contains_any (to_lower (error_text e)) ws ≡ true
    → contains_any (to_lower (error_text (wrapped prefix e))) ws ≡ true
unfolding error_text
wrapped_words prefix e ws h =
    contains_any-<> prefix (": " <> error_text e) ws (contains_any-<> ": " (error_text e) ws h)

-- An error that is recognised by its text as a permission error is still recognised once it has
-- been wrapped, whatever the prefix.
pub is_aws_permission_error-wrapped :
    (prefix : String) (e : GoError)
    → is_aws_permission_error (some e) ≡ true
    → is_aws_permission_error (some (wrapped prefix e)) ≡ true
unfolding is_aws_permission_error
is_aws_permission_error-wrapped prefix e = wrapped_words prefix e permission_words

-- The same for a missing AWS resource.
pub is_aws_resource_not_found_error-wrapped :
    (prefix : String) (e : GoError)
    → is_aws_resource_not_found_error (some e) ≡ true
    → is_aws_resource_not_found_error (some (wrapped prefix e)) ≡ true
unfolding is_aws_resource_not_found_error
is_aws_resource_not_found_error-wrapped prefix e = wrapped_words prefix e not_found_words
