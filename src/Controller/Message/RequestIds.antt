-- ===== src/Controller/Message/RequestIds.antt =====
-- normalizeErrorMessage of internal/controller/database_controller.go on texts with a request id.
use Prim.Native.String.append
use mathlib.Core.Path.{subst}
use mathlib.Core.Option
use database_user_operator.Base.{
  ◌≡◌, refl, sym, ap, ◌∙◌, ℕ, zero, suc, ◌≤◌, Bool, true, false, ◌&&◌, not, Option, none, some,
  String, ◌<>◌, List, [], ◌∷◌, ◌++◌, ◌=ℕ◌, Char, code, codes, codes-<>, length_text, =ℕ_iff, arith,
}
use database_user_operator.Controller.Message.{
  is_id_char, tail_length, id_length, some_id_length, match_length, remove_ids, trim_right,
  normalize_error_message,
}
use database_user_operator.Controller.Message.Matches.{
  size, size-codes, Within, pattern, pattern-Matches,
}

-- What an identifier consists of.
abbrev all_id : List ℕ → Bool
all_id [] = true
all_id (c ∷ s) = is_id_char c && all_id s

abbrev pub is_identifier : List ℕ → Bool
is_identifier [] = false
is_identifier (c ∷ s) = all_id (c ∷ s)

-- A text that does not go on with the identifier.
abbrev pub ends_id : List ℕ → Bool
ends_id [] = true
ends_id (c ∷ s) = not (is_id_char c)

-- One step of the replacement, for a match at a character.
abbrev step : Char → Option ℕ → String → String
step c o s = elim o [
  | none ↦ String.◌∷◌ c (remove_ids zero s)
  | some zero ↦ String.◌∷◌ c (remove_ids zero s)
  | some (suc n) ↦ remove_ids n s
]

remove_ids-step :
    (c : Char) (s : String)
    → remove_ids zero (String.◌∷◌ c s) ≡ step c (match_length pattern (code c ∷ codes s)) s
unfolding remove_ids
remove_ids-step c s = refl

nothing_below : (n : ℕ) → suc n ≤ zero → ⊥
nothing_below n h = omega arith

below : (k n : ℕ) → suc k ≤ suc n → k ≤ n
below k n h = omega arith

module _ (c : Char) (n : ℕ) (x x' : String)
    (same : (k : ℕ) → k ≤ n → remove_ids k x ≡ remove_ids k x') where
  step-same : (o : Option ℕ) → Within o (suc n) → step c o x ≡ step c o x'
  step-same none h = ap (String.◌∷◌ c) (same zero (omega arith))
  step-same (some zero) h = ap (String.◌∷◌ c) (same zero (omega arith))
  step-same (some (suc k)) h = same k (below k n h)

-- Two texts that begin with "RequestID: " and are alike for the replacement are so behind any text.
module _ (t t' : String) (u u' : List ℕ) (begins : codes t ≡ b'R' ∷ u)
    (begins' : codes t' ≡ b'R' ∷ u') (alike : remove_ids 0 t ≡ remove_ids 0 t') where
  codes-behind :
      (s v : String) (w : List ℕ) → codes v ≡ b'R' ∷ w → codes (s <> v) ≡ codes s ++ (b'R' ∷ w)
  codes-behind s v w e = codes-<> s v ∙ ap (λ z. codes s ++ z) e

  behind :
      (s : String) (skip : ℕ)
      → skip ≤ length_text s
      → remove_ids skip (s <> t) ≡ remove_ids skip (s <> t')
  unfolding length_text remove_ids
  behind String.[] zero h = rw (append.nil t, append.nil t') alike
  behind String.[] (suc skip) h = absurd (nothing_below skip h)
  behind (String.◌∷◌ c s) (suc skip) h =
      rw (append.cons c s t, append.cons c s t') (behind s skip (below skip _ h))
  behind (String.◌∷◌ c s) zero h =
      let (same, within) = pattern-Matches (code c) (codes s) u u' in
      let found = ap (λ z. match_length pattern (code c ∷ z)) (codes-behind s t u begins) in
      let found' = ap (λ z. match_length pattern (code c ∷ z)) (codes-behind s t' u' begins') in
      rw (append.cons c s t, append.cons c s t')
        (remove_ids-step c (s <> t)
          ∙ (ap (λ o. step c o (s <> t)) found
              ∙ (step-same c (size (codes s)) (s <> t) (s <> t')
                    (λ k b. behind s k (subst (λ n. k ≤ n) (size-codes s) b)) _ within
                  ∙ (ap (λ o. step c o (s <> t')) (same ∙ sym found')
                      ∙ sym (remove_ids-step c (s <> t'))))))

-- So many characters more.
abbrev over : List ℕ → ℕ → ℕ
over [] n = n
over (c ∷ s) n = suc (over s n)

-- A match in front of a text is skipped.
remove_ids-found :
    (s : String) (n : ℕ) → match_length pattern (codes s) ≡ some n → remove_ids 0 s ≡ remove_ids n s
unfolding remove_ids codes
remove_ids-found s zero h = refl
remove_ids-found String.[] (suc n) h = refl
remove_ids-found (String.◌∷◌ c s) (suc n) h = remove_ids-step c s ∙ ap (λ o. step c o s) h

remove_ids-past : (s t : String) (k : ℕ) → remove_ids (over (codes s) k) (s <> t) ≡ remove_ids k t
unfolding remove_ids codes
remove_ids-past String.[] t k = ap (remove_ids k) (append.nil t)
remove_ids-past (String.◌∷◌ c s) t k = rw (append.cons c s t) (remove_ids-past s t k)

both_true : (a b : Bool) → (a && b) ≡ true → (a ≡ true) × (b ≡ true)
both_true a b h = ground arith

=ℕ_refl : (n : ℕ) → (n =ℕ n) ≡ true
=ℕ_refl n = (=ℕ_iff n n).1 refl

id_length-all_id :
    (i r : List ℕ)
    → all_id i ≡ true
    → ends_id r ≡ true
    → id_length (i ++ r) ≡ over i (tail_length r)
unfolding id_length tail_length
id_length-all_id [] [] h e = refl
id_length-all_id [] (c ∷ r) h e = rw (ends c e) refl
  where
    ends : (c : ℕ) → not (is_id_char c) ≡ true → is_id_char c ≡ false
    ends c e = ground arith
id_length-all_id (c ∷ i) r h e =
    let (hit, later) = both_true (is_id_char c) (all_id i) h in
    rw hit (ap suc (id_length-all_id i r later e))

match_length-pattern :
    (p s : List ℕ) (n : ℕ) → some_id_length s ≡ some n → match_length p (p ++ s) ≡ some (over p n)
unfolding match_length
match_length-pattern [] s n h = h
match_length-pattern (c ∷ p) s n h =
    rw (=ℕ_refl c) (ap (Option.map suc) (match_length-pattern p s n h))

some_id_length-identifier :
    (c : ℕ) (i r : List ℕ)
    → all_id (c ∷ i) ≡ true
    → ends_id r ≡ true
    → some_id_length ((c ∷ i) ++ r) ≡ some (over (c ∷ i) (tail_length r))
unfolding some_id_length
some_id_length-identifier c i r h e =
    let (hit, later) = both_true (is_id_char c) (all_id i) h in
    rw hit (ap (λ n. some (suc n)) (id_length-all_id i r later e))

not_empty : false ≡ true → ⊥
not_empty h = ground arith

identified :
    (i r : List ℕ)
    → is_identifier i ≡ true
    → ends_id r ≡ true
    → some_id_length (i ++ r) ≡ some (over i (tail_length r))
identified [] r h e = absurd (not_empty h)
identified (c ∷ i) r h e = some_id_length-identifier c i r h e

-- A request id in front of a text is removed, with what follows it.
remove_ids-identifier :
    (id rest : String)
    → is_identifier (codes id) ≡ true
    → ends_id (codes rest) ≡ true
    → remove_ids 0 ("RequestID: " <> (id <> rest)) ≡ remove_ids (tail_length (codes rest)) rest
remove_ids-identifier id rest h e =
    let found = identified (codes id) (codes rest) h e in
    let reading = codes-<> "RequestID: " (id <> rest) ∙ ap (λ z. pattern ++ z) (codes-<> id rest) in
    remove_ids-found _ _ (
      ap (match_length pattern) reading
      ∙ match_length-pattern pattern (codes id ++ codes rest) _ found)
    ∙ (remove_ids-past "RequestID: " (id <> rest) _ ∙ remove_ids-past id rest _)

-- Two texts that differ in a request id alone, behind "RequestID: ", are normalized to the same text,
-- whatever stands before and after it.
pub normalize_error_message_forgets_id :
    (before id id' rest : String)
    → is_identifier (codes id) ≡ true
    → is_identifier (codes id') ≡ true
    → ends_id (codes rest) ≡ true
    → normalize_error_message (before <> ("RequestID: " <> (id <> rest)))
      ≡ normalize_error_message (before <> ("RequestID: " <> (id' <> rest)))
unfolding normalize_error_message codes
normalize_error_message_forgets_id before id id' rest h h' e = ap trim_right (
    behind ("RequestID: " <> (id <> rest)) ("RequestID: " <> (id' <> rest)) _ _
      (codes-<> "RequestID: " (id <> rest)) (codes-<> "RequestID: " (id' <> rest))
      (remove_ids-identifier id rest h e ∙ sym (remove_ids-identifier id' rest h' e)) before 0
      (omega arith))
