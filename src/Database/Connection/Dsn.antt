-- ===== src/Database/Connection/Dsn.antt =====
-- parseMySQLDSN of internal/database/mysql.go on a DSN that convertMySQLURLToDSN built.
use Prim.Native.String.append
use database_user_operator.Base.{
  ◌≡◌, ◌≢◌, refl, sym, ap, ◌∙◌, ℕ, ◌+◌, true, some, String, ◌<>◌, Char, code, index, length_text,
  drop_text, lacks, lacks-<>, take_text-<>, drop_text-<>, index-<>, append_assoc, length_text-<>,
}
use database_user_operator.Database.Connection.{
  ConnectionInfo, cut_at, cut, dsn_user, dsn_host, dsn_address, dsn_database, parse_mysql_dsn,
  mysql_dsn,
}

drop_both : (a p t : String) → drop_text (length_text a + length_text p) (a <> (p <> t)) ≡ t
drop_both a p t =
    ap (λ n. drop_text n (a <> (p <> t))) (sym (length_text-<> a p))
    ∙ ap (drop_text (length_text (a <> p))) (sym (append_assoc a p t))
    ∙ drop_text-<> (a <> p) t

-- A text is cut in two at a separator whose first character does not occur before.
cut-<> :
    (a rest t : String) (c : Char)
    → a ≢ ""
    → lacks a (code c) ≡ true
    → cut (a <> (String.◌∷◌ c rest <> t)) (String.◌∷◌ c rest) (length_text (String.◌∷◌ c rest))
      ≡ some (a, t)
unfolding cut cut_at length_text
cut-<> String.[] rest t c filled free = absurd (filled refl)
cut-<> (String.◌∷◌ d a) rest t c filled free =
    let whole = String.◌∷◌ d a in
    rw (index-<> whole c rest t free)
      (rw (take_text-<> whole (String.◌∷◌ c rest <> t), drop_both whole (String.◌∷◌ c rest) t) refl)

-- The separators that the parser looks for.
cut_colon :
    (a t : String) → a ≢ "" → lacks a b':' ≡ true → cut (a <> (":" <> t)) ":" 1 ≡ some (a, t)
unfolding length_text
cut_colon a t = cut-<> a "" t _

cut_at_sign :
    (a t : String) → a ≢ "" → lacks a b'@' ≡ true → cut (a <> ("@" <> t)) "@" 1 ≡ some (a, t)
unfolding length_text
cut_at_sign a t = cut-<> a "" t _

cut_question :
    (a t : String) → a ≢ "" → lacks a b'?' ≡ true → cut (a <> ("?" <> t)) "?" 1 ≡ some (a, t)
unfolding length_text
cut_question a t = cut-<> a "" t _

cut_bracket_slash :
    (a t : String) → a ≢ "" → lacks a b')' ≡ true → cut (a <> (")/" <> t)) ")/" 2 ≡ some (a, t)
unfolding length_text
cut_bracket_slash a t = cut-<> a "/" t _

at_tcp :
    (a t : String)
    → lacks a b'@' ≡ true
    → index (a <> ("@tcp(" <> t)) "@tcp(" ≡ some (length_text a)
at_tcp a t = index-<> a _ "tcp(" t

at_bracket :
    (a t : String) → lacks a b')' ≡ true → index (a <> (")/" <> t)) ")" ≡ some (length_text a)
at_bracket a t h =
    ap (λ x. index (a <> x) ")") (append_assoc ")" "/" t) ∙ index-<> a _ "" ("/" <> t) h

-- The parts can be told apart: those in front of a separator are not empty, and no part holds a
-- character that ends it.
pub record Plain (info : ConnectionInfo) : Type 0 where
  pub username_given : info.username ≢ ""
  pub host_given : info.host ≢ ""
  pub database_given : info.database ≢ ""
  pub username_colon : lacks info.username b':' ≡ true
  pub username_at : lacks info.username b'@' ≡ true
  pub username_bracket : lacks info.username b')' ≡ true
  pub password_at : lacks info.password b'@' ≡ true
  pub password_bracket : lacks info.password b')' ≡ true
  pub host_colon : lacks info.host b':' ≡ true
  pub host_bracket : lacks info.host b')' ≡ true
  pub port_bracket : lacks info.port b')' ≡ true
  pub database_question : lacks info.database b'?' ≡ true

cons_filled : (c : Char) (s : String) → String.◌∷◌ c s ≢ ""
cons_filled c s e = cc

filled_append : (s t : String) → s ≢ "" → (s <> t) ≢ ""
filled_append String.[] t h = absurd (h refl)
filled_append (String.◌∷◌ c s) t h = λ e. cons_filled c (s <> t) (sym (append.cons c s t) ∙ e)

module _ (info : ConnectionInfo) (p : Plain info) where
  abbrev credentials : String
  credentials = info.username <> (":" <> info.password)

  abbrev address : String
  address = info.host <> (":" <> info.port)

  abbrev tail : String
  tail = info.database <> "?parseTime=true"

  credentials-lacks :
      (n : ℕ)
      → lacks info.username n ≡ true
      → lacks ":" n ≡ true
      → lacks info.password n ≡ true
      → lacks credentials n ≡ true
  credentials-lacks n u c q = lacks-<> info.username _ n u (lacks-<> ":" info.password n c q)

  address-lacks : lacks address b')' ≡ true
  unfolding lacks
  address-lacks =
      lacks-<> info.host _ b')' p.host_bracket (lacks-<> ":" info.port b')' refl p.port_bracket)

  written :
      mysql_dsn info
      ≡ info.username
        <> (":"
            <> (info.password
                <> ("@tcp(" <> (info.host <> (":" <> (info.port <> (")/" <> tail)))))))
  unfolding mysql_dsn
  written = refl

  whole : mysql_dsn info ≡ credentials <> ("@tcp(" <> (address <> (")/" <> tail)))
  whole = written ∙ simp append_assoc

  -- The DSN, cut at its separators.
  at_sign : mysql_dsn info ≡ credentials <> ("@" <> ("tcp(" <> (address <> (")/" <> tail))))
  at_sign = whole ∙ ap (λ x. credentials <> x) (append_assoc "@" "tcp(" _)

  bracket_slash : mysql_dsn info ≡ (credentials <> ("@tcp(" <> address)) <> (")/" <> tail)
  bracket_slash = whole ∙ simp append_assoc

  user_parts : dsn_user (cut (mysql_dsn info) "@" 1) ≡ (info.username, info.password)
  unfolding dsn_user lacks
  user_parts = rw at_sign (
      rw
        (cut_at_sign credentials ("tcp(" <> (address <> (")/" <> tail)))
          (filled_append _ _ p.username_given)
          (credentials-lacks b'@' p.username_at refl p.password_at))
        (rw (dsn_user, cut_colon info.username info.password p.username_given p.username_colon)
          refl))

  address_parts :
      dsn_address (mysql_dsn info) (index (mysql_dsn info) "@tcp(") ≡ (info.host, info.port)
  unfolding dsn_address dsn_host length_text lacks
  address_parts = rw whole (
      rw
        (at_tcp credentials (address <> (")/" <> tail))
          (credentials-lacks b'@' p.username_at refl p.password_at))
        (rw
          (
            dsn_address,
            drop_both credentials "@tcp(" (address <> (")/" <> tail)),
            at_bracket address tail address-lacks,
            drop_both credentials "@tcp(" (address <> (")/" <> tail)),
            take_text-<> address (")/" <> tail),
          )
          (rw (dsn_host, cut_colon info.host info.port p.host_given p.host_colon) refl)))

  database_part : dsn_database (cut (mysql_dsn info) ")/" 2) ≡ info.database
  unfolding dsn_database lacks
  database_part = rw bracket_slash (
      rw
        (cut_bracket_slash (credentials <> ("@tcp(" <> address)) tail
          (filled_append _ _ (filled_append _ _ p.username_given))
          (lacks-<> credentials _ b')'
            (credentials-lacks b')' p.username_bracket refl p.password_bracket)
            (lacks-<> "@tcp(" address b')' refl address-lacks)))
        (rw
          (
            dsn_database,
            cut_question info.database "parseTime=true" p.database_given p.database_question,
          )
          refl))

  -- Where the user name, the host and the database are given, the user name has no colon, "@" or
  -- bracket, the password no "@" or bracket, the host no colon or bracket, the port no bracket, and
  -- the database no question mark, the DSN that is built of them is read back as these parts.
  pub parse_mysql_dsn-mysql_dsn : parse_mysql_dsn (mysql_dsn info) ≡ record info { ssl_mode = "" }
  unfolding parse_mysql_dsn
  parse_mysql_dsn-mysql_dsn = rw (user_parts, address_parts, database_part) refl
