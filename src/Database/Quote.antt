-- ===== src/Database/Quote.antt =====
-- Quoting of names and values in SQL text: quoteIdentifier and quoteLiteral of
-- internal/database/postgres.go, quoteMySQLIdentifier and quoteMySQLLiteral of
-- internal/database/mysql.go.
pub mod RoundTrip
pub mod Word
use database_user_operator.Base.{String, ◌<>◌, replace_all}

-- A text between two copies of a quotation mark, fmt.Sprintf("'%s'", s).
enclose : String → String → String
enclose q s = q <> (s <> q)

unfoldable pub quote_identifier : String → String
unfolding enclose replace_all
quote_identifier name = enclose "\"" (replace_all name b'"' "\"\"")

unfoldable pub quote_literal : String → String
unfolding enclose replace_all
quote_literal value = let escaped = replace_all value b'\'' "''" in enclose "'" escaped

unfoldable pub quote_mysql_identifier : String → String
unfolding enclose replace_all
quote_mysql_identifier name = let escaped = replace_all name b'`' "``" in enclose "`" escaped

-- Backslashes are doubled first, then single quotes.
unfoldable pub quote_mysql_literal : String → String
unfolding enclose replace_all
quote_mysql_literal value =
    let escaped = replace_all value b'\\' "\\\\" in enclose "'" (replace_all escaped b'\'' "''")
