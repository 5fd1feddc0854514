-- ===== src/Transport/Quoting.antt =====
-- What `quoteCLIValue` makes of a value, as RouterOS reads it.
use goros.Common.{Text, true, false, [], ◌∷◌, ◌++◌, ◌≡◌, refl, arith, Lacks, append_assoc}
use goros.Transport.{replace_byte, needs_quotes, quote_cli_value}
use goros.Transport.Literal.{closed, unended, read_body, read_literal}

body_back :
    (v rest : Text)
    → Lacks 92 v
    → Lacks 36 v
    → read_body false (replace_byte b'"' (92 ∷ b'"' ∷ []) v ++ (b'"' ∷ rest)) ≡ closed v rest
unfolding read_body replace_byte
body_back [] rest h d = refl
body_back (x ∷ v) rest h d = ground (arith, body_back v rest)

-- A value with a space, a tab or a quote, and without a backslash or a `$`, is rendered as a literal
-- that by the reading of `Transport.Literal` is the value, whatever follows it.
pub read_literal-quote_cli_value :
    (v rest : Text)
    → needs_quotes v ≡ true
    → Lacks 92 v
    → Lacks 36 v
    → read_literal (quote_cli_value v ++ rest) ≡ closed v rest
unfolding read_literal quote_cli_value
read_literal-quote_cli_value v rest q h d = rw q (rw append_assoc (body_back v rest h d))

body_open :
    (v : Text)
    → Lacks 92 v
    → Lacks 36 v
    → read_body false (replace_byte b'"' (92 ∷ b'"' ∷ []) (v ++ (92 ∷ [])) ++ (b'"' ∷ [])) ≡ unended
unfolding read_body replace_byte
body_open [] h d = refl
body_open (x ∷ v) h d = ground (arith, body_open v h.1 d.1)

needs_quotes-append : (v w : Text) → needs_quotes v ≡ true → needs_quotes (v ++ w) ≡ true
unfolding needs_quotes
needs_quotes-append [] w h = absurd (cc)
needs_quotes-append (x ∷ v) w h = ground (arith, needs_quotes-append v w)

-- A value with a space, a tab or a quote, without a `$`, whose only backslash is its last byte, is
-- rendered as a literal that begins and never ends: the backslash takes the closing quote.
pub quote_cli_value_open :
    (v : Text)
    → needs_quotes v ≡ true
    → Lacks 92 v
    → Lacks 36 v
    → read_literal (quote_cli_value (v ++ (92 ∷ []))) ≡ unended
unfolding read_literal quote_cli_value
quote_cli_value_open v q h d = rw (needs_quotes-append v (92 ∷ []) q) (body_open v h d)
