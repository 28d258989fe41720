-- ===== src/Strings/Markup.antt =====
-- `EscapeHtml` and `QuoteConsoleArg`.
use voltmod.Common.{
  ℕ, ◌≡◌, refl, sym, ◌≢◌, ◌||◌, [], ◌∷◌, ◌++◌, arith, ◌==◌, if◌then◌else◌, All, All-append, Bytes,
  bytes,
}

-- The entity of a byte, or the byte.
pub escape_char : ℕ → Bytes
escape_char c =
    if c == b'&'
    then bytes "&amp;"
    else if c == b'<'
    then bytes "&lt;"
    else if c == b'>'
    then bytes "&gt;"
    else if c == b'"'
    then bytes "&quot;"
    else if c == 39
    then bytes "&#39;"
    else c ∷ []

unfoldable pub escape_html : Bytes → Bytes
unfolding escape_char
escape_html [] = []
escape_html (c ∷ text) = escape_char c ++ escape_html text

-- A byte that cannot open or close a tag or an attribute.
abbrev pub IsInert : ℕ → Type 0
IsInert c = (c ≢ b'<') × (c ≢ b'>') × (c ≢ b'"') × (c ≢ 39)

escape_char-IsInert : (c : ℕ) → All IsInert (escape_char c)
unfolding escape_char
escape_char-IsInert c = ground arith

-- Whatever the text, its escape holds no angle bracket and no quote.
pub escape_html-IsInert : (text : Bytes) → All IsInert (escape_html text)
unfolding escape_html
escape_html-IsInert [] = tt
escape_html-IsInert (c ∷ text) =
    All-append IsInert (escape_char c) (escape_html text) (escape_char-IsInert c)
      (escape_html-IsInert text)

escape_char-split :
    (c d : ℕ) (xs ys : Bytes) → escape_char c ++ xs ≡ escape_char d ++ ys → (c ≡ d) × (xs ≡ ys)
unfolding escape_char
escape_char-split c d xs ys h = ground arith

escape_char-cons : (c : ℕ) (xs : Bytes) → escape_char c ++ xs ≢ []
unfolding escape_char
escape_char-cons c xs h = ground arith

-- Two texts with one escape are one text: nothing is lost.
pub escape_html_injective : (s t : Bytes) → escape_html s ≡ escape_html t → s ≡ t
unfolding escape_html
escape_html_injective [] [] h = refl
escape_html_injective [] (d ∷ t) h = absurd (escape_char-cons d (escape_html t) (sym h))
escape_html_injective (c ∷ s) [] h = absurd (escape_char-cons c (escape_html s) h)
escape_html_injective (c ∷ s) (d ∷ t) h =
    let p = escape_char-split c d (escape_html s) (escape_html t) h in
    let e = escape_html_injective s t p.1 in cc (p.0)

-- The loop of `QuoteConsoleArg`.
unfoldable pub quote_body : Bytes → Bytes
quote_body [] = []
quote_body (c ∷ value) =
    if (c == b'"') || (c == 92) then 92 ∷ c ∷ quote_body value else c ∷ quote_body value

unfoldable pub quote_console_arg : Bytes → Bytes
unfolding quote_body
quote_console_arg value = b'"' ∷ quote_body value ++ b'"' ∷ []
