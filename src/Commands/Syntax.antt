-- ===== src/Commands/Syntax.antt =====
-- src/Commands/CommandSyntax.cpp: splitting a chat line into arguments.
use voltmod.Strings.Markup.{quote_console_arg}
use voltmod.Strings.Markup.{quote_body}
use mathlib.Core.List.{append_assoc, append-nil}
use voltmod.Common.{
  ℕ, ◌≡◌, refl, sym, inl, inr, Bool, true, false, not, ◌&&◌, ◌||◌, Option, none, some, List, [],
  ◌∷◌, ◌++◌, arith, ltb, ◌==◌, if◌then◌else◌, ==_iff, Bool-cases, length, drop, All, contains,
  Bytes, bytes, starts_with,
}

-- The variables of the loop of `Tokenize`.
pub record Scan : Type 0 where
  pub tokens : List Bytes
  pub current : Bytes
  pub quoted : Bool
  pub started : Bool

abbrev is_empty : Bytes → Bool
is_empty [] = true
is_empty (c ∷ cs) = false

-- `text[i] == '\\' && i + 1 < text.size() && text[i + 1] == '"'`.
abbrev escapes : ℕ → Bytes → Bool
escapes c rest = (c == 92) && starts_with (b'"' ∷ []) rest

-- A token ends: it counts if anything was read of it, a pair of quotes included.
pub flush : Scan → List Bytes
flush s = if s.started || not (is_empty s.current) then s.tokens ++ s.current ∷ [] else s.tokens

-- One round of the loop at the byte `c`, with the text behind it.
pub read : Scan → ℕ → Bytes → Scan
unfolding flush
read s c rest =
    if escapes c rest
    then record s { current = s.current ++ b'"' ∷ []; started = true }
    else if c == b'"'
    then record s { quoted = not s.quoted; started = true }
    else if (c == 32) && not s.quoted
    then record s { tokens = flush s; current = []; started = false }
    else record s { current = s.current ++ c ∷ [] }

-- The loop; the flag says that the round before took this byte too (`++i`).
pub scan : Scan → Bool → Bytes → Scan
unfolding read
scan s skip [] = s
scan s skip (c ∷ rest) = scan (if skip then s else read s c rest) (not skip && escapes c rest) rest

abbrev pub begin : Scan
begin = record { tokens = []; current = []; quoted = false; started = false }

pub tokenize : Bytes → List Bytes
unfolding scan flush
tokenize text = flush (scan begin false text)

abbrev pub chat_prefix : Bytes
chat_prefix = bytes "!"

-- `StripPrefix`: `none` unless something stands behind the prefix.
unfoldable pub strip_prefix : Bytes → Option Bytes
strip_prefix message =
    if ltb (length chat_prefix) (length message) && starts_with chat_prefix message
    then some (drop (length chat_prefix) message)
    else none

-- Inside the quotes of an argument.
abbrev in_quotes : List Bytes → Bytes → Scan
in_quotes tokens current = record {
  tokens = tokens;
  current = current;
  quoted = true;
  started = true;
}

-- Behind them.
abbrev behind_quotes : List Bytes → Bytes → Scan
behind_quotes tokens current = record {
  tokens = tokens;
  current = current;
  quoted = false;
  started = true;
}

scan_escaped :
    (ts : List Bytes) (cur text : Bytes)
    → scan (in_quotes ts cur) false (92 ∷ b'"' ∷ text)
      ≡ scan (in_quotes ts (cur ++ b'"' ∷ [])) false text
unfolding scan
scan_escaped ts cur text = refl

scan_plain :
    (ts : List Bytes) (cur : Bytes) (c : ℕ) (text : Bytes)
    → (c == b'"') ≡ false
    → (c == 92) ≡ false
    → scan (in_quotes ts cur) false (c ∷ text) ≡ scan (in_quotes ts (cur ++ c ∷ [])) false text
unfolding scan
scan_plain ts cur c text q b = ground arith

-- The body of a quoted argument and its closing quote are read as the argument's own bytes.
scan-quote_body :
    (ts : List Bytes) (cur value rest : Bytes)
    → contains value 92 ≡ false
    → scan (in_quotes ts cur) false (quote_body value ++ b'"' ∷ rest)
      ≡ scan (behind_quotes ts (cur ++ value)) false rest
unfolding scan quote_body
scan-quote_body ts cur [] rest h = rw (append-nil cur)
scan-quote_body ts cur (c ∷ value) rest h = elim (Bool-cases (c == b'"')) [
  | inl e ↦
      rw
        (
          (==_iff c b'"').0 e,
          scan_escaped ts cur (quote_body value ++ b'"' ∷ rest),
          ← append_assoc cur (b'"' ∷ []) value,
        )
        (scan-quote_body ts (cur ++ b'"' ∷ []) value rest (ground arith))
  | inr e ↦
      let other : (c == 92) ≡ false = ground arith in
      rw
        (
          e,
          other,
          scan_plain ts cur c (quote_body value ++ b'"' ∷ rest) e other,
          ← append_assoc cur (c ∷ []) value,
        )
        (scan-quote_body ts (cur ++ c ∷ []) value rest (ground arith))
]

abbrev fresh : List Bytes → Scan
fresh tokens = record { tokens = tokens; current = []; quoted = false; started = false }

-- A line of quoted arguments with a space between each two.
abbrev pub quoted_line : List Bytes → Bytes
quoted_line [] = []
quoted_line (v ∷ []) = quote_console_arg v
quoted_line (v ∷ w ∷ vs) = quote_console_arg v ++ 32 ∷ quoted_line (w ∷ vs)

-- No argument holds a backslash.
abbrev pub NoBackslash : List Bytes → Type 0
NoBackslash = All (λ v. contains v 92 ≡ false)

scan-quote_console_arg :
    (ts : List Bytes) (v rest : Bytes)
    → contains v 92 ≡ false
    → scan (fresh ts) false (quote_console_arg v ++ rest) ≡ scan (behind_quotes ts v) false rest
unfolding scan quote_console_arg
scan-quote_console_arg ts v rest h =
    rw (append_assoc (quote_body v) (b'"' ∷ []) rest) (scan-quote_body ts [] v rest h)

scan-quoted_line :
    (ts vs : List Bytes)
    → NoBackslash vs
    → flush (scan (fresh ts) false (quoted_line vs)) ≡ ts ++ vs
unfolding scan flush
scan-quoted_line ts [] h = sym (append-nil ts)
scan-quoted_line ts (v ∷ []) h =
    rw (← append-nil (quote_console_arg v), scan-quote_console_arg ts v [] h.0)
scan-quoted_line ts (v ∷ w ∷ vs) h =
    rw
      (
        scan-quote_console_arg ts v (32 ∷ quoted_line (w ∷ vs)) h.0,
        ← append_assoc ts (v ∷ []) (w ∷ vs),
      )
      (scan-quoted_line (ts ++ v ∷ []) (w ∷ vs) h.1)

-- Arguments without a backslash, quoted and put on a line with a space between each two, are the tokens
-- of that line, whatever spaces and quotes they hold.
pub tokenize-quoted_line : (vs : List Bytes) → NoBackslash vs → tokenize (quoted_line vs) ≡ vs
unfolding tokenize
tokenize-quoted_line vs h = scan-quoted_line [] vs h
