-- ===== src/Tmux/Quote.antt =====
-- tmuxCommand, which writes a command for tmux to parse, and escapeFormatLiteral.
pub mod Words
use wrap.Base.{
  ℕ, ◌/◌, Bool, true, false, not, ◌&&◌, ◌||◌, List, [], ◌∷◌, ◌++◌, leb, ◌==◌, if◌then◌else◌,
  is_empty, any, Bytes, codes,
}
use wrap.Base.Utf8.{Decoded, code_point, decode_all}
use wrap.Tmux.Ids.{is_session_id}

abbrev is_letter : ℕ → Bool
is_letter c = leb b'a' c && leb c b'z' || leb b'A' c && leb c b'Z' || leb b'0' c && leb c b'9'

-- `·` is U+00B7.
abbrev is_bare_rune : ℕ → Bool
is_bare_rune r = is_letter r || any (λ d. r == d) (0xb7 ∷ codes "@_-./")

-- `later` tells whether the code point is not the first.
bare_runes : Bool → List Decoded → Bool
unfolding any
bare_runes later [] = true
bare_runes later (d ∷ ds) =
    (is_bare_rune (code_point d) || code_point d == b'~' && later) && bare_runes true ds

pub is_bare_tmux_command_arg : Bytes → Bool
unfolding bare_runes
is_bare_tmux_command_arg arg = not (is_empty arg) && bare_runes false (decode_all arg)

-- strings.ReplaceAll for a text of one byte.
unfoldable pub replace_byte : ℕ → Bytes → Bytes → Bytes
replace_byte b new [] = []
replace_byte b new (c ∷ cs) = (if c == b then new else c ∷ []) ++ replace_byte b new cs

pub quote_arg : Bytes → Bytes
unfolding is_bare_tmux_command_arg replace_byte
quote_arg arg =
    if is_session_id arg || is_bare_tmux_command_arg arg
    then arg
    else (b'\'' ∷ replace_byte b'\'' (codes "'\\''") arg) ++ (b'\'' ∷ [])

unfoldable pub tmux_command : List Bytes → Bytes
unfolding quote_arg
tmux_command [] = []
tmux_command (arg ∷ []) = quote_arg arg
tmux_command (arg ∷ args) = quote_arg arg ++ (b' ' ∷ tmux_command args)

unfoldable pub escape_format_literal : Bytes → Bytes
unfolding replace_byte
escape_format_literal value =
    replace_byte b'}' (codes "#}")
      (replace_byte b',' (codes "#,") (replace_byte b'#' (codes "##") value))
