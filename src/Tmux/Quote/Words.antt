-- ===== src/Tmux/Quote/Words.antt =====
-- How tmux cuts a command into words, described apart from the code.
pub mod Written
use wrap.Base.{
  ℕ, ◌≡◌, refl, Bool, true, false, not, ◌&&◌, ◌||◌, Option, none, some, List, [], ◌∷◌, ◌++◌, arith,
  ◌==◌, if◌then◌else◌, any, Bytes, codes,
}
use wrap.Tmux.Ids.{is_digit}

-- Between words, in a word, inside single quotes, behind a quote that has closed, behind a backslash.
pub data State : Type 0 where
  between : State
  plain quoted closed escaped : Bytes → State

abbrev begins_digits : Bytes → Bool
begins_digits [] = false
begins_digits (c ∷ cs) = is_digit c

-- A byte that ends no word and begins nothing else than a word.
abbrev is_ordinary : ℕ → Bool
is_ordinary c = not (any (λ d. c == d) (codes "'\" \t\r\n\\;{}#$~%"))

-- A byte that stands for itself inside single quotes. A newline does not: tmux drops the blanks and the
-- comments behind it. A zero byte ends the text, and 255 is in no text of UTF-8.
abbrev pub is_quotable : ℕ → Bool
is_quotable c = not (c == b'\n' || c == 0 || c == 255)

abbrev is_plain : ℕ → Bool
is_plain c = is_quotable c && (is_ordinary c || c == b'~' || c == b'%')

-- A byte that a backslash makes stand for itself: no letter, no digit, which begin an escape as \n or
-- \u do, and no newline.
is_escapable : ℕ → Bool
unfolding any
is_escapable c = any (λ d. c == d) (codes "'\" ;\\{}#$~%")

-- A byte that stands for itself outside quotes. A dollar does before a digit, a tilde and a percent
-- sign do inside a word.
is_literal : Bool → ℕ → Bytes → Bool
unfolding any
is_literal inside c rest =
    is_quotable c
    && (is_ordinary c || c == b'$' && begins_digits rest || inside && (c == b'~' || c == b'%'))

-- The word that a byte is added to.
abbrev so_far : State → Bytes
so_far between = []
so_far (plain w) = w
so_far (quoted w) = w
so_far (closed w) = w
so_far (escaped w) = w

-- Behind a byte of a word; behind a quote a tilde means a home directory.
abbrev is_inside : State → Bool
is_inside (plain w) = true
is_inside _ = false

-- What one byte does outside quotes; none if it means something else than a word.
outside : State → ℕ → Bytes → Option State
unfolding is_literal
outside s c rest =
    if c == b'\''
    then some (quoted (so_far s))
    else if c == b'\\'
    then some (escaped (so_far s))
    else if is_literal (is_inside s) c rest
    then some (plain (so_far s ++ (c ∷ [])))
    else none

abbrev no_word : Option State → Option (State × Option Bytes)
no_word none = none
no_word (some s) = some (s, none)

-- The state behind one byte, and the word that it ends.
pub step : State → ℕ → Bytes → Option (State × Option Bytes)
unfolding outside is_escapable
step (quoted w) c rest =
    if c == b'\''
    then some (closed w, none)
    else if is_quotable c
    then some (quoted (w ++ (c ∷ [])), none)
    else none
step (escaped w) c rest = if is_escapable c then some (plain (w ++ (c ∷ [])), none) else none
step between c rest = if c == b' ' then some (between, none) else no_word (outside between c rest)
step (plain w) c rest =
    if c == b' ' then some (between, some w) else no_word (outside (plain w) c rest)
step (closed w) c rest =
    if c == b' ' then some (between, some w) else no_word (outside (closed w) c rest)

add : Option Bytes → Option (List Bytes) → Option (List Bytes)
add none words = words
add (some w) none = none
add (some w) (some ws) = some (w ∷ ws)

-- The words of a command; none if it is more than words, or a quote is left open.
unfoldable pub words : State → Bytes → Option (List Bytes)
unfolding step add
words between [] = some []
words (plain w) [] = some (w ∷ [])
words (closed w) [] = some (w ∷ [])
words (quoted w) [] = none
words (escaped w) [] = none
words s (c ∷ cs) = elim (step s c cs) [ none ↦ none | some (t, word) ↦ add word (words t cs) ]

module _ (w t : Bytes) where
  words-space : words (plain w) (b' ' ∷ t) ≡ add (some w) (words between t)
  unfolding words step
  words-space = refl

  words-closed_space : words (closed w) (b' ' ∷ t) ≡ add (some w) (words between t)
  unfolding words step
  words-closed_space = refl

  words-open : words between (b'\'' ∷ t) ≡ words (quoted []) t
  unfolding words step outside add
  words-open = refl

  words-close : words (quoted w) (b'\'' ∷ t) ≡ words (closed w) t
  unfolding words step add
  words-close = refl

  words-apostrophe : words (quoted w) (codes "'\\''" ++ t) ≡ words (quoted (w ++ codes "'")) t
  unfolding words step outside add is_escapable any
  words-apostrophe = refl

  words-quoted_byte :
      (c : ℕ)
      → (c == b'\'') ≡ false
      → is_quotable c ≡ true
      → words (quoted w) (c ∷ t) ≡ words (quoted (w ++ (c ∷ []))) t
  unfolding words step add
  words-quoted_byte c h q = ground (arith, h, q)

  words-plain_byte :
      (c : ℕ) → is_plain c ≡ true → words (plain w) (c ∷ t) ≡ words (plain (w ++ (c ∷ []))) t
  unfolding words step outside add is_literal any
  words-plain_byte c h = ground arith
