-- ===== src/Tmux/Quote/Words/Written.antt =====
-- tmux reads what tmuxCommand writes.
use wrap.Base.{
  ℕ, ◌≤◌, ◌≡◌, refl, sym, ap, subst, ◌∙◌, ◌⊎◌, inl, inr, Bool, true, false, ◌||◌, some, List, [],
  ◌∷◌, ◌++◌, append-nil, append_assoc, arith, ◌==◌, ==_iff, Bool-cases, any, all, All, Bytes, codes,
}
use wrap.Base.Utf8.{Decoded, rune, bad, code_point, decode_all}
use wrap.Base.Utf8.Ascii.{decode_all-All, decode_all-ascii}
use wrap.Tmux.Ids.{is_digit, is_id, is_session_id}
use wrap.Tmux.Quote.{
  bare_runes, is_bare_rune, is_bare_tmux_command_arg, replace_byte, quote_arg, tmux_command,
}
use wrap.Tmux.Quote.Words.{
  State, between, plain, quoted, closed, is_quotable, words-closed_space, is_ordinary, is_plain,
  is_literal, outside, step, add, words, words-space, words-open, words-close, words-apostrophe,
  words-quoted_byte, words-plain_byte,
}

-- No newline, no zero byte, and no byte 255.
abbrev pub IsQuotable : Bytes → Type 0
IsQuotable = All (λ c. is_quotable c ≡ true)

pub all-IsQuotable : (s : Bytes) → all is_quotable s ≡ true → IsQuotable s
unfolding all
all-IsQuotable [] h = tt
all-IsQuotable (c ∷ cs) h = (ground (arith, h), all-IsQuotable cs (ground (arith, h)))

-- What the quotes hold is read as it was.
words-quoted :
    (w s t : Bytes)
    → IsQuotable s
    → words (quoted w) (replace_byte b'\'' (codes "'\\''") s ++ (b'\'' ∷ t))
      ≡ words (closed (w ++ s)) t
unfolding replace_byte
words-quoted w [] t q = words-close w t ∙ ap (λ v. words (closed v) t) (sym (append-nil w))
words-quoted w (c ∷ cs) t q =
    let tail : Bytes = replace_byte b'\'' (codes "'\\''") cs ++ (b'\'' ∷ t) in
    elim (Bool-cases (c == b'\'')) [
      | inl h ↦ rw (h) (
          words-apostrophe w tail
          ∙ words-quoted (w ++ (b'\'' ∷ [])) cs t q.1
          ∙ ap (λ v. words (closed v) t)
              (append_assoc w (b'\'' ∷ []) cs
                ∙ ap (λ b. w ++ (b ∷ cs)) (sym ((==_iff c b'\'').0 h))))
      | inr h ↦ rw (h) (
          words-quoted_byte w tail c h q.0
          ∙ words-quoted (w ++ (c ∷ [])) cs t q.1
          ∙ ap (λ v. words (closed v) t) (append_assoc w (c ∷ []) cs))
    ]

-- So are bytes that stand for themselves.
words-plain :
    (w s t : Bytes)
    → All (λ c. is_plain c ≡ true) s
    → words (plain w) (s ++ t) ≡ words (plain (w ++ s)) t
words-plain w [] t h = ap (λ v. words (plain v) t) (sym (append-nil w))
words-plain w (c ∷ cs) t h =
    words-plain_byte w (cs ++ t) c h.0
    ∙ words-plain (w ++ (c ∷ [])) cs t h.1
    ∙ ap (λ v. words (plain v) t) (append_assoc w (c ∷ []) cs)

words-ordinary :
    (c : ℕ) (t : Bytes)
    → is_quotable c ≡ true
    → is_ordinary c ≡ true
    → words between (c ∷ t) ≡ words (plain (c ∷ [])) t
unfolding words step outside add is_literal any
words-ordinary c t q h = ground arith

words-dollar :
    (d : ℕ) (t : Bytes)
    → is_digit d ≡ true
    → words between (b'$' ∷ d ∷ t) ≡ words (plain (b'$' ∷ [])) (d ∷ t)
unfolding words step outside add is_literal any
words-dollar d t h = ground arith

-- The argument is read as a word, wherever a command begins with it: in quotes or not.
abbrev IsReadAs : (Bytes → State) → Bytes → Bytes → Type 0
IsReadAs behind text arg = (t : Bytes) → words between (text ++ t) ≡ words (behind arg) t

abbrev IsRead : Bytes → Bytes → Type 0
IsRead text arg = IsReadAs plain text arg ⊎ IsReadAs closed text arg

digit-plain : (c : ℕ) → is_digit c ≡ true → is_plain c ≡ true
unfolding any
digit-plain c h = ground arith

digits-plain : (s : Bytes) → all is_digit s ≡ true → All (λ c. is_plain c ≡ true) s
unfolding all
digits-plain [] h = tt
digits-plain (c ∷ cs) h = (digit-plain c (ground (arith, h)), digits-plain cs (ground (arith, h)))

session_id-IsRead : (arg : Bytes) → is_session_id arg ≡ true → IsReadAs plain arg arg
unfolding is_session_id is_id all
session_id-IsRead [] h = cc
session_id-IsRead (c ∷ []) h = cc
session_id-IsRead (c ∷ d ∷ ds) h = λ t.
    let dollar : c ≡ b'$' = ground (arith, h) in
    let digits : all is_digit (d ∷ ds) ≡ true = ground (arith, h) in
    rw (dollar) (
      words-dollar d (ds ++ t) (ground (arith, digits))
      ∙ words-plain (b'$' ∷ []) (d ∷ ds) t (digits-plain (d ∷ ds) digits))

-- A code point of a bare argument, at its front or not.
abbrev IsBare : Decoded → Type 0
IsBare d = (is_bare_rune (code_point d) || code_point d == b'~') ≡ true

abbrev IsBareByte : ℕ → Type 0
IsBareByte c = (is_ordinary c || c == b'~') ≡ true

high-IsBareByte : (c : ℕ) → 0x80 ≤ c → IsBareByte c
unfolding any
high-IsBareByte c h = ground arith

rune-IsBareByte : (c : ℕ) → IsBare (rune c 1) → IsBareByte c
unfolding any
rune-IsBareByte c h = ground arith

bad-NotBare : IsBare bad → ⊥
unfolding any
bad-NotBare h = ground arith

runes-IsBare : (later : Bool) (ds : List Decoded) → bare_runes later ds ≡ true → All IsBare ds
unfolding bare_runes
runes-IsBare later [] h = tt
runes-IsBare later (d ∷ ds) h = (ground (arith, h), runes-IsBare true ds (ground (arith, h)))

bare-IsBareByte : (arg : Bytes) → bare_runes false (decode_all arg) ≡ true → All IsBareByte arg
bare-IsBareByte arg h =
    decode_all-All IsBare IsBareByte high-IsBareByte rune-IsBareByte bad-NotBare arg
      (runes-IsBare false (decode_all arg) h)

tilde-not_bare : (cs : Bytes) → bare_runes false (decode_all (b'~' ∷ cs)) ≡ false
unfolding bare_runes any
tilde-not_bare cs = rw (decode_all-ascii b'~' cs (omega arith)) refl

bytes-plain : (s : Bytes) → IsQuotable s → All IsBareByte s → All (λ c. is_plain c ≡ true) s
bytes-plain [] q h = tt
bytes-plain (c ∷ cs) q h = (ground (arith, h.0, q.0), bytes-plain cs q.1 h.1)

first-ordinary :
    (c : ℕ) (cs : Bytes)
    → bare_runes false (decode_all (c ∷ cs)) ≡ true
    → IsBareByte c
    → is_ordinary c ≡ true
first-ordinary c cs h v = elim (Bool-cases (c == b'~')) [
  | inl e ↦
      let same : c ≡ b'~' = (==_iff c b'~').0 e in
      let bare = subst (λ b. bare_runes false (decode_all (b ∷ cs)) ≡ true) same h in
      let not_bare = tilde-not_bare cs in cc
  | inr e ↦ ground (arith, v, e)
]

bare-IsRead :
    (arg : Bytes) → IsQuotable arg → is_bare_tmux_command_arg arg ≡ true → IsReadAs plain arg arg
unfolding is_bare_tmux_command_arg
bare-IsRead [] q h = cc
bare-IsRead (c ∷ cs) q h = λ t.
    let v = bare-IsBareByte (c ∷ cs) h in
    words-ordinary c (cs ++ t) q.0 (first-ordinary c cs h v.0)
    ∙ words-plain (c ∷ []) cs t (bytes-plain cs q.1 v.1)

apostrophes-IsRead :
    (arg : Bytes)
    → IsQuotable arg
    → IsReadAs closed ((b'\'' ∷ replace_byte b'\'' (codes "'\\''") arg) ++ (b'\'' ∷ [])) arg
apostrophes-IsRead arg q = λ t.
    let body : Bytes = replace_byte b'\'' (codes "'\\''") arg in
    words-open [] ((body ++ (b'\'' ∷ [])) ++ t)
    ∙ ap (words (quoted [])) (append_assoc body (b'\'' ∷ []) t)
    ∙ words-quoted [] arg t q

quote_arg-IsRead : (arg : Bytes) → IsQuotable arg → IsRead (quote_arg arg) arg
unfolding quote_arg
quote_arg-IsRead arg q = elim (Bool-cases (is_session_id arg)) [
  | inl s ↦ rw (quote_arg, s) (inl (session_id-IsRead arg s))
  | inr s ↦ elim (Bool-cases (is_bare_tmux_command_arg arg)) [
    | inl b ↦ rw (quote_arg, s, b) (inl (bare-IsRead arg q b))
    | inr b ↦ rw (quote_arg, s, b) (inr (apostrophes-IsRead arg q))
  ]
]

quote_arg-ends : (arg : Bytes) → IsQuotable arg → words between (quote_arg arg) ≡ some (arg ∷ [])
unfolding words
quote_arg-ends arg q =
    ap (words between) (sym (append-nil (quote_arg arg)))
    ∙ elim (quote_arg-IsRead arg q) [ inl f ↦ f [] | inr f ↦ f [] ]

quote_arg-space :
    (arg t : Bytes)
    → IsQuotable arg
    → words between (quote_arg arg ++ (b' ' ∷ t)) ≡ add (some arg) (words between t)
quote_arg-space arg t q = elim (quote_arg-IsRead arg q) [
  | inl f ↦ f (b' ' ∷ t) ∙ words-space arg t
  | inr f ↦ f (b' ' ∷ t) ∙ words-closed_space arg t
]

-- tmux reads a command that tmuxCommand has written as the very arguments it was written from, if
-- they hold no newline, no zero byte and no byte 255, which UTF-8 has not.
pub words-tmux_command :
    (args : List Bytes) → All IsQuotable args → words between (tmux_command args) ≡ some args
unfolding tmux_command words add
words-tmux_command [] q = refl
words-tmux_command (arg ∷ []) q = quote_arg-ends arg q.0
words-tmux_command (arg ∷ next ∷ args) q =
    quote_arg-space arg (tmux_command (next ∷ args)) q.0
    ∙ ap (add (some arg)) (words-tmux_command (next ∷ args) q.1)
