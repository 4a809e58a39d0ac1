-- ===== src/Tmux/Format/Reading.antt =====
-- How tmux evaluates such a condition, described apart from the code, and that it does so as the code
-- means it.
use wrap.Base.{
  ℕ, zero, suc, ◌≤◌, ◌≡◌, refl, append_assoc, Bool, true, false, ◌&&◌, ◌||◌, Option, none, some, [],
  ◌∷◌, ◌++◌, arith, ◌==◌, if◌then◌else◌, Bytes, codes, equal, Without,
}
use wrap.Tmux.Quote.{replace_byte, escape_format_literal}
use wrap.Tmux.Format.{equals, both}

infixl 5 ◌>>=◌
abbrev ◌>>=◌ : {A B : Type 0} → Option A → (A → Option B) → Option B
◌>>=◌ none next = none
◌>>=◌ (some a) next = next a

push : ℕ → Option (Bytes × Bytes) → Option (Bytes × Bytes)
push c none = none
push c (some (value, rest)) = some (c ∷ value, rest)

abbrev pub is_stop : ℕ → Bool
is_stop c = c == b',' || c == b'}'

-- A literal up to the comma or the brace that ends it; `#` takes the meaning from the byte behind it.
read_literal : Bool → Bytes → Option (Bytes × Bytes)
unfolding push
read_literal hashed [] = none
read_literal true (c ∷ cs) =
    let rest = read_literal false cs in if c == b'#' || is_stop c then push c rest else none
read_literal false (c ∷ cs) =
    let hash = read_literal true cs in
    let rest = read_literal false cs in
    if c == b'#' then hash else if is_stop c then some ([], c ∷ cs) else push c rest

-- A variable's name up to its brace, which is left out.
read_variable : Bytes → Option (Bytes × Bytes)
unfolding push
read_variable [] = none
read_variable (c ∷ cs) =
    let rest = read_variable cs in if c == b'}' then some ([], cs) else push c rest

-- What follows a text.
after : Bytes → Bytes → Option Bytes
after [] s = some s
after (c ∷ cs) [] = none
after (c ∷ cs) (d ∷ s) = let rest = after cs s in if c == d then rest else none

module _ (value_of : Bytes → Bytes) where
  -- A comparison behind its `#{==:#{`.
  compared : Bytes → Option (Bool × Bytes)
  unfolding read_variable after read_literal
  compared s = do
    (variable, s1) ← read_variable s
    s2 ← after (codes ",") s1
    (literal, s3) ← read_literal false s2
    s4 ← after (codes "}") s3
    some (equal (value_of variable) literal, s4)

  -- Whether the condition holds, and what is behind it. `depth` bounds the nesting.
  pub evaluate : ℕ → Bytes → Option (Bool × Bytes)
  unfolding compared after
  evaluate zero s = none
  evaluate (suc depth) s = elim (after (codes "#{==:#{") s) [
    | some t ↦ compared t
    | none ↦ do
      t ← after (codes "#{&&:") s
      (a, s1) ← evaluate depth t
      s2 ← after (codes ",") s1
      (b, s3) ← evaluate depth s2
      s4 ← after (codes "}") s3
      some (a && b, s4)
  ]

-- Past any number of bytes.
after-append : (p s : Bytes) → after p (p ++ s) ≡ some s
unfolding after
after-append [] s = refl
after-append (c ∷ cs) s = ground (arith, after-append cs s)

read_variable-append :
    (v rest : Bytes) → Without b'}' v → read_variable (v ++ (b'}' ∷ rest)) ≡ some (v, rest)
unfolding read_variable push
read_variable-append [] rest h = refl
read_variable-append (c ∷ cs) rest h = ground (arith, read_variable-append cs rest h.1)

-- The escape of one byte.
unfoldable pub escaped : ℕ → Bytes
escaped c = if c == b'#' then codes "##" else if is_stop c then b'#' ∷ c ∷ [] else c ∷ []

pub escape-byte :
    (c : ℕ) (cs : Bytes) → escape_format_literal (c ∷ cs) ≡ escaped c ++ escape_format_literal cs
unfolding escape_format_literal replace_byte escaped
escape-byte c cs = ground arith

-- An escaped literal is read as it was, up to the byte that ends it.
read_literal-escape :
    (v rest : Bytes) (d : ℕ)
    → is_stop d ≡ true
    → read_literal false (escape_format_literal v ++ (d ∷ rest)) ≡ some (v, d ∷ rest)
unfolding read_literal push escaped
read_literal-escape [] rest d s = unfold escape_format_literal replace_byte in ground arith
read_literal-escape (c ∷ cs) rest d s =
    rw (escape-byte c cs) (ground (arith, read_literal-escape cs rest d s))

-- In front of any text, and with depth enough, the condition is read as the truth value.
abbrev pub Evaluates : (Bytes → Bytes) → ℕ → Bytes → Bool → Type 0
Evaluates value_of nested condition b =
    (depth : ℕ) (rest : Bytes)
    → nested ≤ depth
    → evaluate value_of depth (condition ++ rest) ≡ some (b, rest)

equals_rest :
    (variable value rest : Bytes)
    → equals variable value ++ rest
      ≡ codes "#{==:#{" ++ (variable ++ (b'}' ∷ b',' ∷ (value ++ (b'}' ∷ rest))))
unfolding equals
equals_rest variable value rest = simp append_assoc

both_rest :
    (a b rest : Bytes) → both a b ++ rest ≡ codes "#{&&:" ++ (a ++ (b',' ∷ (b ++ (b'}' ∷ rest))))
unfolding both
both_rest a b rest = simp append_assoc

module _ (value_of : Bytes → Bytes) where
  compared-lem :
      (variable literal rest : Bytes)
      → Without b'}' variable
      → compared value_of
          (variable ++ (b'}' ∷ b',' ∷ (escape_format_literal literal ++ (b'}' ∷ rest))))
        ≡ some (equal (value_of variable) literal, rest)
  unfolding compared after
  compared-lem variable literal rest w =
      rw
        (
          compared,
          read_variable-append variable (b',' ∷ (escape_format_literal literal ++ (b'}' ∷ rest))) w,
          read_literal-escape literal rest b'}' refl,
        )
        refl

  -- A comparison with an escaped literal compares with the literal.
  pub equals-Evaluates :
      (variable literal : Bytes)
      → Without b'}' variable
      → Evaluates value_of 1
          (equals variable (escape_format_literal literal))
          (equal (value_of variable) literal)
  unfolding evaluate after
  equals-Evaluates variable literal w zero rest l = absurd (omega arith)
  equals-Evaluates variable literal w (suc depth) rest l =
      rw (equals_rest variable (escape_format_literal literal) rest)
        (compared-lem variable literal rest w)

  pub both-Evaluates :
      (n : ℕ) (a b : Bytes) (x y : Bool)
      → Evaluates value_of n a x
      → Evaluates value_of n b y
      → Evaluates value_of (suc n) (both a b) (x && y)
  unfolding evaluate after
  both-Evaluates n a b x y ha hb zero rest l = absurd (omega arith)
  both-Evaluates n a b x y ha hb (suc depth) rest l = rw (both_rest a b rest) (
      rw
        (
          evaluate,
          ha depth (b',' ∷ (b ++ (b'}' ∷ rest))) (omega arith),
          hb depth (b'}' ∷ rest) (omega arith),
        )
        refl)
