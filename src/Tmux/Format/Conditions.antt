-- ===== src/Tmux/Format/Conditions.antt =====
-- What the conditions of the code say when tmux evaluates them.
use wrap.Base.{
  ℕ, suc, ◌≡◌, refl, subst, Bool, true, not, ◌&&◌, ◌||◌, [], ◌∷◌, arith, leb, ◌==◌, all, All, Bytes,
  codes, equal, Without,
}
use wrap.Tmux.Format.{
  equals, both, name_condition, option_condition, kind_condition, unmarked_condition,
  window_condition, server_generation_option, session_kind_option, entry_name_option,
  entry_path_option,
}
use wrap.Tmux.Format.Reading.{
  is_stop, escaped, escape-byte, Evaluates, equals-Evaluates, both-Evaluates,
}
use wrap.Tmux.Ids.{is_digit, is_generation, is_window_id, is_id}
use wrap.Tmux.Quote.{escape_format_literal, replace_byte}

-- A byte with no meaning in a format.
abbrev pub is_unescaped : ℕ → Bool
is_unescaped c = not (c == b'#') && not (is_stop c)

-- A text of such bytes is written as it is.
pub escape-All : (v : Bytes) → All (λ c. is_unescaped c ≡ true) v → escape_format_literal v ≡ v
unfolding escaped
escape-All [] h = unfold escape_format_literal replace_byte in refl
escape-All (c ∷ cs) h = rw (escape-byte c cs, escape-All cs h.1) (ground (arith, h.0))

all-unescaped :
    (p : ℕ → Bool)
    → ((c : ℕ) → p c ≡ true → is_unescaped c ≡ true)
    → (v : Bytes) → all p v ≡ true
    → All (λ c. is_unescaped c ≡ true) v
unfolding all
all-unescaped p f [] h = tt
all-unescaped p f (c ∷ cs) h = (f c (ground (arith, h)), all-unescaped p f cs (ground (arith, h)))

escape-generation : (g : Bytes) → is_generation g ≡ true → escape_format_literal g ≡ g
unfolding is_generation
escape-generation g h = escape-All g (
    all-unescaped (λ c. is_digit c || leb b'a' c && leb c b'f') (λ c k. ground (arith, k)) g
      (ground (arith, h)))

pub escape-window : (w : Bytes) → is_window_id w ≡ true → escape_format_literal w ≡ w
unfolding is_window_id is_id all
escape-window [] h = cc
escape-window (c ∷ []) h = cc
escape-window (c ∷ d ∷ ds) h = escape-All (c ∷ d ∷ ds) (
  ground (arith, h),
  all-unescaped is_digit (λ b k. ground (arith, k)) (d ∷ ds) (ground (arith, h)),
)

escape-empty : escape_format_literal [] ≡ []
unfolding escape_format_literal replace_byte
escape-empty = refl

abbrev pub no_brace : Bytes → Bool
no_brace [] = true
no_brace (c ∷ cs) = not (c == b'}') && no_brace cs

pub Without-brace : (v : Bytes) → no_brace v ≡ true → Without b'}' v
Without-brace [] h = tt
Without-brace (c ∷ cs) h = (λ e. ground (arith, h, e), Without-brace cs (ground (arith, h)))

module _ (value_of : Bytes → Bytes) where
  -- A comparison with a literal that needs no escape.
  pub plain-Evaluates :
      (variable literal : Bytes)
      → Without b'}' variable
      → escape_format_literal literal ≡ literal
      → Evaluates value_of 1 (equals variable literal) (equal (value_of variable) literal)
  plain-Evaluates variable literal w e =
      subst (λ v. Evaluates value_of 1 (equals variable v) (equal (value_of variable) literal)) e
        (equals-Evaluates value_of variable literal w)

  pub generation-Evaluates :
      (g : Bytes)
      → is_generation g ≡ true
      → Evaluates value_of 1
          (equals server_generation_option g)
          (equal (value_of server_generation_option) g)
  generation-Evaluates g h =
      plain-Evaluates server_generation_option g (Without-brace server_generation_option refl)
        (escape-generation g h)

  session_name-Evaluates :
      (name : Bytes)
      → Evaluates value_of 1
          (equals (codes "session_name") (escape_format_literal name))
          (equal (value_of (codes "session_name")) name)
  session_name-Evaluates name =
      equals-Evaluates value_of (codes "session_name") name
        (Without-brace (codes "session_name") refl)

  pub name_condition-Evaluates :
      (g name : Bytes)
      → is_generation g ≡ true
      → Evaluates value_of 2 (name_condition g name) (
          equal (value_of server_generation_option) g
          && equal (value_of (codes "session_name")) name)
  unfolding name_condition
  name_condition-Evaluates g name h =
      both-Evaluates value_of 1 (equals server_generation_option g)
        (equals (codes "session_name") (escape_format_literal name)) _ _ (generation-Evaluates g h)
        (session_name-Evaluates name)

  -- A third condition behind the generation and the name.
  third-Evaluates :
      (n : ℕ) (g name condition : Bytes) (b : Bool)
      → is_generation g ≡ true
      → Evaluates value_of (suc n) condition b
      → Evaluates value_of
          (suc (suc (suc n)))
          (both
            (equals server_generation_option g)
            (both (equals (codes "session_name") (escape_format_literal name)) condition))
          (equal (value_of server_generation_option) g
            && (equal (value_of (codes "session_name")) name && b))
  third-Evaluates n g name condition b h third =
      both-Evaluates value_of (suc (suc n)) _ _ _ _
        (λ depth rest l. generation-Evaluates g h depth rest (omega (arith, l)))
        (both-Evaluates value_of (suc n) _ _ _ _
          (λ depth rest l. session_name-Evaluates name depth rest (omega (arith, l))) third)

  pub option_condition-Evaluates :
      (g name option value : Bytes)
      → is_generation g ≡ true
      → Without b'}' option
      → Evaluates value_of 3 (option_condition g name option value) (
          equal (value_of server_generation_option) g
          && (equal (value_of (codes "session_name")) name && equal (value_of option) value))
  unfolding option_condition
  option_condition-Evaluates g name option value h w =
      third-Evaluates 0 g name _ _ h (equals-Evaluates value_of option value w)

  pub kind_condition-Evaluates :
      (g name kind : Bytes)
      → is_generation g ≡ true
      → escape_format_literal kind ≡ kind
      → Evaluates value_of 3 (kind_condition g name kind) (
          equal (value_of server_generation_option) g
          && (equal (value_of (codes "session_name")) name
              && equal (value_of session_kind_option) kind))
  unfolding kind_condition
  kind_condition-Evaluates g name kind h e =
      third-Evaluates 0 g name _ _ h
        (plain-Evaluates session_kind_option kind (Without-brace session_kind_option refl) e)

  pub unmarked_condition-Evaluates :
      (g name : Bytes)
      → is_generation g ≡ true
      → Evaluates value_of 5 (unmarked_condition g name) (
          equal (value_of server_generation_option) g
          && (equal (value_of (codes "session_name")) name
              && (equal (value_of session_kind_option) []
                  && (equal (value_of entry_name_option) []
                      && equal (value_of entry_path_option) []))))
  unfolding unmarked_condition
  unmarked_condition-Evaluates g name h = third-Evaluates 2 g name _ _ h (
      both-Evaluates value_of 2 (equals session_kind_option [])
        (both (equals entry_name_option []) (equals entry_path_option [])) _ _
        (λ depth rest l.
          plain-Evaluates session_kind_option [] (Without-brace session_kind_option refl)
            escape-empty depth rest (omega (arith, l)))
        (both-Evaluates value_of 1 (equals entry_name_option []) (equals entry_path_option []) _ _
          (plain-Evaluates entry_name_option [] (Without-brace entry_name_option refl) escape-empty)
          (plain-Evaluates entry_path_option [] (Without-brace entry_path_option refl)
            escape-empty)))

  pub window_condition-Evaluates :
      (g window_id : Bytes)
      → is_generation g ≡ true
      → is_window_id window_id ≡ true
      → Evaluates value_of 2 (window_condition g window_id) (
          equal (value_of server_generation_option) g
          && equal (value_of (codes "window_id")) window_id)
  unfolding window_condition
  window_condition-Evaluates g window_id h w =
      both-Evaluates value_of 1 (equals server_generation_option g)
        (equals (codes "window_id") window_id) _ _ (generation-Evaluates g h)
        (plain-Evaluates (codes "window_id") window_id (Without-brace (codes "window_id") refl)
          (escape-window window_id w))
