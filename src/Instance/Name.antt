-- ===== src/Instance/Name.antt =====
-- internal/instance/name.go: which names are allowed, and the name chosen for a new worker.
-- The table of unicode.IsPrint is a parameter.
use wrap.Base.{
  ℕ, zero, suc, ◌+◌, Bool, false, not, ◌||◌, Option, none, some, List, [], ◌∷◌, ◌++◌, reverse, ltb,
  ◌==◌, if◌then◌else◌, length, is_empty, any, all, Bytes, codes, equal, itoa, clean, path_base,
}
use wrap.Base.Utf8.{Decoded, decode_all, code_point, is_well_formed, encode_all, is_space}
use wrap.Target.{Target}

pub data NameError : Type 0 where
  outer_whitespace invalid_utf8 too_long unsafe_character reserved in_use : NameError

-- Whether the first or the last code point is white space, so that strings.TrimSpace would cut.
starts_with_space : List Decoded → Bool
starts_with_space [] = false
starts_with_space (d ∷ ds) = is_space (code_point d)

pub has_outer_space : List Decoded → Bool
unfolding starts_with_space
has_outer_space ds = starts_with_space ds || starts_with_space (reverse ds)

trim_left : List ℕ → List ℕ
trim_left [] = []
trim_left (r ∷ rs) = let rest = trim_left rs in if is_space r then rest else r ∷ rs

-- strings.TrimSpace on the code points written.
trim_space : List ℕ → List ℕ
trim_space rs = reverse (trim_left (reverse (trim_left rs)))

or_wrap : List ℕ → Bytes
or_wrap [] = codes "wrap"
or_wrap (r ∷ rs) = encode_all (r ∷ rs)

name_source : Target → Bytes
name_source t =
    let value = path_base (clean t.directory) in
    if equal value (codes ".") || equal value (codes "/") || is_empty value
    then t.window_name
    else value

-- `used`: the reserved name and the names of the records.
pub used_names : List Bytes → List Bytes
used_names names = codes "all" ∷ names

-- The loop over suffixes from `suffix` on; the fuel is one more than the names in use.
first_free : ℕ → Bytes → ℕ → List Bytes → Option Bytes
first_free zero base suffix used = none
first_free (suc fuel) base suffix used =
    let candidate = base ++ (b'-' ∷ itoa suffix) in
    let rest = first_free fuel base (suffix + 1) used in
    if any (equal candidate) used then rest else some candidate

pub data Choice : Type 0 where
  chosen : Bytes → Choice
  refused : NameError → Choice
  -- The loop ran out of fuel.
  exhausted : Choice

of_option : Option Bytes → Choice
of_option none = exhausted
of_option (some name) = chosen name

check_requested : Bytes → List Bytes → Option NameError → Choice
check_requested requested used (some e) = refused e
check_requested requested used none =
    if equal requested (codes "all")
    then refused reserved
    else if any (equal requested) used
    then refused in_use
    else chosen requested

choose_free : Bytes → List Bytes → Choice
unfolding first_free of_option
choose_free base used =
    if not (any (equal base) used)
    then chosen base
    else of_option (first_free (length used + 1) base 2 used)

module _ (is_print : ℕ → Bool) where
  -- `char == '/' || char == '\\' || !unicode.IsPrint(char)`
  pub is_unsafe : ℕ → Bool
  is_unsafe char = char == b'/' || char == b'\\' || not (is_print char)

  check_decoded : List Decoded → Option NameError
  unfolding is_unsafe has_outer_space any all
  check_decoded ds =
      if is_empty ds || has_outer_space ds
      then some outer_whitespace
      else if not (all is_well_formed ds)
      then some invalid_utf8
      else if ltb 64 (length ds)
      then some too_long
      else if any (λ d. is_unsafe (code_point d)) ds
      then some unsafe_character
      else none

  unfoldable pub validate_name : Bytes → Option NameError
  unfolding check_decoded
  validate_name value = check_decoded (decode_all value)

  -- The loop that writes at most 48 code points, an unsafe one as `_`.
  sanitize : ℕ → List Decoded → List ℕ
  sanitize zero ds = []
  sanitize (suc room) [] = []
  sanitize (suc room) (d ∷ ds) =
      (if is_unsafe (code_point d) then b'_' else code_point d) ∷ sanitize room ds

  pub derived_name : Target → Bytes
  unfolding sanitize trim_space or_wrap name_source
  derived_name t = or_wrap (trim_space (sanitize 48 (decode_all (name_source t))))

  -- The names are those of the records.
  pub choose_name : Bytes → Target → List Bytes → Choice
  unfolding check_requested choose_free used_names derived_name
  choose_name requested t names =
      if not (is_empty requested)
      then check_requested requested (used_names names) (validate_name requested)
      else choose_free (derived_name t) (used_names names)
