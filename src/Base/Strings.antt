-- ===== src/Base/Strings.antt =====
-- The functions of packages strings and path/filepath that the code calls, on Unix.
use Prim.Native.Nat.{ℕ, suc, ◌-◌}
use mathlib.Core.Path.{◌≡◌, refl}
use mathlib.Core.Logic.{◌≢◌}
use mathlib.Core.Bool.{Bool, true, false, not, ◌&&◌, ◌||◌}
use mathlib.Core.List.{List, [], ◌∷◌, ◌++◌, reverse, reverse-append}
use mathlib.Core.Option
use mathlib.Core.Option.{Option, none, some}
use native.Mathlib.Omega.{arith}
use wrap.Base.Tests.{◌==◌, ltb, if◌then◌else◌}
use wrap.Base.Text.{Bytes, equal}
use wrap.Base.Lists.{length-append, take-append, length, take, is_empty, All}

unfoldable pub has_prefix : Bytes → Bytes → Bool
has_prefix _ [] = true
has_prefix [] (p ∷ ps) = false
has_prefix (c ∷ cs) (p ∷ ps) = c == p && has_prefix cs ps

unfoldable pub has_suffix : Bytes → Bytes → Bool
unfolding has_prefix
has_suffix s suffix = has_prefix (reverse s) (reverse suffix)

unfoldable pub trim_suffix : Bytes → Bytes → Bytes
unfolding has_suffix
trim_suffix s suffix = if has_suffix s suffix then take (length s - length suffix) s else s

-- strings.IndexByte and strings.LastIndexByte; `none` is -1.
unfoldable pub index_byte : ℕ → Bytes → Option ℕ
index_byte b [] = none
index_byte b (c ∷ cs) =
    let rest = Option.map suc (index_byte b cs) in if c == b then some 0 else rest

or_here : Bool → Option ℕ → Option ℕ
or_here here (some i) = some (suc i)
or_here true none = some 0
or_here false none = none

unfoldable pub last_index_byte : ℕ → Bytes → Option ℕ
unfolding or_here
last_index_byte b [] = none
last_index_byte b (c ∷ cs) = or_here (c == b) (last_index_byte b cs)

-- `a < b` of two strings.
unfoldable pub string_less : Bytes → Bytes → Bool
string_less [] [] = false
string_less [] (y ∷ ys) = true
string_less (x ∷ xs) [] = false
string_less (x ∷ xs) (y ∷ ys) = ltb x y || x == y && string_less xs ys

abbrev pub is_abs : Bytes → Bool
is_abs [] = false
is_abs (c ∷ cs) = c == b'/'

-- The elements between slashes; `current` is the one being read, backwards.
split_path : Bytes → Bytes → List Bytes
split_path current [] = reverse current ∷ []
split_path current (c ∷ cs) =
    let ended = reverse current ∷ split_path [] cs in
    let longer = split_path (c ∷ current) cs in if c == b'/' then ended else longer

-- One element more on the elements kept so far, which stand last first.
push_element : Bool → List Bytes → Bytes → List Bytes
push_element rooted kept element =
    if is_empty element || equal element (b'.' ∷ [])
    then kept
    else if not (equal element (b'.' ∷ b'.' ∷ []))
    then element ∷ kept
    else elim kept [
      | [] ↦ if rooted then [] else element ∷ []
      | top ∷ below ↦ if equal top (b'.' ∷ b'.' ∷ []) then element ∷ top ∷ below else below
    ]

push_all : Bool → List Bytes → List Bytes → List Bytes
push_all rooted kept [] = kept
push_all rooted kept (e ∷ es) = push_all rooted (push_element rooted kept e) es

join_path : List Bytes → Bytes
join_path [] = []
join_path (e ∷ []) = e
join_path (e ∷ f ∷ es) = e ++ (b'/' ∷ join_path (f ∷ es))

or_dot : Bytes → Bytes
or_dot [] = b'.' ∷ []
or_dot (c ∷ cs) = c ∷ cs

-- filepath.Clean
unfoldable pub clean : Bytes → Bytes
unfolding split_path push_element push_all join_path or_dot equal
clean path =
    let kept = join_path (reverse (push_all (is_abs path) [] (split_path [] path))) in
    if is_abs path then b'/' ∷ kept else or_dot kept

strip_slashes : Bytes → Bytes
strip_slashes [] = []
strip_slashes (c ∷ cs) = let rest = strip_slashes cs in if c == b'/' then rest else c ∷ cs

or_slash : Bytes → Bytes
or_slash [] = b'/' ∷ []
or_slash (c ∷ cs) = c ∷ cs

up_to_slash : Bytes → Bytes
up_to_slash [] = []
up_to_slash (c ∷ cs) = let rest = up_to_slash cs in if c == b'/' then [] else c ∷ rest

-- filepath.Base: the last element, trailing slashes removed.
unfoldable pub path_base : Bytes → Bytes
unfolding strip_slashes or_slash up_to_slash
path_base [] = b'.' ∷ []
path_base (c ∷ cs) = or_slash (reverse (up_to_slash (strip_slashes (reverse (c ∷ cs)))))

from_slash : Bytes → Bytes
from_slash [] = []
from_slash (c ∷ cs) = let rest = from_slash cs in if c == b'/' then c ∷ cs else rest

-- filepath.Dir: all but the last element, cleaned.
unfoldable pub path_dir : Bytes → Bytes
unfolding from_slash clean
path_dir path = clean (reverse (from_slash (reverse path)))

abbrev pub Without : ℕ → Bytes → Type 0
Without b = All (λ c. c ≢ b)

-- The first `b` of a text is where none stands before it.
pub index_byte-append :
    (b : ℕ) (xs ys : Bytes) → Without b xs → index_byte b (xs ++ (b ∷ ys)) ≡ some (length xs)
unfolding index_byte
index_byte-append b [] ys h = ground arith
index_byte-append b (x ∷ xs) ys h = ground (arith, index_byte-append b xs ys h.1)

last_index_byte-none : (b : ℕ) (ys : Bytes) → Without b ys → last_index_byte b ys ≡ none
unfolding last_index_byte
last_index_byte-none b [] h = refl
last_index_byte-none b (y ∷ ys) h = ground (arith, last_index_byte-none b ys h.1)

-- The last one is where none stands after it.
pub last_index_byte-append :
    (b : ℕ) (xs ys : Bytes) → Without b ys → last_index_byte b (xs ++ (b ∷ ys)) ≡ some (length xs)
unfolding last_index_byte
last_index_byte-append b [] ys h = ground (arith, last_index_byte-none b ys h)
last_index_byte-append b (x ∷ xs) ys h = ground (arith, last_index_byte-append b xs ys h)

-- A cleaned absolute path is absolute.
pub is_abs-clean : (path : Bytes) → is_abs path ≡ true → is_abs (clean path) ≡ true
unfolding clean
is_abs-clean path h = rw h

pub has_prefix-append : (p s : Bytes) → has_prefix (p ++ s) p ≡ true
unfolding has_prefix
has_prefix-append [] [] = refl
has_prefix-append [] (c ∷ s) = refl
has_prefix-append (c ∷ p) s = ground (arith, has_prefix-append p s)

pub has_suffix-append : (s suffix : Bytes) → has_suffix (s ++ suffix) suffix ≡ true
unfolding has_suffix
has_suffix-append s suffix =
    rw (reverse-append s suffix) (has_prefix-append (reverse suffix) (reverse s))

-- A suffix that was appended is what is trimmed.
pub trim_suffix-append : (s suffix : Bytes) → trim_suffix (s ++ suffix) suffix ≡ s
unfolding trim_suffix
trim_suffix-append s suffix =
    let e : length (s ++ suffix) - length suffix ≡ length s =
      omega (arith, length-append s suffix) in
    let h : has_prefix (reverse (s ++ suffix)) (reverse suffix) ≡ true =
      has_suffix-append s suffix in
    rw (h, e) (take-append s suffix)
