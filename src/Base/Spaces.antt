-- ===== src/Base/Spaces.antt =====
-- The functions of package strings that look at white space, or cut a text at a byte.
pub mod Joined
use wrap.Base.Lists.{is_empty, take, drop}
use wrap.Base.Strings.{has_prefix}
use wrap.Base.Tests.{◌==◌, if◌then◌else◌}
use wrap.Base.Text.{Bytes}
use wrap.Base.Utf8.{Decoded, bad, rune, decode_all, code_point, is_space}
use mathlib.Core.Bool.{Bool, true, false, ◌||◌}
use mathlib.Core.List.{List, [], ◌∷◌, ◌++◌, reverse}
use Prim.Native.Nat.{ℕ}

abbrev size_of : Decoded → ℕ
size_of bad = 1
size_of (rune _ size) = size

-- A text as the encodings of its runes, each with whether it is white space.
pieces : List Decoded → Bytes → List (Bytes × Bool)
pieces [] s = []
pieces (d ∷ ds) s = (take (size_of d) s, is_space (code_point d)) ∷ pieces ds (drop (size_of d) s)

drop_spaces : List (Bytes × Bool) → List (Bytes × Bool)
drop_spaces [] = []
drop_spaces ((p, space) ∷ ps) = let rest = drop_spaces ps in if space then rest else (p, space) ∷ ps

join_pieces : List (Bytes × Bool) → Bytes
join_pieces [] = []
join_pieces ((p, _) ∷ ps) = p ++ join_pieces ps

-- strings.TrimSpace
unfoldable pub trim_space : Bytes → Bytes
unfolding pieces drop_spaces join_pieces decode_all is_space
trim_space s = join_pieces (reverse (drop_spaces (reverse (drop_spaces (pieces (decode_all s) s)))))

-- The word being read in front of the words behind it.
flush : Bytes → List Bytes → List Bytes
flush word words = if is_empty word then words else word ∷ words

gather : Bytes → List (Bytes × Bool) → List Bytes
unfolding flush
gather word [] = flush word []
gather word ((p, true) ∷ ps) = flush word (gather [] ps)
gather word ((p, false) ∷ ps) = gather (word ++ p) ps

-- strings.Fields
unfoldable pub fields : Bytes → List Bytes
unfolding pieces gather decode_all is_space
fields s = gather [] (pieces (decode_all s) s)

split_from : ℕ → Bytes → Bytes → List Bytes
split_from b part [] = reverse part ∷ []
split_from b part (c ∷ cs) =
    let ended = reverse part ∷ split_from b [] cs in
    let longer = split_from b (c ∷ part) cs in if c == b then ended else longer

-- strings.Split at one byte: one part more than there are separators.
unfoldable pub split : ℕ → Bytes → List Bytes
unfolding split_from
split b s = split_from b [] s

-- strings.Contains
unfoldable pub contains : Bytes → Bytes → Bool
unfolding has_prefix
contains [] part = is_empty part
contains (c ∷ cs) part = has_prefix (c ∷ cs) part || contains cs part
