-- ===== src/Tmux/Listing/RoundTrip.antt =====
-- Sessions reads back what tmux lists, and the markers of an entry what was encoded.
use wrap.Base.{
  ℕ, zero, suc, ◌<◌, ◌≡◌, refl, sym, ap, ◌∙◌, inl, inr, Bool, true, false, not, ◌||◌, Option, none,
  some, List, [], ◌∷◌, map, arith, ltb, Bool-cases, is_empty, All, Bytes, codes, equal, equal_iff,
  Without, split, join, split-join, join-Without, Without-append, itoa,
}
use wrap.Base.Base64.{Base64}
use wrap.Base.Decimal.RoundTrip.{atoi-itoa, itoa_injective, itoa-Without, itoa-zero}
use wrap.Base.Result.{ok}
use wrap.Tmux.Listing.{
  entry_name_prefix, encode_entry_name, decode_entry_name, encode_entry_path, is_valid_text,
  marker_name, creation_time, field_at, session_of, parse_lines, parse_sessions,
}
use wrap.Tmux.Listing.Printed.{
  IsBase64, Listed, is_url_safe, flag, mark_of, or_none, listed_fields, print_sessions, info_of,
  IsEntryName, IsListed,
}

-- An entry's name is decoded as it was encoded.
pub decode_entry_name-encode_entry_name :
    (base64 : Base64) (name : Bytes)
    → IsBase64 base64
    → is_empty name ≡ false
    → is_valid_text name ≡ true
    → decode_entry_name base64 (encode_entry_name base64 name) ≡ ok name
unfolding decode_entry_name encode_entry_name
decode_entry_name-encode_entry_name base64 name law e v = rw (law.decode-encode name, e, v) refl

equal-itoa_zero : (n : ℕ) → not (equal (itoa n) (codes "0")) ≡ ltb 0 n
unfolding equal
equal-itoa_zero zero = rw itoa-zero refl
equal-itoa_zero (suc n) = elim (Bool-cases (equal (itoa (suc n)) (codes "0"))) [
  | inl e ↦ absurd (
      omega (
        arith,
        itoa_injective {m = suc n} {n = 0}
            ((equal_iff (itoa (suc n)) (codes "0")).0 e ∙ sym itoa-zero),
      ))
  | inr e ↦ rw e (ground arith)
]

bell-flags :
    (w r : Bool) → (not (equal (flag w) (codes "0")) || equal (mark_of r) (codes "1")) ≡ (w || r)
unfolding equal
bell-flags true true = refl
bell-flags true false = refl
bell-flags false true = refl
bell-flags false false = refl

module _ (base64 : Base64) (law : IsBase64 base64) where
  marker_name-entry :
      (e : Option Bytes)
      → IsEntryName e
      → marker_name base64 (some (or_none (encode_entry_name base64) e)) ≡ ok (or_none (λ n. n) e)
  unfolding marker_name decode_entry_name
  marker_name-entry none v = refl
  marker_name-entry (some n) v = decode_entry_name-encode_entry_name base64 n law v.0 v.1

  session_of-listed :
      (l : Listed)
      → IsListed l
      → session_of base64 (listed_fields base64 l) ≡ ok (some (info_of base64 l))
  unfolding session_of listed_fields info_of creation_time field_at
  session_of-listed l v =
      rw
        (
          atoi-itoa l.activity v.activity_fits,
          marker_name-entry l.entry v.entry_valid,
          atoi-itoa l.created v.created_fits,
          equal-itoa_zero l.clients,
          bell-flags l.window_bell l.rang,
        )
        refl

safe-Without :
    (b : ℕ) (s : Bytes) → is_url_safe b ≡ false → All (λ c. is_url_safe c ≡ true) s → Without b s
safe-Without b [] n h = tt
safe-Without b (c ∷ cs) n h = (λ e. cc (h.0, n, ap is_url_safe e), safe-Without b cs n h.1)

above-Without : (b : ℕ) (s : Bytes) → All (λ c. b < c) s → Without b s
above-Without b [] h = tt
above-Without b (c ∷ cs) h = (λ e. absurd (omega (arith, e, h.0)), above-Without b cs h.1)

flag-Without : (b : ℕ) (w : Bool) → b < b'0' → Without b (flag w)
flag-Without b true l = (λ e. absurd (omega (arith, e)), tt)
flag-Without b false l = (λ e. absurd (omega (arith, e)), tt)

mark_of-Without : (b : ℕ) (r : Bool) → b < b'0' → Without b (mark_of r)
mark_of-Without b true l = (λ e. absurd (omega (arith, e)), tt)
mark_of-Without b false l = tt

module _ (base64 : Base64) (law : IsBase64 base64) where
  entry-Without :
      (b : ℕ) (e : Option Bytes)
      → is_url_safe b ≡ false
      → b < b'.'
      → Without b (or_none (encode_entry_name base64) e)
  unfolding encode_entry_name
  entry-Without b none n l = tt
  entry-Without b (some name) n l =
      Without-append b entry_name_prefix (base64.encode name)
        (above-Without b entry_name_prefix (omega (arith, l)))
        (safe-Without b (base64.encode name) n (law.url_safe name))

  path-Without :
      (b : ℕ) (e : Option Bytes)
      → is_url_safe b ≡ false
      → Without b (or_none (encode_entry_path base64) e)
  unfolding encode_entry_path
  path-Without b none n = tt
  path-Without b (some path) n = safe-Without b (base64.encode path) n (law.url_safe path)

  -- No field holds a control character that separates.
  fields-Without :
      (b : ℕ) (l : Listed)
      → b < b'-'
      → is_url_safe b ≡ false
      → Without b l.id
      → Without b l.generation
      → Without b l.name
      → Without b l.kind
      → All (Without b) (listed_fields base64 l)
  unfolding listed_fields
  fields-Without b l low n i g m k = (
    m,
    (
      itoa-Without b l.activity (inl (omega (arith, low))),
      (
        itoa-Without b l.clients (inl (omega (arith, low))),
        (
          flag-Without b l.window_bell (omega (arith, low)),
          (
            mark_of-Without b l.rang (omega (arith, low)),
            (
              entry-Without b l.entry n (omega (arith, low)),
              (
                path-Without b l.path n,
                (i, (g, (itoa-Without b l.created (inl (omega (arith, low))), (k, tt)))),
              ),
            ),
          ),
        ),
      ),
    ),
  )

  line : Listed → Bytes
  line l = join b'\t' (listed_fields base64 l)

  split-line : (l : Listed) → IsListed l → split b'\t' (line l) ≡ listed_fields base64 l
  unfolding line listed_fields
  split-line l v = split-join b'\t' l.name _ (
      fields-Without b'\t' l (omega arith) refl v.id_clean.0 v.generation_clean.0 v.name_clean.0
        v.kind_clean.0)

  line-Without : (l : Listed) → IsListed l → Without b'\n' (line l)
  unfolding line
  line-Without l v =
      join-Without b'\t' b'\n' (λ e. absurd (omega (arith, e))) (listed_fields base64 l)
        (fields-Without b'\n' l (omega arith) refl v.id_clean.1 v.generation_clean.1 v.name_clean.1
          v.kind_clean.1)

  parse_lines-lines :
      (ls : List Listed)
      → All IsListed ls
      → parse_lines base64 (map line ls) ≡ ok (map (info_of base64) ls)
  unfolding parse_lines
  parse_lines-lines [] v = refl
  parse_lines-lines (l ∷ ls) v =
      rw (split-line l v.0, session_of-listed base64 law l v.0, parse_lines-lines ls v.1) refl

  lines-Without : (ls : List Listed) → All IsListed ls → All (Without b'\n') (map line ls)
  lines-Without [] v = tt
  lines-Without (l ∷ ls) v = (line-Without l v.0, lines-Without ls v.1)

  -- Sessions reads from the lines that tmux prints for its sessions just these sessions, in order.
  pub parse_sessions-print_sessions :
      (ls : List Listed)
      → All IsListed ls
      → parse_sessions base64 (print_sessions base64 ls) ≡ ok (map (info_of base64) ls)
  unfolding parse_sessions print_sessions line
  parse_sessions-print_sessions [] v = unfold parse_lines session_of join split in refl
  parse_sessions-print_sessions (l ∷ ls) v =
      rw (split-join b'\n' (line l) (map line ls) (lines-Without (l ∷ ls) v))
        (parse_lines-lines (l ∷ ls) v)
