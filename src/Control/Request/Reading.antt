-- ===== src/Control/Request/Reading.antt =====
-- What readRequest accepts.
use wrap.Base.{
  ℕ, zero, suc, ◌+◌, ◌-◌, ◌≤◌, ◌≡◌, refl, ap, ◌∙◌, ◌⊎◌, true, false, none, some, List, [], ◌∷◌,
  ◌++◌, arith, ltb, length, take, length-append, Bytes, equal, index_byte, Without,
  index_byte-append,
}
use wrap.Base.Json.{Json, eof}
use wrap.Control.Request.{
  Request, read, validate_request, read_request, read_line, parse_line, decode_request,
  check_trailing, accept_request, max_request_bytes, action_status, action_rename, action_rotate,
  action_shutdown,
}

module _ {ℓ} {A : Type ℓ} where
  take_past : (xs ys : List A) (n k : ℕ) → n ≡ length xs + k → take n (xs ++ ys) ≡ xs ++ take k ys
  take_past [] ys n k e = let same : n ≡ k = omega (arith, e) in ap (λ m. take m ys) same
  take_past (x ∷ xs) ys zero k e = absurd (omega (arith, e))
  take_past (x ∷ xs) ys (suc n) k e = ap (◌∷◌ x) (take_past xs ys n k (omega (arith, e)))

-- A line within the limit is cut off behind its newline.
one_line :
    (n : ℕ) (text tail : Bytes)
    → length text + 1 ≤ n
    → Without b'\n' text
    → let limited = take n (text ++ (b'\n' ∷ tail)) in
      read_line limited (index_byte b'\n' limited) ≡ (text ++ (b'\n' ∷ []), true)
unfolding read_line
one_line n text tail l w =
    let j : ℕ = n - length text - 1 in
    rw
      (
        take_past text (b'\n' ∷ tail) n (suc j) (omega arith),
        index_byte-append b'\n' text (take j tail) w,
        take_past text (b'\n' ∷ take j tail) (length text + 1) 1 refl,
      )
      refl

pub validate_request_actions :
    (r : Request)
    → validate_request r ≡ none
    → (equal r.action action_status ≡ true)
      ⊎ (equal r.action action_rename ≡ true)
      ⊎ (equal r.action action_rotate ≡ true)
      ⊎ (equal r.action action_shutdown ≡ true)
unfolding validate_request
validate_request_actions r h = ground arith

module _ (json : Json Request) where
  pub read_request_valid :
      (input : Bytes) {r : Request} → read_request json input ≡ read r → validate_request r ≡ none
  unfolding read_request parse_line decode_request check_trailing accept_request
  read_request_valid input h = ground arith

  -- A valid request on one line of at most 64 KiB is read as it was written, whatever follows the line.
  pub read_request-line :
      (r : Request) (text rest tail : Bytes)
      → validate_request r ≡ none
      → Without b'\n' text
      → length text + 1 ≤ max_request_bytes
      → json.decode (text ++ (b'\n' ∷ [])) ≡ some (r, rest)
      → json.trailing rest ≡ eof
      → read_request json (text ++ (b'\n' ∷ tail)) ≡ read r
  unfolding read_request parse_line decode_request check_trailing accept_request read_line
  read_request-line r text rest tail v w l d e =
      let fits : ltb max_request_bytes (length (text ++ (b'\n' ∷ []))) ≡ false =
        ground (arith, length-append text (b'\n' ∷ [])) in
      ap (parse_line json) (one_line (max_request_bytes + 1) text tail (omega arith) w)
      ∙ rw (fits, d, e, v) refl
