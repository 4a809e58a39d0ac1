-- ===== src/Target/Resolve.antt =====
-- parseTMUX and parseTarget on what tmux writes.
use wrap.Base.{
  ℕ, suc, ◌+◌, ◌-◌, ◌^◌, ◌<◌, ◌≡◌, refl, sym, ap, ◌∙◌, ◌≢◌, ◌⊎◌, inl, inr, true, false, some, List,
  [], ◌∷◌, ◌++◌, append_assoc, arith, ltb, ◌==◌, length, take, drop, is_empty, length-append,
  take-append, All, Bytes, equal, equal_iff, pos, itoa, atoi, last_index_byte, is_abs, clean,
  is_abs-clean, Without, last_index_byte-append,
}
use wrap.Base.Decimal.RoundTrip.{itoa-Without, atoi-itoa}
use wrap.Target.Fields.{
  print_fields, Measurable, drop_past, parse_length_prefixed_fields-print_fields, itoa-nonempty,
}
use wrap.Target.{
  TargetError, Target, Result, ok, err, parse_tmux, parse_target, target_of_fields, is_tmux_id,
  parse_length_prefixed_fields,
}

-- TMUX as tmux sets it: the socket, the server's process and the client.
abbrev pub tmux_value : Bytes → ℕ → ℕ → Bytes
tmux_value socket pid client = socket ++ (b',' ∷ (itoa pid ++ (b',' ∷ itoa client)))

-- The cuts at the last two commas, and what each piece reads as.
parse_tmux_cuts :
    (value head socket p c : Bytes) (last previous n m : ℕ)
    → is_empty value ≡ false
    → last_index_byte b',' value ≡ some (suc last)
    → suc last ≢ length value - 1
    → take (suc last) value ≡ head
    → last_index_byte b',' head ≡ some (suc previous)
    → suc previous ≢ suc last - 1
    → take (suc previous) value ≡ socket
    → is_abs socket ≡ true
    → take (suc last - (suc previous + 1)) (drop (suc previous + 1) value) ≡ p
    → atoi p ≡ some (pos n)
    → 0 < n
    → drop (suc last + 1) value ≡ c
    → atoi c ≡ some (pos m)
    → parse_tmux value ≡ ok (clean socket)
unfolding parse_tmux
parse_tmux_cuts value head socket p c last previous n m e l1 n1 t1 l2 n2 t2 abs tp ap' pn tc ac =
    let n1' : (suc last == length value - 1) ≡ false = ground arith in
    let n2' : (suc previous == suc last - 1) ≡ false = ground arith in
    let pn' : ltb 0 n ≡ true = ground arith in
    rw (e, l1, n1', t1, l2, n2', t2, abs, tp, ap', pn', tc, ac)

parse_tmux-append :
    (socket p c : Bytes) (n m : ℕ)
    → is_abs socket ≡ true
    → 0 < length p
    → Without b',' p
    → atoi p ≡ some (pos n)
    → 0 < n
    → 0 < length c
    → Without b',' c
    → atoi c ≡ some (pos m)
    → parse_tmux (socket ++ (b',' ∷ (p ++ (b',' ∷ c)))) ≡ ok (clean socket)
parse_tmux-append [] p c n m abs p0 pw pn n0 c0 cw cm = cc
parse_tmux-append (s ∷ ss) p c n m abs p0 pw pn n0 c0 cw cm =
    let head : Bytes = (s ∷ ss) ++ (b',' ∷ p) in
    let value : Bytes = (s ∷ ss) ++ (b',' ∷ (p ++ (b',' ∷ c))) in
    let joined : head ++ (b',' ∷ c) ≡ value = append_assoc (s ∷ ss) (b',' ∷ p) (b',' ∷ c) in
    let long : length head ≡ length (s ∷ ss) + suc (length p) = length-append (s ∷ ss) (b',' ∷ p) in
    let last : ℕ = length (ss ++ (b',' ∷ p)) in
    let end : length value ≡ length head + suc (length c) =
      sym (ap length joined) ∙ length-append head (b',' ∷ c) in
    let gap : suc last - (suc (length ss) + 1) ≡ length p = omega arith in
    parse_tmux_cuts value head (s ∷ ss) p c last (length ss) n m refl
      (ap (last_index_byte b',') (sym joined) ∙ last_index_byte-append b',' head c cw) (omega arith)
      (ap (take (length head)) (sym joined) ∙ take-append head (b',' ∷ c))
      (last_index_byte-append b',' (s ∷ ss) p pw) (omega arith)
      (take-append (s ∷ ss) (b',' ∷ (p ++ (b',' ∷ c)))) abs
      (rw gap (
        ap (take (length p)) (drop_past (s ∷ ss) b',' (p ++ (b',' ∷ c)))
        ∙ take-append p (b',' ∷ c)))
      pn n0 (ap (drop (length head + 1)) (sym joined) ∙ drop_past head b',' c) cm

-- The socket path is found whatever commas it holds, and comes out cleaned.
pub parse_tmux-tmux_value :
    (socket : Bytes) (pid client : ℕ)
    → is_abs socket ≡ true
    → 0 < pid
    → pid < 2 ^ 63
    → client < 2 ^ 63
    → parse_tmux (tmux_value socket pid client) ≡ ok (clean socket)
parse_tmux-tmux_value socket pid client abs p0 p1 c1 =
    parse_tmux-append socket (itoa pid) (itoa client) pid client abs (itoa-nonempty pid)
      (itoa-Without b',' pid (inl (omega arith))) (atoi-itoa pid p1) p0 (itoa-nonempty client)
      (itoa-Without b',' client (inl (omega arith))) (atoi-itoa client c1)

-- The fields of the format that ResolveCurrent asks for.
abbrev pub target_fields : Target → List Bytes
target_fields t =
    t.session_id ∷ t.window_id ∷ t.session_name ∷ t.window_name ∷ t.directory ∷ t.generation ∷ []

-- A session and a window with their sigils, a named session and an absolute directory.
pub record Resolvable (t : Target) : Type 0 where
  pub session_is : is_tmux_id b'$' t.session_id ≡ true
  pub window_is : is_tmux_id b'@' t.window_id ≡ true
  pub named : t.session_name ≢ []
  pub absolute : is_abs t.directory ≡ true
  pub measurable : All Measurable (target_fields t)

Result-cases {ℓ} :
    {A : Type ℓ} (r : Result A) → ((a : A) × (r ≡ ok a)) ⊎ ((e : TargetError) × (r ≡ err e))
Result-cases (ok a) = inl (a, refl)
Result-cases (err e) = inr (e, refl)

equal_self : (s : Bytes) → equal s s ≡ true
equal_self s = (equal_iff s s).1 refl

fields_ok :
    (t : Target)
    → Resolvable t
    → target_of_fields t.socket_path t.generation (target_fields t)
      ≡ ok (record t { directory = clean t.directory })
unfolding target_of_fields
fields_ok t v =
    let named : is_empty t.session_name ≡ false = ground (arith, v.named) in
    rw (v.session_is, v.window_is, named, v.absolute, equal_self t.generation)

-- The target that tmux reports comes back in full, with its directory cleaned.
pub parse_target-print_fields :
    (t : Target)
    → Resolvable t
    → parse_target t.socket_path t.generation (print_fields (target_fields t))
      ≡ ok (record t { directory = clean t.directory })
unfolding parse_target
parse_target-print_fields t v =
    rw (parse_length_prefixed_fields-print_fields (target_fields t) v.measurable) (fields_ok t v)

fields_sound :
    (socket generation : Bytes) (fs : List Bytes) {t : Target}
    → target_of_fields socket generation fs ≡ ok t
    → (t.generation ≡ generation)
      × (t.socket_path ≡ socket)
      × (is_tmux_id b'$' t.session_id ≡ true)
      × (is_tmux_id b'@' t.window_id ≡ true)
      × (t.session_name ≢ [])
      × (is_abs t.directory ≡ true)
unfolding target_of_fields
fields_sound socket generation (a ∷ b ∷ c ∷ d ∷ e ∷ f ∷ []) h =
    ground (arith, equal_iff f generation, is_abs-clean e)
fields_sound socket generation _ h = cc

-- Whatever tmux prints, a target that is accepted has the server generation that was asked for, the
-- given socket, a session and a window id with their sigils, a session name and an absolute directory.
pub parse_target_sound :
    (socket generation output : Bytes) {t : Target}
    → parse_target socket generation output ≡ ok t
    → (t.generation ≡ generation)
      × (t.socket_path ≡ socket)
      × (is_tmux_id b'$' t.session_id ≡ true)
      × (is_tmux_id b'@' t.window_id ≡ true)
      × (t.session_name ≢ [])
      × (is_abs t.directory ≡ true)
unfolding parse_target
parse_target_sound socket generation output h =
    elim (Result-cases (parse_length_prefixed_fields output 6)) [
      | inl (fs, e) ↦ fields_sound socket generation fs (rw e at h)
      | inr (x, e) ↦ absurd (cc)
    ]
