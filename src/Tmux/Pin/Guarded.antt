-- ===== src/Tmux/Pin/Guarded.antt =====
-- A window is held only while it is the captured one.
use wrap.Base.{
  All, all, ℕ, suc, ◌≡◌, refl, subst, Bool, true, not, some, if◌then◌else◌, ◌&&◌, ◌||◌, List, [],
  ◌∷◌, append-nil, arith, inl, inr, ◌==◌, All, Bytes, codes, equal, Without,
}
use wrap.Base.Decimal.{itoa}
use wrap.Base.Decimal.RoundTrip.{itoa-Without}
use wrap.Base.Result.{ok, require, ok_through, require-ok_lem}
use wrap.Tmux.Format.{equals, both, server_generation_option}
use wrap.Tmux.Format.Reading.{evaluate, Evaluates, equals-Evaluates, both-Evaluates}
use wrap.Tmux.Format.Conditions.{
  is_unescaped, escape-All, escape-window, plain-Evaluates, generation-Evaluates, Without-brace,
}
use wrap.Tmux.Guard.{pin_mismatch, if_session, reject}
use wrap.Tmux.Guard.Honoured.{format_depth}
use wrap.Tmux.Ids.{is_session_id, is_window_id, is_generation}
use wrap.Tmux.Pin.{
  Captured, is_size_mode, is_status, check_owner, conjoin, pin_condition, pin_window_size_args,
  pin_command, no_operation,
}
use wrap.Tmux.Quote.{escape_format_literal}
use wrap.Tmux.Quote.Words.{between, words}
use wrap.Tmux.Quote.Words.Written.{IsQuotable, all-IsQuotable, words-tmux_command}
use wrap.Tmux.Server.{
  invalid_session_id, invalid_generation, invalid_window_id, bad_geometry, bad_mode, bad_status,
}

-- Whether the variables of a session show the captured window, on the server of the generation.
abbrev pub is_captured : (Bytes → Bytes) → Bytes → Captured → Bool
is_captured value_of g c =
    ((((equal (value_of server_generation_option) g
            && equal (value_of (codes "window_id")) c.window_id)
          && equal (value_of (codes "window_width")) (itoa c.columns))
        && equal (value_of (codes "window_height")) (itoa c.rows))
      && equal (value_of (codes "window-size")) c.mode)
    && equal (value_of (codes "status")) c.status

plain-number : (n : ℕ) → escape_format_literal (itoa n) ≡ itoa n
plain-number n = escape-All (itoa n) (
    unescaped (itoa n) (itoa-Without b'#' n (inl (omega arith)))
      (itoa-Without b',' n (inl (omega arith))) (itoa-Without b'}' n (inr (omega arith))))
  where
    unescaped :
        (v : Bytes)
        → Without b'#' v
        → Without b',' v
        → Without b'}' v
        → All (λ c. is_unescaped c ≡ true) v
    unescaped [] h k l = tt
    unescaped (c ∷ cs) h k l = (ground (arith, h.0, k.0, l.0), unescaped cs h.1 k.1 l.1)

mismatch-IsQuotable : All IsQuotable (codes "display-message" ∷ codes "-p" ∷ pin_mismatch ∷ [])
unfolding all
mismatch-IsQuotable = (
  all-IsQuotable (codes "display-message") refl,
  (all-IsQuotable (codes "-p") refl, (all-IsQuotable pin_mismatch refl, tt)),
)

module _ (value_of : Bytes → Bytes) where
  -- One more comparison behind a condition.
  conjoined :
      (n : ℕ) (condition variable text : Bytes) (a b : Bool)
      → Evaluates value_of (suc n) condition a
      → Evaluates value_of 1 (equals variable text) b
      → Evaluates value_of (suc (suc n)) (both condition (equals variable text)) (a && b)
  conjoined n condition variable text a b h k =
      both-Evaluates value_of (suc n) condition (equals variable text) a b h
        (λ depth rest l. k depth rest (omega (arith, l)))

  pin_condition-Evaluates :
      (g : Bytes) (c : Captured)
      → is_generation g ≡ true
      → is_window_id c.window_id ≡ true
      → Evaluates value_of 6 (pin_condition g c) (is_captured value_of g c)
  unfolding pin_condition conjoin
  pin_condition-Evaluates g c h w =
      conjoined 4 _ (codes "status") (escape_format_literal c.status) _ _
        (conjoined 3 _ (codes "window-size") (escape_format_literal c.mode) _ _
          (conjoined 2 _ (codes "window_height") (itoa c.rows) _ _
            (conjoined 1 _ (codes "window_width") (itoa c.columns) _ _
              (conjoined 0 (equals server_generation_option g) (codes "window_id") c.window_id _ _
                (generation-Evaluates value_of g h)
                (plain-Evaluates value_of (codes "window_id") c.window_id
                  (Without-brace (codes "window_id") refl) (escape-window c.window_id w)))
              (plain-Evaluates value_of (codes "window_width") (itoa c.columns)
                (Without-brace (codes "window_width") refl) (plain-number c.columns)))
            (plain-Evaluates value_of (codes "window_height") (itoa c.rows)
              (Without-brace (codes "window_height") refl) (plain-number c.rows)))
          (equals-Evaluates value_of (codes "window-size") c.mode
            (Without-brace (codes "window-size") refl)))
        (equals-Evaluates value_of (codes "status") c.status (Without-brace (codes "status") refl))

-- The arguments are an `if-shell -F -t` on the session, whose condition tmux finds true just where the
-- window is the captured one, and whose other command prints that it is not.
abbrev pub IsPinGuard : Bytes → Bytes → Captured → List Bytes → Type 0
IsPinGuard id g c args =
    (condition chosen other : Bytes) × (args
      ≡ codes "if-shell" ∷ codes "-F" ∷ codes "-t" ∷ id ∷ condition ∷ chosen ∷ other ∷ [])
    × ((value_of : Bytes → Bytes)
        → evaluate value_of format_depth condition ≡ some (is_captured value_of g c, []))
    × (words between other ≡ some (codes "display-message" ∷ codes "-p" ∷ pin_mismatch ∷ []))

module _ (id g : Bytes) (c : Captured) (inherited : Bool) (owner : Bytes) (hook_index : ℕ) where
  -- The arguments that are made for a pin guard it so.
  pub pin_window_size_args-IsPinGuard :
      (args : List Bytes)
      → pin_window_size_args id g c inherited owner hook_index ≡ ok args
      → IsPinGuard id g c args
  unfolding pin_window_size_args if_session reject
  pin_window_size_args-IsPinGuard args made =
      let (_, h1, _) = ok_through (require (is_session_id id) (invalid_session_id id)) _ made in
      let (_, h2, w) =
        ok_through (require (is_window_id c.window_id) (invalid_window_id c.window_id)) _ h1 in
      let (_, h3, g_is) = ok_through (require (is_generation g) (invalid_generation g)) _ h2 in
      let (_, h4, _) =
        ok_through (require (not (c.columns == 0 || c.rows == 0)) bad_geometry) _ h3 in
      let (_, h5, _) = ok_through (require (is_size_mode c.mode) bad_mode) _ h4 in
      let (_, h6, _) = ok_through (require (is_status c.status) (bad_status c.status)) _ h5 in
      let (_, h7, _) = ok_through (check_owner inherited owner hook_index) _ h6 in
      (
        pin_condition g c,
        (if inherited then pin_command c owner hook_index else no_operation),
        reject pin_mismatch,
        (cc h7),
        λ value_of.
            subst (λ t. evaluate value_of format_depth t ≡ some (is_captured value_of g c, []))
              (append-nil (pin_condition g c))
              (pin_condition-Evaluates value_of g c (require-ok_lem _ _ g_is) (require-ok_lem _ _ w)
                format_depth [] (omega arith)),
        words-tmux_command (codes "display-message" ∷ codes "-p" ∷ pin_mismatch ∷ [])
            mismatch-IsQuotable,
      )
