-- ===== src/Tmux/Sessions/Exact.antt =====
-- The operations on a session of a known identity compare and act in one turn of tmux.
use wrap.Base.{
  ℕ, ◌≤◌, ◌≡◌, refl, ◌∙◌, ap, ◌⊎◌, inl, inr, Bool, true, false, not, ◌&&◌, ◌||◌, [], ◌∷◌, List,
  arith, Bool-cases, if◌then◌else◌, is_empty, Bytes, codes, equal, equal_iff, has_prefix,
  trim_space, Without, All,
}
use wrap.Base.Result.{Result, ok, err}
use wrap.Tmux.Format.{
  name_condition, option_condition, kind_condition, unmarked_condition, server_generation_option,
  session_kind_option, entry_name_option, entry_path_option,
}
use wrap.Tmux.Format.Reading.{Evaluates}
use wrap.Tmux.Format.Conditions.{
  name_condition-Evaluates, option_condition-Evaluates, kind_condition-Evaluates,
  unmarked_condition-Evaluates,
}
use wrap.Tmux.Guard.{identity_mismatch, unless_rejected, check_identity, run_if}
use wrap.Tmux.Guard.Honoured.{
  format_depth, Semantics, IsServed, run_if_lem, has_zero, is_assignment,
}
use wrap.Tmux.Ids.{is_session_id, is_generation}
use wrap.Tmux.Quote.{escape_format_literal, replace_byte, tmux_command}
use wrap.Tmux.Quote.Words.Written.{IsQuotable}
use wrap.Tmux.Server.{Tmux, Server, TmuxError, Command, judge, judged, failing, identity_changed}
use wrap.Tmux.Sessions.{
  kind_entry, kind_scratch, kind_diff, is_session_kind, kill_command, rename_command, set_command,
  killed, kill_if_name, kill_if_option, kill_if_kind, rename_if_kind, mark_kind_if_unmarked,
  change_kind_if_kind,
}

-- An operation with the identity that it expects.
pub data Change : Type 0 where
  kill_named : Bytes → Change
  kill_marked : Bytes → Bytes → Bytes → Change
  kill_of_kind : Bytes → Bytes → Change
  rename : Bytes → Bytes → Bytes → Change
  mark : Bytes → Bytes → Change
  change_kind : Bytes → Bytes → Bytes → Change

-- The arguments that the operation does not refuse. An option with a brace could not be compared.
abbrev pub Admissible : Change → Type 0
Admissible (kill_named name) = is_empty name ≡ false
Admissible (kill_marked name option value) =
    (is_empty name ≡ false)
    × ((not (is_empty option) && has_prefix option (codes "@")) ≡ true)
    × (is_empty value ≡ false)
    × Without b'}' option
Admissible (kill_of_kind name kind) = (is_empty name ≡ false) × (is_session_kind kind ≡ true)
Admissible (rename old kind new) =
    ((is_empty old || is_empty new) ≡ false) × (is_session_kind kind ≡ true)
Admissible (mark name kind) = (is_empty name ≡ false) × (is_session_kind kind ≡ true)
Admissible (change_kind name expected new) =
    (is_empty name ≡ false)
    × ((is_empty expected || is_session_kind expected) ≡ true)
    × (is_session_kind new ≡ true)

-- Whether a session with these variables is the one that is expected.
abbrev is_expected : (Bytes → Bytes) → Bytes → Bytes → Bool → Bool
is_expected value_of generation name rest =
    equal (value_of server_generation_option) generation
    && (equal (value_of (codes "session_name")) name && rest)

abbrev pub matches : (Bytes → Bytes) → Bytes → Change → Bool
matches value_of g (kill_named name) =
    equal (value_of server_generation_option) g && equal (value_of (codes "session_name")) name
matches value_of g (kill_marked name option value) =
    is_expected value_of g name (equal (value_of option) value)
matches value_of g (kill_of_kind name kind) =
    is_expected value_of g name (equal (value_of session_kind_option) kind)
matches value_of g (rename old kind new) =
    is_expected value_of g old (equal (value_of session_kind_option) kind)
matches value_of g (mark name kind) = is_expected value_of g name (
    equal (value_of session_kind_option) []
    && (equal (value_of entry_name_option) [] && equal (value_of entry_path_option) []))
matches value_of g (change_kind name expected new) =
    is_expected value_of g name (equal (value_of session_kind_option) expected)

-- The command that the operation is for.
abbrev pub command : Bytes → Change → List Bytes
command id (kill_named name) = codes "kill-session" ∷ codes "-t" ∷ id ∷ []
command id (kill_marked name option value) = codes "kill-session" ∷ codes "-t" ∷ id ∷ []
command id (kill_of_kind name kind) = codes "kill-session" ∷ codes "-t" ∷ id ∷ []
command id (rename old kind new) = codes "rename-session" ∷ codes "-t" ∷ id ∷ new ∷ []
command id (mark name kind) = codes "set-option" ∷ codes "-t" ∷ id ∷ session_kind_option ∷ kind ∷ []
command id (change_kind name expected new) =
    codes "set-option" ∷ codes "-t" ∷ id ∷ session_kind_option ∷ new ∷ []

-- The condition that the operation gives to tmux.
abbrev pub condition_of : Bytes → Change → Bytes
condition_of g (kill_named name) = name_condition g name
condition_of g (kill_marked name option value) = option_condition g name option value
condition_of g (kill_of_kind name kind) = kind_condition g name kind
condition_of g (rename old kind new) = kind_condition g old kind
condition_of g (mark name kind) = unmarked_condition g name
condition_of g (change_kind name expected new) = kind_condition g name expected

kind-cases :
    (kind : Bytes)
    → is_session_kind kind ≡ true
    → (kind ≡ kind_entry) ⊎ ((kind ≡ kind_scratch) ⊎ (kind ≡ kind_diff))
unfolding is_session_kind
kind-cases kind h = elim (Bool-cases (equal kind kind_entry)) [
  | inl e ↦ inl ((equal_iff kind kind_entry).0 e)
  | inr n ↦ elim (Bool-cases (equal kind kind_scratch)) [
    | inl e ↦ inr (inl ((equal_iff kind kind_scratch).0 e))
    | inr m ↦ inr (inr ((equal_iff kind kind_diff).0 (ground (arith, h, n, m))))
  ]
]

kind-plain : (kind : Bytes) → is_session_kind kind ≡ true → escape_format_literal kind ≡ kind
unfolding escape_format_literal replace_byte
kind-plain kind h = elim (kind-cases kind h) [
  | inl e ↦ rw e refl
  | inr (inl e) ↦ rw e refl
  | inr (inr e) ↦ rw e refl
]

expected-plain :
    (kind : Bytes)
    → (is_empty kind || is_session_kind kind) ≡ true
    → escape_format_literal kind ≡ kind
expected-plain [] h = unfold escape_format_literal replace_byte in refl
expected-plain (c ∷ cs) h = kind-plain (c ∷ cs) h

rejected :
    unless_rejected identity_mismatch identity_changed (ok identity_mismatch) ≡ err identity_changed
unfolding unless_rejected trim_space equal
rejected = refl

judged-if :
    {S A B : Type 0} (f : Result TmuxError A → Result TmuxError B) (b : Bool)
    (x y : S × Result TmuxError A)
    → judged f (if b then x else y) ≡ (if b then judged f x else judged f y)
judged-if f true x y = refl
judged-if f false x y = refl

module _ {S : Type 0} (tmux : Tmux S) (server : Server) where
  -- The operation as the code has it.
  pub perform : Bytes → Bytes → Change → Command S (Unit {0})
  perform id g (kill_named name) = kill_if_name tmux server id g name
  perform id g (kill_marked name option value) = kill_if_option tmux server id g name option value
  perform id g (kill_of_kind name kind) = kill_if_kind tmux server id g name kind
  perform id g (rename old kind new) = rename_if_kind tmux server id g old kind new
  perform id g (mark name kind) = mark_kind_if_unmarked tmux server id g name kind
  perform id g (change_kind name expected new) =
      change_kind_if_kind tmux server id g name expected new

  -- What is made of the output of the command. A kill forgives that the session is gone.
  pub finish : Change → Result TmuxError Bytes → Result TmuxError (Unit {0})
  finish (kill_named name) = killed tmux server
  finish (kill_marked name option value) = killed tmux server
  finish (kill_of_kind name kind) = killed tmux server
  finish (rename old kind new) = unless_rejected identity_mismatch identity_changed
  finish (mark name kind) = unless_rejected identity_mismatch identity_changed
  finish (change_kind name expected new) = unless_rejected identity_mismatch identity_changed

  module _ (semantics : Semantics S) (id g : Bytes) (s : S)
      (served : IsServed tmux server semantics) (there : semantics.has s id ≡ true) where
    guarded :
        (f : Result TmuxError Bytes → Result TmuxError (Unit {0}))
        → f (ok identity_mismatch) ≡ err identity_changed
        → (nested : ℕ) (condition : Bytes) (args : List Bytes) (b : Bool) → is_session_id id ≡ true
        → has_zero condition ≡ false
        → is_assignment args ≡ false
        → All IsQuotable args
        → nested ≤ format_depth
        → Evaluates (semantics.value s id) nested condition b
        → judge f (run_if tmux server id condition (tmux_command args)) s
          ≡ (if b then judged f (failing (semantics.execute args s)) else (s, err identity_changed))
    guarded f refuses nested condition args b i z n q low evaluates =
        ap (judged f) (
          run_if_lem tmux server semantics id condition args nested b s served i z n q there low
            evaluates)
        ∙ judged-if f b (failing (semantics.execute args s)) (s, ok identity_mismatch)
        ∙ ap (λ r. if b then judged f (failing (semantics.execute args s)) else (s, r)) refuses

    -- Let tmux evaluate conditions and cut commands into words as Honours says. An operation on a
    -- session that is there, with arguments that the code does not refuse, an option without a brace,
    -- no zero byte in its condition, and no newline, zero byte or byte 255 in the words of its command,
    -- acts on the session just if the session is the expected one at that moment; if not, it reports so
    -- and changes nothing.
    pub perform_exact :
        (c : Change)
        → is_session_id id ≡ true
        → is_generation g ≡ true
        → Admissible c
        → has_zero (condition_of g c) ≡ false
        → All IsQuotable (command id c)
        → perform id g c s ≡ (
            if matches (semantics.value s id) g c
            then judged (finish c) (failing (semantics.execute (command id c) s))
            else (s, err identity_changed))
    unfolding perform finish kill_if_name kill_if_option kill_if_kind rename_if_kind
        mark_kind_if_unmarked change_kind_if_kind check_identity is_assignment kill_command
        rename_command set_command killed
    perform_exact (kill_named name) i h a z q =
        rw (i, h, a)
          (guarded (killed tmux server) rejected 2 (name_condition g name) _ _ i z refl q
            (omega arith) (name_condition-Evaluates (semantics.value s id) g name h))
    perform_exact (kill_marked name option value) i h (a, o, v, w) z q =
        rw (i, h, a, o, v)
          (guarded (killed tmux server) rejected 3 (option_condition g name option value) _ _ i z
            refl q (omega arith)
            (option_condition-Evaluates (semantics.value s id) g name option value h w))
    perform_exact (kill_of_kind name kind) i h (a, k) z q =
        rw (i, h, a, k)
          (guarded (killed tmux server) rejected 3 (kind_condition g name kind) _ _ i z refl q
            (omega arith)
            (kind_condition-Evaluates (semantics.value s id) g name kind h (kind-plain kind k)))
    perform_exact (rename old kind new) i h (a, k) z q =
        rw (i, h, a, k)
          (guarded (unless_rejected identity_mismatch identity_changed) rejected 3
            (kind_condition g old kind) _ _ i z refl q (omega arith)
            (kind_condition-Evaluates (semantics.value s id) g old kind h (kind-plain kind k)))
    perform_exact (mark name kind) i h (a, k) z q =
        rw (i, h, a, k)
          (guarded (unless_rejected identity_mismatch identity_changed) rejected 5
            (unmarked_condition g name) _ _ i z refl q (omega arith)
            (unmarked_condition-Evaluates (semantics.value s id) g name h))
    perform_exact (change_kind name expected new) i h (a, x, k) z q =
        rw (i, h, a, x, k)
          (guarded (unless_rejected identity_mismatch identity_changed) rejected 3
            (kind_condition g name expected) _ _ i z refl q (omega arith)
            (kind_condition-Evaluates (semantics.value s id) g name expected h
              (expected-plain expected x)))
