-- ===== src/Tmux/Guard/Honoured.antt =====
-- What the code relies on of tmux, and that a guarded command then runs just if its condition holds.
use wrap.Base.{
  ℕ, ◌≤◌, ◌≡◌, refl, Bool, true, some, List, [], ◌∷◌, ◌++◌, append-nil, subst, if◌then◌else◌, All,
  any, all, ap, ◌==◌, false, Bytes, codes,
}
use wrap.Base.Result.{Result, ok}
use wrap.Tmux.Format.Reading.{evaluate, Evaluates}
use wrap.Tmux.Guard.{identity_mismatch, reject, if_session, run_if}
use wrap.Tmux.Ids.{endpoint_args, is_session_id}
use wrap.Tmux.Quote.{tmux_command}
use wrap.Tmux.Quote.Words.{between, words}
use wrap.Tmux.Quote.Words.Written.{IsQuotable, all-IsQuotable, words-tmux_command}
use wrap.Tmux.Server.{Tmux, Server, endpoint_of, failing, with_config, run}

-- A state of tmux: its sessions, the variables of each, and what one command in words does.
pub record Semantics (S : Type 0) : Type 0 where
  pub has : S → Bytes → Bool
  pub value : S → Bytes → Bytes → Bytes
  pub execute : List Bytes → S → S × Result Bytes Bytes

-- A first word with an equals sign is an assignment to tmux, not a command.
unfoldable pub is_assignment : List Bytes → Bool
unfolding any
is_assignment [] = false
is_assignment (name ∷ args) = any (λ c. c == b'=') name

-- An argument of a process ends at a zero byte.
unfoldable pub has_zero : Bytes → Bool
unfolding any
has_zero = any (λ c. c == 0)

-- tmux expands formats down to this depth.
abbrev pub format_depth : ℕ
format_depth = 100

-- `if-shell -F -t` evaluates its condition in a session that is there and runs one of the two commands,
-- in the same turn; `display-message -p` prints a text. It is asked of tmux only for two commands that
-- are nothing but words, and for a condition that `evaluate` describes.
pub record Honours {S : Type 0} (tmux : Tmux S) (prefix : List Bytes) (semantics : Semantics S)
    : Type 0 where
  pub guarded :
      (id condition chosen other : Bytes) (args rest : List Bytes) (b : Bool) (s : S)
      → is_session_id id ≡ true
      → has_zero condition ≡ false
      → is_assignment args ≡ false
      → is_assignment rest ≡ false
      → semantics.has s id ≡ true
      → evaluate (semantics.value s id) format_depth condition ≡ some (b, [])
      → words between chosen ≡ some args
      → words between other ≡ some rest
      → tmux.run
          (prefix
            ++ (codes "if-shell" ∷ codes "-F" ∷ codes "-t" ∷ id ∷ condition ∷ chosen ∷ other ∷ []))
          s
        ≡ semantics.execute (if b then args else rest) s
  pub prints :
      (s : S)
      → semantics.execute (codes "display-message" ∷ codes "-p" ∷ identity_mismatch ∷ []) s
        ≡ (s, ok identity_mismatch)

-- The endpoint of the server is well-formed, and leads to this tmux.
abbrev pub IsServed : {S : Type 0} → Tmux S → Server → Semantics S → Type 0
IsServed tmux server semantics =
    (prefix : List Bytes) × (endpoint_args (endpoint_of server) ≡ ok prefix)
    × Honours tmux (with_config server.config_file prefix) semantics

abbrev rejecting : List Bytes
rejecting = codes "display-message" ∷ codes "-p" ∷ identity_mismatch ∷ []

rejecting-IsQuotable : All IsQuotable rejecting
unfolding all
rejecting-IsQuotable = (
  all-IsQuotable (codes "display-message") refl,
  (all-IsQuotable (codes "-p") refl, (all-IsQuotable identity_mismatch refl, tt)),
)

module _ {S : Type 0} (tmux : Tmux S) (server : Server) (semantics : Semantics S) where
  ends :
      (id condition : Bytes) (nested : ℕ) (b : Bool) (s : S)
      → nested ≤ format_depth
      → Evaluates (semantics.value s id) nested condition b
      → evaluate (semantics.value s id) format_depth condition ≡ some (b, [])
  ends id condition nested b s low evaluates =
      subst (λ c. evaluate (semantics.value s id) format_depth c ≡ some (b, []))
        (append-nil condition) (evaluates format_depth [] low)

  -- The command runs if the condition holds; if not, nothing changes.
  pub run_if_lem :
      (id condition : Bytes) (args : List Bytes) (nested : ℕ) (b : Bool) (s : S)
      → IsServed tmux server semantics
      → is_session_id id ≡ true
      → has_zero condition ≡ false
      → is_assignment args ≡ false
      → All IsQuotable args
      → semantics.has s id ≡ true
      → nested ≤ format_depth
      → Evaluates (semantics.value s id) nested condition b
      → run_if tmux server id condition (tmux_command args) s
        ≡ (if b then failing (semantics.execute args s) else (s, ok identity_mismatch))
  unfolding run_if if_session run reject is_assignment
  run_if_lem id condition args nested b s (prefix, found, honours) i z n q there low evaluates =
      rw
        (
          found,
          honours.guarded id condition (tmux_command args) (reject identity_mismatch) args rejecting
              b s i z n refl there (ends id condition nested b s low evaluates)
              (words-tmux_command args q) (words-tmux_command rejecting rejecting-IsQuotable),
        )
        (branches b)
    where
      branches :
          (b : Bool)
          → failing (semantics.execute (if b then args else rejecting) s)
            ≡ (if b then failing (semantics.execute args s) else (s, ok identity_mismatch))
      branches true = refl
      branches false = ap failing (honours.prints s)
