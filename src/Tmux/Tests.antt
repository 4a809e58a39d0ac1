-- ===== src/Tmux/Tests.antt =====
-- The theorems on package tmux at a server with one session.
use wrap.Base.{
  ℕ, zero, suc, ◌+◌, ◌≡◌, refl, ap, ◌∙◌, Bool, true, false, not, ◌&&◌, Without, Option, none, some,
  List, [], ◌∷◌, arith, ◌==◌, if◌then◌else◌, All, any, all, Bytes, codes, equal,
}
use wrap.Base.Base64.{Base64}
use wrap.Base.Result.{Result, ok, err}
use wrap.Tmux.Format.{name_condition, server_generation_option}
use wrap.Tmux.Format.Reading.{evaluate}
use wrap.Tmux.Guard.Honoured.{has_zero, format_depth, Semantics, Honours, IsServed}
use wrap.Tmux.Ids.{endpoint_args, is_session_id, is_generation, is_window_id}
use wrap.Tmux.Listing.{parse_sessions}
use wrap.Tmux.Listing.Printed.{IsBase64, is_url_safe, Listed, IsListed, print_sessions, info_of}
use wrap.Tmux.Listing.RoundTrip.{parse_sessions-print_sessions}
use wrap.Tmux.Pin.{Captured, pin_window_size_args}
use wrap.Tmux.Pin.Guarded.{IsPinGuard, pin_window_size_args-IsPinGuard}
use wrap.Tmux.Quote.{escape_format_literal, tmux_command}
use wrap.Tmux.Quote.Words.{between, words}
use wrap.Tmux.Quote.Words.Written.{IsQuotable, all-IsQuotable, words-tmux_command}
use wrap.Tmux.Server.{Tmux, Server, TmuxError, failing, judged, identity_changed}
use wrap.Tmux.Sessions.Exact.{
  condition_of, kill_named, matches, command, perform, finish, perform_exact,
}

abbrev some_args : List Bytes
some_args = codes "rename-session" ∷ codes "-t" ∷ codes "$1" ∷ codes "it's; a $HOME" ∷ []

some_args-IsQuotable : All IsQuotable some_args
unfolding all
some_args-IsQuotable = (
  all-IsQuotable (codes "rename-session") refl,
  (
    all-IsQuotable (codes "-t") refl,
    (all-IsQuotable (codes "$1") refl, (all-IsQuotable (codes "it's; a $HOME") refl, tt)),
  ),
)

words-tmux_command_example : words between (tmux_command some_args) ≡ some some_args
words-tmux_command_example = words-tmux_command some_args some_args-IsQuotable

abbrev some_generation : Bytes
some_generation = codes "0123456789abcdef0123456789abcdef"

-- A server whose state is whether its one session is there.
abbrev one_value : Bytes → Bytes
one_value v =
    if equal v server_generation_option
    then some_generation
    else if equal v (codes "session_name")
    then codes "main"
    else []

abbrev one_execute : List Bytes → Bool → Bool × Result Bytes Bytes
one_execute (a ∷ b ∷ c ∷ []) s =
    if equal a (codes "display-message") then (s, ok c) else (false, ok [])
one_execute _ s = (s, err [])

abbrev one_session : Semantics Bool
one_session = record { has = λ s id. s; value = λ s id. one_value; execute = one_execute }

execute_words : Option (List Bytes) → Bool → Bool × Result Bytes Bytes
execute_words none s = (s, err [])
execute_words (some args) s = one_execute args s

branch : Option (Bool × Bytes) → Bytes → Bytes → Bool → Bool × Result Bytes Bytes
unfolding execute_words words
branch none chosen other s = (s, err [])
branch (some (b, rest)) chosen other s =
    if b then execute_words (words between chosen) s else execute_words (words between other) s

abbrev one_run : List Bytes → Bool → Bool × Result Bytes Bytes
one_run (l ∷ name ∷ shell ∷ f ∷ t ∷ id ∷ condition ∷ chosen ∷ other ∷ []) s =
    branch (evaluate one_value format_depth condition) chosen other s
one_run _ s = (s, err [])

abbrev one_tmux : Tmux Bool
one_tmux = record { run = one_run; to_lower = λ s. s; quote = λ s. s }

abbrev one_server : Server
one_server = record { socket = codes "wrap"; socket_path = []; config_file = [] }

either :
    (args rest : List Bytes) (b s : Bool)
    → (if b then one_execute args s else one_execute rest s)
      ≡ one_execute (if b then args else rest) s
either args rest true s = refl
either args rest false s = refl

one-Honours : Honours one_tmux (codes "-L" ∷ codes "wrap" ∷ []) one_session
unfolding branch execute_words equal
one-Honours = record {
  guarded =
      λ id condition chosen other args rest b s i z n m there evaluates chosen_read other_read.
        rw (evaluates, branch, chosen_read, other_read) (either args rest b s);
  prints = λ s. refl;
}

one-IsServed : IsServed one_tmux one_server one_session
unfolding endpoint_args
one-IsServed = (codes "-L" ∷ codes "wrap" ∷ [], refl, one-Honours)

perform_exact_example :
    perform one_tmux one_server (codes "$1") some_generation (kill_named (codes "main")) true ≡ (
      if matches one_value some_generation (kill_named (codes "main"))
      then judged
          (finish one_tmux one_server (kill_named (codes "main")))
          (failing (one_execute (command (codes "$1") (kill_named (codes "main"))) true))
      else (true, err identity_changed))
perform_exact_example =
    perform_exact one_tmux one_server one_session (codes "$1") some_generation true one-IsServed
      refl (kill_named (codes "main")) id_is generation_is refl no_zero command_quotable
  where
    no_zero : has_zero (condition_of some_generation (kill_named (codes "main"))) ≡ false
    no_zero = unfold has_zero name_condition any escape_format_literal in refl

    command_quotable : All IsQuotable (command (codes "$1") (kill_named (codes "main")))
    command_quotable =
        unfold all in
        (
          all-IsQuotable (codes "kill-session") refl,
          (all-IsQuotable (codes "-t") refl, (all-IsQuotable (codes "$1") refl, tt)),
        )

    id_is : is_session_id (codes "$1") ≡ true
    id_is = unfold is_session_id in refl

    generation_is : is_generation some_generation ≡ true
    generation_is = unfold is_generation in refl

-- A code that writes each byte in unary.
ones : ℕ → Bytes → Bytes
ones zero rest = b'b' ∷ rest
ones (suc n) rest = b'a' ∷ ones n rest

unary : Bytes → Bytes
unary [] = []
unary (c ∷ cs) = ones c (unary cs)

add : ℕ → Option Bytes → Option Bytes
add n none = none
add n (some cs) = some (n ∷ cs)

read_unary : ℕ → Bytes → Option Bytes
unfolding add
read_unary n [] = if n == 0 then some [] else none
read_unary n (c ∷ cs) =
    let more = read_unary (suc n) cs in
    let byte = add n (read_unary 0 cs) in if c == b'a' then more else byte

read_unary-ones :
    (n k : ℕ) (rest : Bytes) → read_unary k (ones n rest) ≡ add (n + k) (read_unary 0 rest)
unfolding read_unary ones
read_unary-ones zero k rest = ap (λ (m : ℕ). add m (read_unary 0 rest)) (omega arith)
read_unary-ones (suc n) k rest =
    read_unary-ones n (suc k) rest ∙ ap (λ (m : ℕ). add m (read_unary 0 rest)) (omega arith)

read_unary-unary : (s : Bytes) → read_unary 0 (unary s) ≡ some s
unfolding unary read_unary
read_unary-unary [] = refl
read_unary-unary (c ∷ cs) =
    read_unary-ones c 0 (unary cs)
    ∙ ap (add (c + 0)) (read_unary-unary cs)
    ∙ ap (λ (m : ℕ). some (m ∷ cs)) (omega arith)

ones-safe :
    (n : ℕ) (rest : Bytes)
    → All (λ c. is_url_safe c ≡ true) rest
    → All (λ c. is_url_safe c ≡ true) (ones n rest)
unfolding ones
ones-safe zero rest h = (refl, h)
ones-safe (suc n) rest h = (refl, ones-safe n rest h)

unary-safe : (s : Bytes) → All (λ c. is_url_safe c ≡ true) (unary s)
unfolding unary
unary-safe [] = tt
unary-safe (c ∷ cs) = ones-safe c (unary cs) (unary-safe cs)

abbrev unary_base64 : Base64
unary_base64 = record { encode = unary; decode = read_unary 0 }

unary-IsBase64 : IsBase64 unary_base64
unary-IsBase64 = record { decode-encode = read_unary-unary; url_safe = unary-safe }

abbrev some_listed : Listed
some_listed = record {
  id = codes "$1";
  generation = codes "g";
  name = codes "m";
  activity = 17;
  clients = 2;
  window_bell = false;
  rang = true;
  entry = none;
  path = some (codes "!");
  kind = codes "e";
  created = 16;
}

lacks : ℕ → Bytes → Bool
lacks b [] = true
lacks b (c ∷ cs) = not (c == b) && lacks b cs

clean_of : (b : ℕ) (s : Bytes) → lacks b s ≡ true → Without b s
unfolding lacks
clean_of b [] h = tt
clean_of b (c ∷ cs) h = (λ e. ground (arith, h, e), clean_of b cs (ground (arith, h)))

some_listed-IsListed : IsListed some_listed
unfolding lacks
some_listed-IsListed = record {
  id_clean = (clean_of b'\t' some_listed.id refl, clean_of b'\n' some_listed.id refl);
  generation_clean =
      (clean_of b'\t' some_listed.generation refl, clean_of b'\n' some_listed.generation refl);
  name_clean = (clean_of b'\t' some_listed.name refl, clean_of b'\n' some_listed.name refl);
  kind_clean = (clean_of b'\t' some_listed.kind refl, clean_of b'\n' some_listed.kind refl);
  activity_fits = omega arith;
  created_fits = omega arith;
  entry_valid = tt;
}

parse_sessions-print_sessions_example :
    parse_sessions unary_base64 (print_sessions unary_base64 (some_listed ∷ []))
    ≡ ok (info_of unary_base64 some_listed ∷ [])
parse_sessions-print_sessions_example =
    parse_sessions-print_sessions unary_base64 unary-IsBase64 (some_listed ∷ [])
      (some_listed-IsListed, tt)

abbrev some_captured : Captured
some_captured = record {
  window_id = codes "@2";
  columns = 80;
  rows = 24;
  mode = codes "latest";
  status = codes "on";
}

args_of : Result TmuxError (List Bytes) → List Bytes
args_of (err e) = []
args_of (ok args) = args

abbrev pin_result : Result TmuxError (List Bytes)
pin_result = pin_window_size_args (codes "$1") some_generation some_captured false [] 0

pin_result-made : pin_result ≡ ok (args_of pin_result)
unfolding args_of pin_window_size_args is_session_id is_window_id is_generation equal
pin_result-made = refl

pin_window_size_args-IsPinGuard_example :
    IsPinGuard (codes "$1") some_generation some_captured (args_of pin_result)
pin_window_size_args-IsPinGuard_example =
    pin_window_size_args-IsPinGuard (codes "$1") some_generation some_captured false [] 0
      (args_of pin_result) pin_result-made
