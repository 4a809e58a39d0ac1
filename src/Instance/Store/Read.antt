-- ===== src/Instance/Store/Read.antt =====
-- readAllUnlocked, readRecord, lock, ReadAll and Resolve. ReadDir lists the entries; the order in
-- which the problems stand follows it.
use wrap.Base.{
  ℕ, Bool, true, false, not, ◌||◌, Option, none, some, List, [], ◌∷◌, if◌then◌else◌, is_empty,
  Bytes, codes, equal, has_prefix, has_suffix, trim_suffix, string_less,
}
use wrap.Base.Json.{Json, Trailing, eof, value, malformed}
use wrap.Instance.Record.{Record, RecordFault, validate}
use wrap.Instance.Store.World.{
  Node, regular, irregular, StoreError, Result, ok, err, M, ◌>>=◌, ◌>>◌, pure, refuse_if, attempt,
  call, root_required, no_such_instance, ambiguous, invalid_record, undecodable,
}

-- Names that `readAllUnlocked` passes over.
unfoldable pub is_skipped : Bytes → Bool
is_skipped name = has_prefix name (codes ".") || not (has_suffix name (codes ".json"))

pub data Parsed : Type 0 where
  good : Record → Parsed
  faulty : StoreError → Parsed

pub data Outcome : Type 0 where
  found : Record → Outcome
  problem : Outcome

abbrev add_outcome : Bytes → Outcome → List Record × List Bytes → List Record × List Bytes
add_outcome name (found r) (records, problems) = (r ∷ records, problems)
add_outcome name problem (records, problems) = (records, name ∷ problems)

module _ (is_print : ℕ → Bool) (json : Json Record) where
  check_record : Record → Option RecordFault → Parsed
  check_record r none = good r
  check_record r (some e) = faulty (invalid_record e)

  check_end : Record → Trailing → Parsed
  unfolding check_record
  check_end r eof = check_record r (validate is_print r)
  check_end r value = faulty undecodable
  check_end r malformed = faulty undecodable

  check_decoded : Option (Record × Bytes) → Parsed
  unfolding check_end
  check_decoded none = faulty undecodable
  check_decoded (some (r, rest)) = check_end r (json.trailing rest)

  -- `readRecord` on the bytes of the file.
  unfoldable pub parse_record : Bytes → Parsed
  unfolding check_decoded
  parse_record text = check_decoded (json.decode text)

  named : Bytes → Parsed → Outcome
  named name (faulty e) = problem
  named name (good r) = if equal (trim_suffix name (codes ".json")) r.id then found r else problem

  -- What a file that is not passed over holds, read without a failure.
  unfoldable pub parse_node : Bytes → Node → Outcome
  unfolding named
  parse_node name irregular = problem
  parse_node name (regular text) = named name (parse_record text)

  read_seen : Bytes → Bytes → Bool → M Outcome
  read_seen name text true = pure problem
  read_seen name text false = do
    unread ← attempt
    pure (if unread then problem else parse_node name (regular text))

  -- The same with the two system calls, Lstat and ReadFile; a failure is a problem.
  unfoldable pub read_node : Bytes → Node → M Outcome
  unfolding attempt read_seen
  read_node name irregular = do failed ← attempt; pure problem
  read_node name (regular text) = do unseen ← attempt; read_seen name text unseen

  unfoldable pub read_entries : List (Bytes × Node) → M (List Record × List Bytes)
  unfolding read_node
  read_entries [] = pure ([], [])
  read_entries ((name, node) ∷ es) =
      let rest = read_entries es in
      if is_skipped name
      then rest
      else do outcome ← read_node name node; others ← rest; pure (add_outcome name outcome others)

-- The order of `sort.Slice`: by name, then by ID.
abbrev pub record_less : Record → Record → Bool
record_less r s = if equal r.name s.name then string_less r.id s.id else string_less r.name s.name

unfoldable pub insert_record : Record → List Record → List Record
insert_record r [] = r ∷ []
insert_record r (s ∷ rs) = if record_less s r then s ∷ insert_record r rs else r ∷ s ∷ rs

unfoldable pub sort_records : List Record → List Record
unfolding insert_record
sort_records [] = []
sort_records (r ∷ rs) = insert_record r (sort_records rs)

abbrev entries_of : M (List (Bytes × Node))
entries_of w = (ok w.entries, w)

-- MkdirAll, Lstat with its test, and Chmod.
unfoldable pub mkdir_private : M (Unit {0})
unfolding call
mkdir_private = do call; call; call

-- `lock`; the roots are the fields of the store. The release does not fail. That `.lock` and the
-- directories may be created is not recorded in the world: reading passes over `.lock`.
pub record Store : Type 0 where
  pub state_root : Bytes
  pub runtime_root : Bytes

unfoldable pub lock : Store → M (Unit {0})
unfolding mkdir_private call
lock s = do
  refuse_if (is_empty s.state_root) root_required
  mkdir_private
  mkdir_private
  if is_empty s.runtime_root then pure tt else mkdir_private
  call
  call

module _ (is_print : ℕ → Bool) (json : Json Record) where
  unfoldable pub read_all_unlocked : M (List Record × List Bytes)
  unfolding call
  read_all_unlocked = do
    call
    es ← entries_of
    (records, problems) ← read_entries is_print json es
    pure (sort_records records, problems)

  unfoldable pub read_all : Store → M (List Record × List Bytes)
  read_all s = do lock s; read_all_unlocked

abbrev pub select : (Record → Bool) → List Record → List Record
select p [] = []
select p (r ∷ rs) = if p r then r ∷ select p rs else select p rs

-- The records whose name or ID is the selector, or else those whose ID begins with it.
by_prefix : List Record → Result Record
by_prefix [] = err no_such_instance
by_prefix (r ∷ []) = ok r
by_prefix (r ∷ s ∷ rs) = err ambiguous

by_exact : List Record → List Record → Result Record
unfolding by_prefix
by_exact [] prefixed = by_prefix prefixed
by_exact (r ∷ []) prefixed = ok r
by_exact (r ∷ s ∷ rs) prefixed = err ambiguous

unfoldable pub resolve_in : List Record → Bytes → Result Record
unfolding by_exact
resolve_in records selector =
    by_exact (select (λ r. equal r.name selector || equal r.id selector) records)
      (select (λ r. has_prefix r.id selector) records)

abbrev of_result : {A : Type 0} → Result A → M A
of_result r w = (r, w)

module _ (is_print : ℕ → Bool) (json : Json Record) where
  pub resolve : Store → Bytes → M Record
  resolve s selector = do
    (records, problems) ← read_all is_print json s
    of_result (resolve_in records selector)
