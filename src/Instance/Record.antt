-- ===== src/Instance/Record.antt =====
-- internal/instance/model.go: a worker's record and its validation.
use wrap.Base.{
  ℕ, Bool, true, false, not, ◌&&◌, ◌||◌, Option, none, some, [], ◌∷◌, leb, ◌==◌, if◌then◌else◌,
  length, is_empty, all, Bytes, ℤ, is_nat, is_positive, is_abs,
}
use wrap.Instance.Name.{NameError, validate_name}
use wrap.Target.{Target}

abbrev pub record_version : ℕ
record_version = 1

-- `started_at` is a time.Time; `none` is its zero value.
pub record Record : Type 0 where
  pub version : ℤ
  pub id : Bytes
  pub name : Bytes
  pub pid : ℤ
  pub control_socket : Bytes
  pub started_at : Option ℕ
  pub directory : Bytes
  pub target : Target

pub data RecordFault : Type 0 where
  bad_version bad_id bad_pid relative_socket no_start relative_directory bad_target : RecordFault
  bad_name : NameError → RecordFault

abbrev is_alnum : ℕ → Bool
is_alnum c = leb b'A' c && leb c b'Z' || leb b'a' c && leb c b'z' || leb b'0' c && leb c b'9'

abbrev is_id_byte : ℕ → Bool
is_id_byte c = is_alnum c || c == b'_' || c == b'-'

-- ^[A-Za-z0-9][A-Za-z0-9_-]{5,63}$
unfoldable pub is_instance_id : Bytes → Bool
unfolding all
is_instance_id [] = false
is_instance_id (c ∷ cs) = is_alnum c && all is_id_byte cs && leb 5 (length cs) && leb (length cs) 63

is_none {ℓ} : {A : Type ℓ} → Option A → Bool
is_none none = true
is_none (some a) = false

has_identity : Target → Bool
has_identity t =
    is_abs t.socket_path
    && not (is_empty t.generation)
    && not (is_empty t.session_id)
    && not (is_empty t.window_id)

module _ (is_print : ℕ → Bool) where
  check_rest : Record → Option NameError → Option RecordFault
  unfolding is_none has_identity
  check_rest r (some e) = some (bad_name e)
  check_rest r none =
      if not (is_positive r.pid)
      then some bad_pid
      else if not (is_abs r.control_socket)
      then some relative_socket
      else if is_none r.started_at
      then some no_start
      else if not (is_abs r.directory)
      then some relative_directory
      else if not (has_identity r.target)
      then some bad_target
      else none

  unfoldable pub validate : Record → Option RecordFault
  unfolding check_rest
  validate r =
      if not (is_nat r.version record_version)
      then some bad_version
      else if not (is_instance_id r.id)
      then some bad_id
      else check_rest r (validate_name is_print r.name)
