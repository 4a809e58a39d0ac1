-- ===== src/Instance/Store/Write.antt =====
-- writeAtomic, Create, RenameIfPID, Remove and RemoveIfPID.
pub mod View
pub mod Atomic
pub mod Created
pub mod Ownership
use wrap.Base.{
  ℕ, Bool, true, false, not, ◌&&◌, ◌||◌, Option, none, some, List, [], ◌∷◌, ◌++◌, if◌then◌else◌,
  Bytes, codes, equal, ℤ, int_eq, is_positive,
}
use wrap.Base.Json.{Json}
use wrap.Instance.Name.{validate_name}
use wrap.Instance.Record.{Record, validate, is_instance_id}
use wrap.Instance.Store.Read.{Store, Parsed, good, faulty, lock, read_all_unlocked, parse_record}
use wrap.Instance.Store.World.{
  Node, regular, irregular, World, StoreError, Result, ok, err, M, ◌>>=◌, ◌>>◌, pure, fail,
  refuse_if, attempt, call, lookup_entry, put_entry, erase_entry, update_entries, id_exists,
  name_exists, selector_collision, target_taken, path_exists, not_regular, no_encoding, invalid_id,
  invalid_pid, invalid_record, invalid_name,
}
use wrap.Target
use wrap.Target.{Target}

abbrev pub record_path : Bytes → Bytes
record_path id = id ++ codes ".json"

-- os.CreateTemp(dir, "."+record.ID+".*.tmp"), with the random part given.
abbrev pub temp_path : Bytes → Bytes → Bytes
temp_path id random = codes "." ++ (id ++ (codes "." ++ (random ++ codes ".tmp")))

abbrev entry_at : Bytes → M (Option Node)
entry_at path w = (ok (lookup_entry path w.entries), w)

check_destination : Bool → Option Node → Option StoreError
check_destination replace none = none
check_destination replace (some irregular) =
    if not replace then some path_exists else some not_regular
check_destination replace (some (regular text)) = if not replace then some path_exists else none

abbrev fail_with : Option StoreError → M (Unit {0})
fail_with none = pure tt
fail_with (some e) = fail e

-- The deferred removal of the temporary file; its own failure is ignored.
remove_temp : Bytes → M (Unit {0})
unfolding attempt
remove_temp temp = do
  failed ← attempt
  if failed then pure tt else update_entries (erase_entry temp)

abbrev on_error : {A : Type 0} → M (Unit {0}) → Result A × World → Result A × World
on_error cleanup (ok a, w) = (ok a, w)
on_error cleanup (err e, w) = (err e, (cleanup w).1)

abbrev recover : {A : Type 0} → M A → M (Unit {0}) → M A
recover m cleanup w = on_error cleanup (m w)

-- Chmod and Encode.
encode_temp : Bytes → Bytes → M (Unit {0})
unfolding call
encode_temp temp text = do call; call; update_entries (put_entry temp (regular text))

-- Sync and Close, then Rename.
install : Bytes → Bytes → Bytes → M (Unit {0})
unfolding call
install temp path text = do
  call
  call
  call
  update_entries (λ es. put_entry path (regular text) (erase_entry temp es))

-- Open and Sync of the directory.
sync_directory : M (Unit {0})
unfolding call
sync_directory = do call; call

fill_and_install : Bytes → Bytes → Bytes → M (Unit {0})
unfolding encode_temp install sync_directory
fill_and_install temp path text = do encode_temp temp text; install temp path text; sync_directory

-- `temp` is the name that CreateTemp makes, which no entry has; `encoded` is the JSON of the record.
pub write_file : Bytes → Bytes → Option Bytes → M (Unit {0})
unfolding call remove_temp fill_and_install
write_file temp path none = do
  call
  update_entries (put_entry temp (regular []))
  recover (do call; fail no_encoding) (remove_temp temp)
write_file temp path (some text) = do
  call
  update_entries (put_entry temp (regular []))
  recover (fill_and_install temp path text) (remove_temp temp)

module _ (json : Json Record) (random : Bytes) where
  pub write_atomic : Record → Bool → M (Unit {0})
  unfolding call check_destination write_file
  write_atomic r replace = do
    call
    present ← entry_at (record_path r.id)
    fail_with (check_destination replace present)
    write_file (temp_path r.id random) (record_path r.id) (json.marshal r)

-- The first record that the new one collides with decides the error.
module _ (hex_sha256 : Bytes → Bytes) where
  abbrev pub collision : Record → Record → Option StoreError
  collision r existing =
      if equal existing.id r.id
      then some id_exists
      else if equal existing.name r.name
      then some name_exists
      else if equal existing.id r.name
      then some selector_collision
      else if equal existing.name r.id
      then some selector_collision
      else if equal (Target.key hex_sha256 existing.target) (Target.key hex_sha256 r.target)
      then some target_taken
      else none

  unfoldable pub check_collisions : Record → List Record → Option StoreError
  check_collisions r [] = none
  check_collisions r (existing ∷ rs) =
      let rest = check_collisions r rs in
      elim (collision r existing) [ none ↦ rest | some e ↦ some e ]

-- `RenameIfPID` goes through the records in order: a collision is an error, and the last record
-- with the ID and the PID is the current one.
rename_target : Bytes → ℤ → Bytes → Option Record → List Record → Result (Option Record)
rename_target id pid name current [] = ok current
rename_target id pid name current (r ∷ rs) =
    if equal r.name name && not (equal r.id id)
    then err name_exists
    else if equal r.id name && not (equal r.id id)
    then err selector_collision
    else rename_target id pid name (if equal r.id id && int_eq r.pid pid then some r else current)
        rs

abbrev of_result : {A : Type 0} → Result A → M A
of_result r w = (r, w)

abbrev fail_on : {E : Type 0} → Option E → (E → StoreError) → M (Unit {0})
fail_on none f = pure tt
fail_on (some e) f = fail (f e)

-- os.Remove, where a missing file is no failure.
remove_path : Bytes → M (Unit {0})
unfolding call
remove_path path = do call; update_entries (erase_entry path)

pub remove : Store → Bytes → M (Unit {0})
unfolding remove_path
remove s id = do
  refuse_if (not (is_instance_id id)) invalid_id
  lock s
  remove_path (record_path id)

module _ (is_print : ℕ → Bool) (json : Json Record) (hex_sha256 : Bytes → Bytes)
    (random : Bytes) where
  -- What `Create` does once the records are read.
  pub create_among : Record → List Record → M (Unit {0})
  unfolding check_collisions write_atomic
  create_among r records = do
    fail_with (check_collisions hex_sha256 r records)
    write_atomic json random r false

  pub create : Store → Record → M (Unit {0})
  unfolding create_among
  create s r = do
    fail_on (validate is_print r) invalid_record
    lock s
    (records, problems) ← read_all_unlocked is_print json
    create_among r records

  rename_current : Bytes → Option Record → M Bool
  rename_current name none = pure false
  rename_current name (some r) = do
    write_atomic json random (record r { name = name }) true
    pure true

  -- What `RenameIfPID` does once the records are read.
  pub rename_among : Bytes → ℤ → Bytes → List Record → M Bool
  unfolding rename_target rename_current
  rename_among id pid name records = do
    current ← of_result (rename_target id pid name none records)
    rename_current name current

  pub rename_if_pid : Store → Bytes → ℤ → Bytes → M Bool
  unfolding rename_among
  rename_if_pid s id pid name = do
    refuse_if (not (is_instance_id id) || not (is_positive pid)) invalid_id
    fail_on (validate_name is_print name) invalid_name
    lock s
    (records, problems) ← read_all_unlocked is_print json
    rename_among id pid name records

remove_owned : Bytes → ℤ → Parsed → M Bool
unfolding remove_path
remove_owned id pid (faulty e) = fail e
remove_owned id pid (good r) =
    if not (equal r.id id) || not (int_eq r.pid pid)
    then pure false
    else do remove_path (record_path id); pure true

module _ (is_print : ℕ → Bool) (json : Json Record) where
  remove_node : Bytes → ℤ → Option Node → M Bool
  unfolding call remove_owned
  remove_node id pid none = pure false
  remove_node id pid (some irregular) = fail not_regular
  remove_node id pid (some (regular text)) = do
    call
    remove_owned id pid (parse_record is_print json text)

  pub remove_if_pid : Store → Bytes → ℤ → M Bool
  unfolding call remove_node
  remove_if_pid s id pid = do
    refuse_if (not (is_instance_id id)) invalid_id
    refuse_if (not (is_positive pid)) invalid_pid
    lock s
    call
    present ← entry_at (record_path id)
    remove_node id pid present
