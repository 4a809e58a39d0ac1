-- ===== src/Instance/Store/Tests.antt =====
-- The theorems on store.go in a directory with one record.
use wrap.Base.{
  ℕ, ◌≡◌, refl, ◌≢◌, inl, inr, Bool, true, false, none, some, [], ◌∷◌, arith, ltb, ◌==◌,
  if◌then◌else◌, Bytes, codes, equal, equal_iff, pos, has_prefix, has_suffix, trim_suffix,
}
use wrap.Base.Json.{Json, eof}
use wrap.Base.Utf8.{decode_all, is_space}
use wrap.Instance.Name.{validate_name}
use wrap.Instance.Record.{Record, validate, is_instance_id}
use wrap.Instance.Store.Exclusive.{Apart, Exclusive}
use wrap.Instance.Store.Read.{sort_records, resolve_in, Store, is_skipped, parse_node, parse_record}
use wrap.Instance.Store.Resolve.{resolve_in-In}
use wrap.Instance.Store.World.{regular, World, ok}
use wrap.Instance.Store.Write.{create_among, remove_if_pid, record_path}
use wrap.Instance.Store.Write.Atomic.{Ends}
use wrap.Instance.Store.Write.Created.{
  Storable, Added, AddedOrNot, create_among_atomic, create_among-Exclusive,
}
use wrap.Instance.Store.Write.Ownership.{OnlyOwned, remove_if_pid-OnlyOwned}
use wrap.Instance.Store.Write.View.{view}
use wrap.Target.{Target, key, key_text}

printable : ℕ → Bool
printable c = ltb 31 c

-- Two texts that a computation tells apart.
differ : (a b : Bytes) → equal a b ≡ false → a ≢ b
differ a b h e = ground (arith, h, (equal_iff a b).1 e)

abbrev some_target : Bytes → Target
some_target window = record {
  socket_path = codes "/tmp/tmux";
  generation = codes "g";
  session_id = codes "$1";
  window_id = window;
  session_name = codes "main";
  window_name = codes "vim";
  directory = codes "/home";
}

abbrev some_record : Bytes → Bytes → Bytes → Record
some_record id name window = record {
  version = pos 1;
  id = id;
  name = name;
  pid = pos 41;
  control_socket = codes "/run/c";
  started_at = some 5;
  directory = codes "/home";
  target = some_target window;
}

abbrev new_record : Record
new_record = some_record (codes "abcdef") (codes "one") (codes "@1")

abbrev old_record : Record
old_record = some_record (codes "uvwxyz") (codes "two") (codes "@2")

-- A codec that knows the two records by one byte.
abbrev some_json : Json Record
some_json = record {
  marshal = λ _. some (1 ∷ []);
  decode = λ text. elim text [
    | [] ↦ none
    | c ∷ _ ↦ if c == 1 then some (new_record, []) else some (old_record, [])
  ];
  trailing = λ _. eof;
}

new_record-Storable : Storable printable some_json new_record new_record (1 ∷ [])
unfolding validate is_instance_id validate_name decode_all is_space printable
new_record-Storable = record {
  valid = refl;
  marshals = refl;
  reads = record { rest = []; decodes = refl; ends = refl };
  stored_valid = refl;
  same_id = refl;
}

-- The old record's file, a hidden one, and a disk whose second call fails.
abbrev some_world : World
some_world = record {
  entries = (record_path old_record.id, regular (2 ∷ [])) ∷ (codes ".lock", regular []) ∷ [];
  faults = false ∷ true ∷ [];
}

abbrev plain_digest : Bytes → Bytes
plain_digest text = text

create_among_atomic_example :
    Ends
      (Added new_record-Storable plain_digest (codes "77") some_world)
      (AddedOrNot new_record-Storable plain_digest (codes "77") some_world)
      (create_among printable some_json plain_digest
        (codes "77")
        new_record
        (old_record ∷ [])
        some_world)
create_among_atomic_example =
    create_among_atomic new_record-Storable plain_digest (codes "77") some_world (old_record ∷ [])

some_world-Exclusive : Exclusive plain_digest (view printable some_json some_world.entries)
unfolding view is_skipped has_prefix has_suffix parse_node parse_record validate is_instance_id
    validate_name decode_all is_space printable equal trim_suffix
some_world-Exclusive = (tt, tt)

create_among-Exclusive_example : Exclusive plain_digest (
    view printable some_json
      (create_among printable some_json plain_digest
        (codes "77")
        new_record
        (sort_records (view printable some_json some_world.entries))
        some_world).1.entries)
create_among-Exclusive_example =
    create_among-Exclusive new_record-Storable plain_digest (codes "77") some_world refl refl
      some_world-Exclusive

abbrev some_store : Store
some_store = record { state_root = codes "/s"; runtime_root = [] }

remove_if_pid-OnlyOwned_example :
    OnlyOwned printable some_json old_record.id
      (pos 41)
      some_world
      (remove_if_pid printable some_json some_store old_record.id (pos 41) some_world).1
remove_if_pid-OnlyOwned_example =
    remove_if_pid-OnlyOwned printable some_json old_record.id (pos 41) some_store some_world

records-Apart : Apart plain_digest old_record new_record
unfolding equal key key_text
records-Apart = record {
  ids = differ old_record.id new_record.id refl;
  names = differ old_record.name new_record.name refl;
  name_id = differ old_record.name new_record.id refl;
  id_name = differ old_record.id new_record.name refl;
  targets = differ (key plain_digest old_record.target) (key plain_digest new_record.target) refl;
}

resolve_in-In_example :
    (resolve_in (old_record ∷ new_record ∷ []) (codes "one") ≡ ok new_record)
    × (resolve_in (old_record ∷ new_record ∷ []) (codes "abcdef") ≡ ok new_record)
resolve_in-In_example =
    resolve_in-In plain_digest (old_record ∷ new_record ∷ []) new_record
      ((records-Apart, tt), (tt, tt)) (inr (inl refl))
