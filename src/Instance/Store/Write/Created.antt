-- ===== src/Instance/Store/Write/Created.antt =====
-- Create, once it has read the records: all or nothing to show, and no two records that collide.
use wrap.Base.{
  ℕ, ◌≡◌, refl, sym, ap, ◌⊎◌, inl, inr, Bool, true, false, Option, none, some, List, [], ◌∷◌, ◌++◌,
  arith, Bool-cases, Bytes, codes, equal, equal_iff, has_prefix, has_prefix-append,
  has_suffix-append, trim_suffix-append,
}
use wrap.Base.Json.{Json, Reads}
use wrap.Instance.Record.{Record, validate, is_instance_id}
use wrap.Instance.Store.Exclusive.{
  Apart, All-Apart, Exclusive, All-sort, Exclusive-snoc, check_collisions-Apart,
}
use wrap.Instance.Store.Read.{parse_record, found, is_skipped, parse_node, sort_records}
use wrap.Target
use wrap.Instance.Store.World.{
  bound, Node, regular, irregular, World, StoreError, Result, ok, err, lookup_entry,
}
use wrap.Instance.Store.Write.Atomic.{Ends, then_call, write_file-Ends}
use wrap.Instance.Store.Write.View.{view}
use wrap.Instance.Store.Write.{
  record_path, temp_path, create_among, write_atomic, write_file, check_destination, fail_with,
  check_collisions,
}

path_shown : (id : Bytes) → is_instance_id id ≡ true → is_skipped (record_path id) ≡ false
unfolding is_skipped is_instance_id has_prefix
path_shown [] h = cc
path_shown (c ∷ cs) h = ground (arith, has_suffix-append (c ∷ cs) (codes ".json"))

temp_hidden : (id random : Bytes) → is_skipped (temp_path id random) ≡ true
unfolding is_skipped has_prefix
temp_hidden id random =
    rw (has_prefix-append (codes ".") (id ++ (codes "." ++ (random ++ codes ".tmp"))))

temp_apart :
    (id random : Bytes)
    → is_instance_id id ≡ true
    → equal (temp_path id random) (record_path id) ≡ false
unfolding is_instance_id equal
temp_apart [] random h = cc
temp_apart (c ∷ cs) random h = ground arith

-- A valid record that JSON writes as a text, and what JSON reads that text as: a valid record of the
-- same ID, but perhaps another record, since JSON replaces bytes that are not UTF-8.
pub record Storable (is_print : ℕ → Bool) (json : Json Record) (r stored : Record) (text : Bytes)
    : Type 0 where
  pub valid : validate is_print r ≡ none
  pub marshals : json.marshal r ≡ some text
  pub reads : Reads json text stored
  pub stored_valid : validate is_print stored ≡ none
  pub same_id : stored.id ≡ r.id

module _ {is_print : ℕ → Bool} {json : Json Record} {r stored : Record} {text : Bytes}
    (s : Storable is_print json r stored text) where
  id_valid : is_instance_id r.id ≡ true
  unfolding validate
  id_valid = elim (Bool-cases (is_instance_id r.id)) [
    | inl e ↦ e
    | inr e ↦ absurd (ground (arith, s.valid))
  ]

  parses : parse_node is_print json (record_path r.id) (regular text) ≡ found stored
  unfolding parse_node parse_record
  parses = rw (
    s.reads.decodes,
    s.reads.ends,
    s.stored_valid,
    trim_suffix-append r.id (codes ".json"),
    (equal_iff r.id stored.id).1 (sym s.same_id),
  )

  module _ (hex_sha256 : Bytes → Bytes) (random : Bytes) where
    -- The directory shows what it showed, with what JSON keeps of the new record behind it.
    abbrev pub Added : World → World → Type 0
    Added w v = view is_print json v.entries ≡ view is_print json w.entries ++ (stored ∷ [])

    abbrev pub AddedOrNot : World → World → Type 0
    AddedOrNot w v = (view is_print json v.entries ≡ view is_print json w.entries) ⊎ Added w v

    installed_from :
        (w v : World) (n : Option Node)
        → v.entries ≡ w.entries
        → lookup_entry (record_path r.id) v.entries ≡ n
        → Ends (Added w) (AddedOrNot w) (
            bound
              (fail_with (check_destination false n) v)
              λ _. write_file (temp_path r.id random) (record_path r.id) (json.marshal r))
    unfolding check_destination
    installed_from w v (some irregular) e l = inl (ap (view is_print json) e)
    installed_from w v (some (regular t)) e l = inl (ap (view is_print json) e)
    installed_from w v none e l = rw s.marshals (
        write_file-Ends is_print json stored (record_path r.id) (temp_path r.id random) text
          (view is_print json w.entries) (temp_hidden r.id random) (temp_apart r.id random id_valid)
          (path_shown r.id id_valid) parses v (ap (view is_print json) e, l))

    write_atomic-Ends :
        (w : World) → Ends (Added w) (AddedOrNot w) (write_atomic json random r false w)
    unfolding write_atomic
    write_atomic-Ends w =
        then_call {B = Unit {0}} (λ es. es ≡ w.entries) (Added w) (AddedOrNot w) w _ refl
          (λ v e. inl (ap (view is_print json) e))
          λ v e. installed_from w v (lookup_entry (record_path r.id) v.entries) e refl

    -- Let JSON write a valid record as a text, and read that text as a valid record of the same ID.
    -- Whatever system call fails, when `create_among` has returned the directory shows what it showed,
    -- or that with the record that JSON reads behind it; and after no error it shows the latter.
    pub create_among_atomic :
        (w : World) (records : List Record)
        → Ends (Added w) (AddedOrNot w) (create_among is_print json hex_sha256 random r records w)
    unfolding create_among
    create_among_atomic w records = checked (check_collisions hex_sha256 r records)
      where
        checked :
            (c : Option StoreError)
            → Ends
                (Added w)
                (AddedOrNot w)
                (bound (fail_with c w) λ _. write_atomic json random r false)
        checked none = write_atomic-Ends w
        checked (some e) = inl refl

    Ends-either :
        {P Q : World → Type 0} (R : World → Type 0) (q : Result (Unit {0}) × World)
        → Ends P Q q
        → ((v : World) → P v → R v)
        → ((v : World) → Q v → R v)
        → R q.1
    Ends-either R (ok a, v) h p k = p v h
    Ends-either R (err e, v) h p k = k v h

    -- Let JSON write a valid record as a text, and read that text as a valid record of the same ID, name
    -- and key of the tmux window. Whatever system call fails, to create it among the records that the
    -- directory shows never leaves two that collide in an ID, a name, a selector or a tmux window, if
    -- there were none.
    pub create_among-Exclusive :
        (w : World)
        → stored.name ≡ r.name
        → Target.key hex_sha256 stored.target ≡ Target.key hex_sha256 r.target
        → Exclusive hex_sha256 (view is_print json w.entries)
        → Exclusive hex_sha256 (
            view is_print json
              (create_among is_print json hex_sha256 random r
                (sort_records (view is_print json w.entries))
                w).1.entries)
    unfolding create_among
    create_among-Exclusive w same_name same_window h =
        checked (check_collisions hex_sha256 r (sort_records (view is_print json w.entries))) refl
      where
        shows : World → Type 0
        shows v = Exclusive hex_sha256 (view is_print json v.entries)

        checked :
            (c : Option StoreError)
            → check_collisions hex_sha256 r (sort_records (view is_print json w.entries)) ≡ c
            → shows (bound (fail_with c w) λ _. write_atomic json random r false).1
        checked (some e) same = h
        checked none same =
            let apart =
              All-sort (Apart hex_sha256 r) (view is_print json w.entries)
                (check_collisions-Apart hex_sha256 r _ same) in
            let stored_apart =
              All-Apart hex_sha256 r stored s.same_id same_name same_window
                (view is_print json w.entries) apart in
            let added =
              Exclusive-snoc hex_sha256 stored (view is_print json w.entries) h stored_apart in
            Ends-either shows (write_atomic json random r false w) (write_atomic-Ends w)
              (λ v e. rw e added) (λ v. elim [ inl e ↦ rw e h | inr e ↦ rw e added ])
