-- ===== src/Instance/Store/Write/Ownership.antt =====
-- RemoveIfPID removes nothing but a record of the given worker.
use wrap.Base.{
  ℕ, ◌≡◌, refl, sym, ap, ◌⊎◌, inl, inr, Bool, true, false, not, ◌||◌, Option, none, some, arith,
  if◌then◌else◌, Bool-cases, is_empty, Bytes, equal, equal_iff, ℤ, pos, negsuc, int_eq, is_positive,
}
use wrap.Base.Json.{Json}
use wrap.Instance.Record.{Record, is_instance_id}
use wrap.Instance.Store.Read.{Store, Parsed, good, faulty, lock, mkdir_private, parse_record}
use wrap.Instance.Store.World.{
  ◌>>◌, pure, Node, regular, irregular, World, StoreError, Result, ok, err, M, bound, lookup_entry,
  erase_entry, call, refuse_if, root_required, invalid_id, invalid_pid,
}
use wrap.Instance.Store.Write.Atomic.{Ends, Ends-bound, Ends-call, then_call}
use wrap.Instance.Store.Write.{record_path, remove_if_pid, remove_node, remove_owned, remove_path}

int_eq-eq : (a b : ℤ) → int_eq a b ≡ true → a ≡ b
int_eq-eq (pos m) (pos n) h = ground arith
int_eq-eq (negsuc m) (negsuc n) h = ground arith
int_eq-eq (pos m) (negsuc n) h = cc
int_eq-eq (negsuc m) (pos n) h = cc

abbrev Same : World → World → Type 0
Same w v = v.entries ≡ w.entries

Same-call : (w v : World) → Same w v → Ends (Same w) (Same w) (call v)
Same-call w v h = Ends-call (λ es. es ≡ w.entries) (Same w) v h (λ _ e. e)

and_call :
    {B : Type 0} (P Q : World → Type 0) (w v : World) (m : M B)
    → Same w v
    → ((u : World) → Same w u → Q u)
    → ((u : World) → Same w u → Ends P Q (m u))
    → Ends P Q ((call >> m) v)
and_call P Q w v m h q k = then_call (λ es. es ≡ w.entries) P Q v m h q k

mkdir_private-Same : (w v : World) → Same w v → Ends (Same w) (Same w) (mkdir_private v)
unfolding mkdir_private
mkdir_private-Same w v h =
    and_call {B = Unit {0}} (Same w) (Same w) w v _ h (λ _ e. e)
      λ v1 h1.
        and_call {B = Unit {0}} (Same w) (Same w) w v1 _ h1 (λ _ e. e) λ v2 h2. Same-call w v2 h2

lock-Same : (s : Store) (w : World) → Ends (Same w) (Same w) (lock s w)
unfolding lock
lock-Same s w = rooted (is_empty s.state_root)
  where
    runtime :
        (b : Bool) (v : World)
        → Same w v
        → Ends (Same w) (Same w) ((if b then pure tt else mkdir_private) v)
    runtime true v h = h
    runtime false v h = mkdir_private-Same w v h

    opened : (v : World) → Same w v → Ends (Same w) (Same w) ((call >> call) v)
    opened v h =
        and_call {B = Unit {0}} (Same w) (Same w) w v call h (λ _ e. e) λ v1 h1. Same-call w v1 h1

    rooted :
        (b : Bool)
        → Ends (Same w) (Same w) (
            bound (refuse_if b root_required w) (λ _.
              mkdir_private
              >> (mkdir_private
                  >> ((if is_empty s.runtime_root then pure tt else mkdir_private)
                      >> (call >> call)))))
    rooted true = refl
    rooted false =
        Ends-bound (Same w) (Same w) (Same w) (mkdir_private w) _ (mkdir_private-Same w w refl)
          λ _ v1 h1.
            Ends-bound (Same w) (Same w) (Same w) (mkdir_private v1) _ (mkdir_private-Same w v1 h1)
              λ _ v2 h2.
                Ends-bound (Same w) (Same w) (Same w)
                  ((if is_empty s.runtime_root then pure tt else mkdir_private) v2) _
                  (runtime (is_empty s.runtime_root) v2 h2) λ _ v3 h3. opened v3 h3

module _ (is_print : ℕ → Bool) (json : Json Record) (id : Bytes) (pid : ℤ) where
  -- The record under the ID is one of this worker.
  pub record Owned (w : World) : Type 0 where
    pub text : Bytes
    pub owned : Record
    pub present : lookup_entry (record_path id) w.entries ≡ some (regular text)
    pub parses : parse_record is_print json text ≡ good owned
    pub same_id : owned.id ≡ id
    pub same_pid : owned.pid ≡ pid

  -- Nothing has changed, or the worker's own record is gone and nothing else.
  abbrev pub OnlyOwned : World → World → Type 0
  OnlyOwned w v =
      (v.entries ≡ w.entries) ⊎ (Owned w × (v.entries ≡ erase_entry (record_path id) w.entries))

  Erased : World → World → Type 0
  Erased w v = v.entries ≡ erase_entry (record_path id) w.entries

  erased : (w v : World) → Same w v → Ends (Erased w) (OnlyOwned w) (remove_path (record_path id) v)
  unfolding remove_path Erased
  erased w v h =
      and_call {B = Unit {0}} (Erased w) (OnlyOwned w) w v _ h (λ _ e. inl e)
        λ u e. ap (erase_entry (record_path id)) e

  remove_owned-Ends :
      (w v : World) (text : Bytes) (q : Parsed)
      → lookup_entry (record_path id) w.entries ≡ some (regular text)
      → parse_record is_print json text ≡ q
      → Same w v
      → Ends (OnlyOwned w) (OnlyOwned w) (remove_owned id pid q v)
  unfolding remove_owned
  remove_owned-Ends w v text (faulty e) l p h = inl h
  remove_owned-Ends w v text (good r) l p h =
      elim (Bool-cases (not (equal r.id id) || not (int_eq r.pid pid))) [
        | inl foreign ↦ rw foreign (inl h)
        | inr own ↦
            let o : Owned w = record {
              text = text;
              owned = r;
              present = l;
              parses = p;
              same_id = ground (arith, equal_iff r.id id);
              same_pid = ground (arith, int_eq-eq r.pid pid);
            } in
            rw own (
              Ends-bound {B = Bool} (Erased w) (OnlyOwned w) (OnlyOwned w)
                (remove_path (record_path id) v) _ (erased w v h)
                (λ _ u e. inr (o, unfold Erased in e)))
      ]

  remove_node-Ends :
      (w v : World) (n : Option Node)
      → lookup_entry (record_path id) w.entries ≡ n
      → Same w v
      → Ends (OnlyOwned w) (OnlyOwned w) (remove_node is_print json id pid n v)
  unfolding remove_node
  remove_node-Ends w v none l h = inl h
  remove_node-Ends w v (some irregular) l h = inl h
  remove_node-Ends w v (some (regular text)) l h =
      and_call {B = Bool} (OnlyOwned w) (OnlyOwned w) w v _ h (λ _ e. inl e)
        λ u e. remove_owned-Ends w u text (parse_record is_print json text) l refl e

  weaken :
      {A : Type 0} (w : World) (q : Result A × World)
      → Ends (Same w) (Same w) q
      → Ends (Same w) (OnlyOwned w) q
  weaken w (ok a, v) h = h
  weaken w (err e, v) h = inl h

  guarded :
      {B : Type 0} (w : World) (b : Bool) (e : StoreError) (m : M B)
      → Ends (OnlyOwned w) (OnlyOwned w) (m w)
      → Ends (OnlyOwned w) (OnlyOwned w) ((refuse_if b e >> m) w)
  guarded w true e m h = inl refl
  guarded w false e m h = h

  Ends-entries :
      {A : Type 0} (w : World) (q : Result A × World)
      → Ends (OnlyOwned w) (OnlyOwned w) q
      → OnlyOwned w q.1
  Ends-entries w (ok a, v) h = h
  Ends-entries w (err e, v) h = h

  -- Whatever system call fails, `RemoveIfPID` leaves the directory as it was, or it has removed the
  -- one entry under the ID, which held a record with that ID and that PID.
  pub remove_if_pid-OnlyOwned :
      (s : Store) (w : World) → OnlyOwned w (remove_if_pid is_print json s id pid w).1
  unfolding remove_if_pid
  remove_if_pid-OnlyOwned s w = Ends-entries {A = Bool} w _ (
      guarded {B = Bool} w (not (is_instance_id id)) invalid_id _ (
        guarded {B = Bool} w (not (is_positive pid)) invalid_pid _ (
          Ends-bound {B = Bool} (Same w) (OnlyOwned w) (OnlyOwned w) (lock s w) _
            (weaken w (lock s w) (lock-Same s w))
            λ _ v h.
              and_call {B = Bool} (OnlyOwned w) (OnlyOwned w) w v _ h (λ _ e. inl e)
                λ u e.
                  remove_node-Ends w u (lookup_entry (record_path id) u.entries)
                    (ap (lookup_entry (record_path id)) (sym e)) e)))
