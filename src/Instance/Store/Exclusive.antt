-- ===== src/Instance/Store/Exclusive.antt =====
-- No record can be reached through another's name or ID, and no two share a tmux window.
use wrap.Base.{
  ◌≡◌, sym, subst, ◌∙◌, ◌≢◌, ◌⊎◌, inl, inr, none, some, List, [], ◌∷◌, ◌++◌, arith, Bool-cases,
  Option-cases, All, Bytes, equal_iff,
}
use wrap.Instance.Record.{Record}
use wrap.Instance.Store.Read.{sort_records, insert_record, record_less}
use wrap.Instance.Store.Write.{collision, check_collisions}
use wrap.Target

-- The library's `Mem` is truncated; here a proof splits on the place.
abbrev pub In : Record → List Record → Type 0
In r [] = ⊥
In r (s ∷ rs) = (r ≡ s) ⊎ In r rs

pub All-In : (P : Record → Type 0) (rs : List Record) {r : Record} → All P rs → In r rs → P r
All-In P [] h i = absurd i
All-In P (s ∷ rs) h (inl e) = subst P (sym e) h.0
All-In P (s ∷ rs) h (inr i) = All-In P rs h.1 i

All-snoc :
    (P : Record → Type 0) (rs : List Record) (r : Record) → All P rs → P r → All P (rs ++ (r ∷ []))
All-snoc P [] r h p = (p, tt)
All-snoc P (s ∷ rs) r h p = (h.0, All-snoc P rs r h.1 p)

All-insert :
    (P : Record → Type 0) (r : Record) (rs : List Record)
    → All P (insert_record r rs)
    → P r × All P rs
unfolding insert_record
All-insert P r [] h = h
All-insert P r (s ∷ rs) h = elim (Bool-cases (record_less s r)) [
  | inl less ↦
      let h' : P s × All P (insert_record r rs) = rw less at h in
      let (p, q) = All-insert P r rs h'.1 in (p, (h'.0, q))
  | inr more ↦ rw more at h
]

-- What holds of the sorted records holds of the records.
pub All-sort : (P : Record → Type 0) (rs : List Record) → All P (sort_records rs) → All P rs
unfolding sort_records
All-sort P [] h = tt
All-sort P (r ∷ rs) h = let (p, q) = All-insert P r (sort_records rs) h in (p, All-sort P rs q)

module _ (hex_sha256 : Bytes → Bytes) where
  pub record Apart (r s : Record) : Type 0 where
    pub ids : r.id ≢ s.id
    pub names : r.name ≢ s.name
    pub name_id : r.name ≢ s.id
    pub id_name : r.id ≢ s.name
    pub targets : Target.key hex_sha256 r.target ≢ Target.key hex_sha256 s.target

  abbrev pub Exclusive : List Record → Type 0
  Exclusive [] = Unit
  Exclusive (r ∷ rs) = All (Apart r) rs × Exclusive rs

  Apart-symm : {r s : Record} → Apart r s → Apart s r
  Apart-symm a = record {
    ids = λ e. a.ids (sym e);
    names = λ e. a.names (sym e);
    name_id = λ e. a.id_name (sym e);
    id_name = λ e. a.name_id (sym e);
    targets = λ e. a.targets (sym e);
  }

  -- Only the ID, the name and the window count.
  pub All-Apart :
      (r stored : Record)
      → stored.id ≡ r.id
      → stored.name ≡ r.name
      → Target.key hex_sha256 stored.target ≡ Target.key hex_sha256 r.target
      → (rs : List Record) → All (Apart r) rs
      → All (Apart stored) rs
  All-Apart r stored i n w [] h = tt
  All-Apart r stored i n w (x ∷ xs) h = (
    record {
      ids = λ e. h.0.ids (sym i ∙ e);
      names = λ e. h.0.names (sym n ∙ e);
      name_id = λ e. h.0.name_id (sym n ∙ e);
      id_name = λ e. h.0.id_name (sym i ∙ e);
      targets = λ e. h.0.targets (sym w ∙ e);
    },
    All-Apart r stored i n w xs h.1,
  )

  collision-Apart : (r s : Record) → collision hex_sha256 r s ≡ none → Apart r s
  collision-Apart r s h = record {
    ids = λ e. ground (arith, equal_iff s.id r.id);
    names = λ e. ground (arith, equal_iff s.name r.name);
    name_id = λ e. ground (arith, equal_iff s.id r.name);
    id_name = λ e. ground (arith, equal_iff s.name r.id);
    targets = λ e.
        ground (arith, equal_iff (Target.key hex_sha256 s.target) (Target.key hex_sha256 r.target));
  }

  pub check_collisions-Apart :
      (r : Record) (rs : List Record) → check_collisions hex_sha256 r rs ≡ none → All (Apart r) rs
  unfolding check_collisions
  check_collisions-Apart r [] h = tt
  check_collisions-Apart r (s ∷ rs) h = elim (Option-cases (collision hex_sha256 r s)) [
    | inl e ↦ (collision-Apart r s e, check_collisions-Apart r rs (rw (e, check_collisions) at h))
    | inr (x, e) ↦ absurd (let h' : some x ≡ none = rw (e, check_collisions) at h in cc)
  ]

  pub Exclusive-snoc :
      (r : Record) (rs : List Record) → Exclusive rs → All (Apart r) rs → Exclusive (rs ++ (r ∷ []))
  Exclusive-snoc r [] e h = (tt, tt)
  Exclusive-snoc r (s ∷ rs) e h =
      (All-snoc (Apart s) rs r e.0 (Apart-symm h.0), Exclusive-snoc r rs e.1 h.1)
