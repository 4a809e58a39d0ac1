-- ===== src/Instance/Store/Resolve.antt =====
-- Selectors find what they name.
use wrap.Base.{
  ◌≡◌, refl, sym, subst, ◌≢◌, ◌⊎◌, inl, inr, Bool, true, false, ◌||◌, List, [], ◌∷◌, arith, All,
  Bytes, equal, equal_iff,
}
use wrap.Instance.Record.{Record}
use wrap.Instance.Store.Exclusive.{In, Apart, Exclusive, All-In}
use wrap.Instance.Store.Read.{select, resolve_in}
use wrap.Instance.Store.World.{ok}

equal_self : (s : Bytes) → equal s s ≡ true
equal_self s = (equal_iff s s).1 refl

not_equal : (a b : Bytes) → a ≢ b → equal a b ≡ false
not_equal a b h = ground (arith, equal_iff a b)

abbrev exact : Bytes → Record → Bool
exact selector r = equal r.name selector || equal r.id selector

module _ (hex_sha256 : Bytes → Bytes) where
  -- The two selectors of a record are no selectors of a record apart from it.
  by_name :
      (r s : Record) → Apart hex_sha256 r s → (exact r.name s ≡ false) × (exact s.name r ≡ false)
  by_name r s a =
      rw
        (
          not_equal s.name r.name (λ e. a.names (sym e)),
          not_equal s.id r.name (λ e. a.name_id (sym e)),
          not_equal r.name s.name a.names,
          not_equal r.id s.name a.id_name,
        )
        (refl, refl)

  by_id : (r s : Record) → Apart hex_sha256 r s → (exact r.id s ≡ false) × (exact s.id r ≡ false)
  by_id r s a =
      rw
        (
          not_equal s.name r.id (λ e. a.id_name (sym e)),
          not_equal s.id r.id (λ e. a.ids (sym e)),
          not_equal r.name s.id a.name_id,
          not_equal r.id s.id a.ids,
        )
        (refl, refl)

  -- A selector that picks a record, and is foreign to all records apart from it.
  record Picks (selector : Bytes) (r : Record) : Type 0 where
    hit : exact selector r ≡ true
    miss : (s : Record) → (Apart hex_sha256 r s) ⊎ (Apart hex_sha256 s r) → exact selector s ≡ false

  select-none :
      {selector : Bytes} {r : Record} (rs : List Record)
      → Picks selector r
      → All (Apart hex_sha256 r) rs
      → select (exact selector) rs ≡ []
  select-none [] p h = refl
  select-none (s ∷ rs) p h = rw (p.miss s (inl h.0)) (select-none rs p h.1)

  select-one :
      {selector : Bytes} {r : Record} (rs : List Record)
      → Picks selector r
      → Exclusive hex_sha256 rs
      → In r rs
      → select (exact selector) rs ≡ r ∷ []
  select-one [] p e i = absurd i
  select-one {selector} {r} (s ∷ rs) p e (inl h) =
      let rest =
        select-none {selector = selector} {r = r} rs p
          (subst (λ q. All (Apart hex_sha256 q) rs) (sym h) e.0) in
      rw (← h) (rw (p.hit, rest))
  select-one {selector} {r} (s ∷ rs) p e (inr i) =
      rw (p.miss s (inr (All-In (Apart hex_sha256 s) rs e.0 i))) (select-one rs p e.1 i)

  -- Where no record collides with another, every record is found by its whole name and by its
  -- whole ID, whatever prefixes the other IDs share with these.
  pub resolve_in-In :
      (rs : List Record) (r : Record)
      → Exclusive hex_sha256 rs
      → In r rs
      → (resolve_in rs r.name ≡ ok r) × (resolve_in rs r.id ≡ ok r)
  unfolding resolve_in
  resolve_in-In rs r e i =
      let named : Picks r.name r = record {
        hit = rw (equal_self r.name);
        miss = λ s. elim [ inl a ↦ (by_name r s a).0 | inr a ↦ (by_name s r a).1 ];
      } in
      let identified : Picks r.id r = record {
        hit = ground (arith, equal_self r.id);
        miss = λ s. elim [ inl a ↦ (by_id r s a).0 | inr a ↦ (by_id s r a).1 ];
      } in
      (rw (select-one rs named e i), rw (select-one rs identified e i))
