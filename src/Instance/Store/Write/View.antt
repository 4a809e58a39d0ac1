-- ===== src/Instance/Store/Write/View.antt =====
-- The records that a directory shows, and how a changed entry shows.
use wrap.Base.{
  ℕ, ◌≡◌, refl, inl, inr, Bool, true, false, none, List, [], ◌∷◌, ◌++◌, arith, if◌then◌else◌,
  Bool-cases, Bytes, equal, equal_iff,
}
use wrap.Base.Json.{Json}
use wrap.Instance.Record.{Record}
use wrap.Instance.Store.Read.{Outcome, found, problem, is_skipped, parse_node}
use wrap.Instance.Store.World.{Node, lookup_entry, put_entry, erase_entry}

module _ (is_print : ℕ → Bool) (json : Json Record) where
  abbrev add_found : Outcome → List Record → List Record
  add_found (found r) rs = r ∷ rs
  add_found problem rs = rs

  -- The records that are read from these entries when no call fails.
  unfoldable pub view : List (Bytes × Node) → List Record
  view [] = []
  view ((name, node) ∷ es) =
      let rest = view es in
      if is_skipped name then rest else add_found (parse_node is_print json name node) rest

  pub view-put_hidden :
      (k : Bytes) (n : Node) (es : List (Bytes × Node))
      → is_skipped k ≡ true
      → view (put_entry k n es) ≡ view es
  unfolding view put_entry
  view-put_hidden k n [] h = rw h
  view-put_hidden k n ((j, m) ∷ es) h = ground (arith, equal_iff j k, view-put_hidden k n es h)

  pub view-erase_hidden :
      (k : Bytes) (es : List (Bytes × Node))
      → is_skipped k ≡ true
      → view (erase_entry k es) ≡ view es
  unfolding view erase_entry
  view-erase_hidden k [] h = refl
  view-erase_hidden k ((j, m) ∷ es) h = ground (arith, equal_iff j k, view-erase_hidden k es h)

  view_step :
      (skipped : Bool) (o : Outcome) (rs : List Record) (r : Record)
      → (if skipped then rs ++ (r ∷ []) else add_found o (rs ++ (r ∷ [])))
        ≡ (if skipped then rs else add_found o rs) ++ (r ∷ [])
  view_step true o rs r = refl
  view_step false (found s) rs r = refl
  view_step false problem rs r = refl

  pub view-put_new :
      (k : Bytes) (n : Node) (es : List (Bytes × Node)) {r : Record}
      → lookup_entry k es ≡ none
      → is_skipped k ≡ false
      → parse_node is_print json k n ≡ found r
      → view (put_entry k n es) ≡ view es ++ (r ∷ [])
  unfolding view put_entry lookup_entry
  view-put_new k n [] l s p = rw (s, p)
  view-put_new k n ((j, m) ∷ es) {r} l s p = elim (Bool-cases (equal j k)) [
    | inl same ↦ absurd (ground arith)
    | inr other ↦
        rw (other, put_entry, view-put_new k n es {r = r} (rw (other, lookup_entry) at l) s p)
          (view_step (is_skipped j) (parse_node is_print json j m) (view es) r)
  ]

pub lookup-put_other :
    (k j : Bytes) (n : Node) (es : List (Bytes × Node))
    → equal j k ≡ false
    → lookup_entry k (put_entry j n es) ≡ lookup_entry k es
unfolding put_entry lookup_entry
lookup-put_other k j n [] h = rw h
lookup-put_other k j n ((i, m) ∷ es) h =
    ground (arith, equal_iff i j, equal_iff i k, equal_iff j k, lookup-put_other k j n es h)

pub lookup-erase_none :
    (k j : Bytes) (es : List (Bytes × Node))
    → lookup_entry k es ≡ none
    → lookup_entry k (erase_entry j es) ≡ none
unfolding erase_entry lookup_entry
lookup-erase_none k j [] h = refl
lookup-erase_none k j ((i, m) ∷ es) h = ground (arith, lookup-erase_none k j es)
