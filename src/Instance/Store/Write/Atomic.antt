-- ===== src/Instance/Store/Write/Atomic.antt =====
-- The records that a directory shows, across a write that may fail at any call.
use wrap.Base.{
  ℕ, ◌≡◌, ap, ◌∙◌, ◌⊎◌, inl, inr, Bool, true, false, none, some, List, [], ◌∷◌, ◌++◌, if◌then◌else◌,
  Bytes, equal,
}
use wrap.Base.Json.{Json}
use wrap.Instance.Record.{Record}
use wrap.Instance.Store.Read.{found, is_skipped, parse_node}
use wrap.Instance.Store.Write.View.{
  view, view-put_hidden, view-erase_hidden, view-put_new, lookup-put_other, lookup-erase_none,
}
use wrap.Instance.Store.World.{
  ◌>>◌, next_fault, pure, Node, regular, World, StoreError, Result, ok, err, M, bound, attempt,
  call, refuse_if, lookup_entry, put_entry, erase_entry, update_entries,
}
use wrap.Instance.Store.Write.{
  write_file, encode_temp, install, sync_directory, fill_and_install, remove_temp, on_error,
}

-- What a run ends in: `P` after a success, `Q` after an error.
abbrev pub Ends : {A : Type 0} → (World → Type 0) → (World → Type 0) → Result A × World → Type 0
Ends P Q (ok a, w) = P w
Ends P Q (err e, w) = Q w

pub Ends-bound :
    {A B : Type 0} (P P' Q : World → Type 0) (r : Result A × World) (f : A → M B)
    → Ends P Q r
    → ((a : A) (w : World) → P w → Ends P' Q (f a w))
    → Ends P' Q (bound r f)
Ends-bound P P' Q (ok a, w) f h k = k a w h
Ends-bound P P' Q (err e, w) f h k = h

pub Ends-refuse_if :
    (P Q : World → Type 0) (b : Bool) (e : StoreError) (w : World)
    → P w
    → Q w
    → Ends P Q (refuse_if b e w)
Ends-refuse_if P Q true e w p q = q
Ends-refuse_if P Q false e w p q = p

-- A property of the entries outlives a system call, whether it fails or not.
pub Ends-call :
    (E : List (Bytes × Node) → Type 0) (Q : World → Type 0) (w : World)
    → E w.entries
    → ((v : World) → E v.entries → Q v)
    → Ends (λ v. E v.entries) Q (call w)
unfolding call attempt
Ends-call E Q w h k = Ends-refuse_if (λ v. E v.entries) Q _ _ _ h (k _ h)

pub then_call :
    {B : Type 0} (E : List (Bytes × Node) → Type 0) (P Q : World → Type 0) (w : World) (m : M B)
    → E w.entries
    → ((v : World) → E v.entries → Q v)
    → ((v : World) → E v.entries → Ends P Q (m v))
    → Ends P Q ((call >> m) w)
then_call E P Q w m h q k =
    Ends-bound (λ v. E v.entries) P Q (call w) (λ _. m) (Ends-call E Q w h q) (λ _ v g. k v g)

module _ (is_print : ℕ → Bool) (json : Json Record) (r : Record) (path temp text : Bytes)
    (before : List Record) where
  abbrev Untouched : List (Bytes × Node) → Type 0
  Untouched es = (view is_print json es ≡ before) × (lookup_entry path es ≡ none)

  abbrev Installed : List (Bytes × Node) → Type 0
  Installed es = view is_print json es ≡ before ++ (r ∷ [])

  -- After an error the new record shows, or nothing has changed.
  abbrev Either : World → Type 0
  Either w = (view is_print json w.entries ≡ before) ⊎ Installed w.entries

  module _ (temp_hidden : is_skipped temp ≡ true) (apart : equal temp path ≡ false)
      (shown : is_skipped path ≡ false)
      (parses : parse_node is_print json path (regular text) ≡ found r) where
    put_temp :
        (n : Node) (es : List (Bytes × Node)) → Untouched es → Untouched (put_entry temp n es)
    put_temp n es (v, l) = (
      view-put_hidden is_print json temp n es temp_hidden ∙ v,
      lookup-put_other path temp n es apart ∙ l,
    )

    put_path :
        (es : List (Bytes × Node))
        → Untouched es
        → Installed (put_entry path (regular text) (erase_entry temp es))
    put_path es (v, l) =
        view-put_new is_print json path (regular text) (erase_entry temp es)
          (lookup-erase_none path temp es l) shown parses
        ∙ ap (λ (rs : List Record). rs ++ (r ∷ []))
            (view-erase_hidden is_print json temp es temp_hidden ∙ v)

    encode_temp-Ends :
        (w : World)
        → Untouched w.entries
        → Ends (λ v. Untouched v.entries) Either (encode_temp temp text w)
    unfolding encode_temp
    encode_temp-Ends w h =
        then_call {B = Unit {0}} Untouched (λ v. Untouched v.entries) Either w _ h (λ v g. inl g.0)
          λ w1 h1.
            then_call {B = Unit {0}} Untouched (λ v. Untouched v.entries) Either w1 _ h1
              (λ v g. inl g.0) λ w2 h2. put_temp (regular text) w2.entries h2

    install-Ends :
        (w : World)
        → Untouched w.entries
        → Ends (λ v. Installed v.entries) Either (install temp path text w)
    unfolding install
    install-Ends w h =
        then_call {B = Unit {0}} Untouched (λ v. Installed v.entries) Either w _ h (λ v g. inl g.0)
          λ w1 h1.
            then_call {B = Unit {0}} Untouched (λ v. Installed v.entries) Either w1 _ h1
              (λ v g. inl g.0)
              λ w2 h2.
                then_call {B = Unit {0}} Untouched (λ v. Installed v.entries) Either w2 _ h2
                  (λ v g. inl g.0) λ w3 h3. put_path w3.entries h3

    sync_directory-Ends :
        (w : World)
        → Installed w.entries
        → Ends (λ v. Installed v.entries) Either (sync_directory w)
    unfolding sync_directory
    sync_directory-Ends w h =
        then_call {B = Unit {0}} Installed (λ v. Installed v.entries) Either w _ h (λ v g. inr g)
          λ w1 h1. Ends-call Installed Either w1 h1 (λ v g. inr g)

    fill_and_install-Ends :
        (w : World)
        → Untouched w.entries
        → Ends (λ v. Installed v.entries) Either (fill_and_install temp path text w)
    unfolding fill_and_install
    fill_and_install-Ends w h =
        Ends-bound {B = Unit {0}} (λ v. Untouched v.entries) (λ v. Installed v.entries) Either
          (encode_temp temp text w) _ (encode_temp-Ends w h)
          λ _ w1 h1.
            Ends-bound {B = Unit {0}} (λ v. Installed v.entries) (λ v. Installed v.entries) Either
              (install temp path text w1) _ (install-Ends w1 h1)
              λ _ w2 h2. sync_directory-Ends w2 h2

    erase-Either :
        (w : World) → Either w → Either (record w { entries = erase_entry temp w.entries })
    erase-Either w (inl e) = inl (view-erase_hidden is_print json temp w.entries temp_hidden ∙ e)
    erase-Either w (inr e) = inr (view-erase_hidden is_print json temp w.entries temp_hidden ∙ e)

    -- Whether the removal fails or not.
    removed :
        (failed : Bool) (w : World)
        → Either w
        → Either ((if failed then pure tt else update_entries (erase_entry temp)) w).1
    removed true w h = h
    removed false w h = erase-Either w h

    remove_temp-Either : (w : World) → Either w → Either (remove_temp temp w).1
    unfolding remove_temp
    remove_temp-Either w h = removed (next_fault w.faults).0 _ h

    pub write_file-Ends :
        (w : World)
        → Untouched w.entries
        → Ends (λ v. Installed v.entries) Either (write_file temp path (some text) w)
    unfolding write_file
    write_file-Ends w h =
        then_call {B = Unit {0}} Untouched (λ v. Installed v.entries) Either w _ h (λ v g. inl g.0)
          λ w1 h1.
            let w2 : World = record w1 { entries = put_entry temp (regular []) w1.entries } in
            recovered (fill_and_install temp path text w2)
              (fill_and_install-Ends w2 (put_temp (regular []) w1.entries h1))
      where
        recovered :
            (q : Result (Unit {0}) × World)
            → Ends (λ v. Installed v.entries) Either q
            → Ends (λ v. Installed v.entries) Either (on_error (remove_temp temp) q)
        recovered (ok a, v) g = g
        recovered (err e, v) g = remove_temp-Either v g
