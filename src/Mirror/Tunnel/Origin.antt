-- ===== src/Mirror/Tunnel/Origin.antt =====
-- Which origin is taken for the tunnel's.
use wrap.Base.{
  ◌≡◌, refl, sym, ap, ◌∙◌, ◌≢◌, ◌↔◌, ◌⊎◌, inl, inr, false, not, ◌&&◌, Option, none, some, List, [],
  ◌∷◌, arith, if◌then◌else◌, Bool-cases, Option-cases, is_empty, All, Bytes, codes, true, equal,
  equal_iff, fields,
}
use wrap.Mirror.Tunnel.{
  trim_wrapping, ok, err, several_urls, field_origin, origin_of, collect, extract_quick_tunnel_url,
}
use wrap.Mirror.Pairing.{is_tunnel_origin}
use wrap.Mirror.Url.{Url, UrlPackage}

module _ (url : UrlPackage) where
  -- No other origin than `u`.
  abbrev pub Agrees : Bytes → Bytes → Type 0
  Agrees u field = (field_origin url field ≡ none) ⊎ (field_origin url field ≡ some u)

  -- One of the fields shows `u`.
  abbrev pub Shown : Bytes → List Bytes → Type 0
  Shown u [] = ⊥
  Shown u (f ∷ fs) = (field_origin url f ≡ some u) ⊎ Shown u fs

  record Settles (found u : Bytes) (fs : List Bytes) : Type 0 where
    some_text : u ≢ []
    agreed : All (Agrees u) fs
    shown : (found ≡ u) ⊎ ((found ≡ []) × Shown u fs)

  -- A URL with a scheme prints as some text: String writes the scheme first.
  abbrev pub Prints : Type 0
  Prints = (u : Url) → is_empty u.scheme ≡ false → url.print u ≢ []

  https-scheme : (u : Url) → is_tunnel_origin u ≡ true → is_empty u.scheme ≡ false
  unfolding is_tunnel_origin
  https-scheme u h = from_text u.scheme (ground (arith, h))
    where
      from_text : (s : Bytes) → equal s (codes "https") ≡ true → is_empty s ≡ false
      from_text [] e = unfold equal in ground (arith, e)
      from_text (c ∷ cs) e = refl

  origin_of-ne_nil : Prints → (x : Option Url) {o : Bytes} → origin_of url x ≡ some o → o ≢ []
  unfolding origin_of
  origin_of-ne_nil prints none h = cc
  origin_of-ne_nil prints (some u) h = ground (arith, h, prints u, https-scheme u)

  field_origin-ne_nil : Prints → (f : Bytes) {o : Bytes} → field_origin url f ≡ some o → o ≢ []
  unfolding field_origin
  field_origin-ne_nil prints f {o} h =
      ground (arith, h, origin_of-ne_nil prints (url.parse (trim_wrapping f)) {o = o})

  collect-none :
      (found f : Bytes) (fs : List Bytes)
      → field_origin url f ≡ none
      → collect url found (f ∷ fs) ≡ collect url found fs
  unfolding collect
  collect-none found f fs e = rw (collect, e) refl

  collect-some :
      (found f : Bytes) (fs : List Bytes) {o : Bytes}
      → field_origin url f ≡ some o
      → collect url found (f ∷ fs) ≡ (
          if not (is_empty found) && not (equal o found)
          then err several_urls
          else collect url o fs)
  unfolding collect
  collect-some found f fs e = rw (collect, e) refl

  found_by :
      (found o : Bytes)
      → (not (is_empty found) && not (equal o found)) ≡ false
      → (found ≡ o) ⊎ (found ≡ [])
  found_by [] o h = inr refl
  found_by (c ∷ s) o h = ground (arith, h, equal_iff o (c ∷ s))

  collect-Settles :
      Prints
      → (found : Bytes) (fs : List Bytes) {u : Bytes} → collect url found fs ≡ ok u
      → Settles found u fs
  unfolding collect
  collect-Settles prints [] [] h = cc
  collect-Settles prints (c ∷ s) [] h = record {
    some_text = ground (arith, h);
    agreed = tt;
    shown = inl (ground (arith, h));
  }
  collect-Settles prints found (f ∷ fs) {u} h = elim (Option-cases (field_origin url f)) [
    | inl e ↦
        let v = collect-Settles prints found fs (rw (collect-none found f fs e) at h) in
        record {
          some_text = v.some_text;
          agreed = (inl e, v.agreed);
          shown = elim v.shown [ inl p ↦ inl p | inr (n, s) ↦ inr (n, inr s) ];
        }
    | inr (o, e) ↦
        kept o e (rw (collect-some found f fs e) at h) (λ k. collect-Settles prints o fs {u = u} k)
  ]
    where
      kept :
          (o : Bytes)
          → field_origin url f ≡ some o
          → (if not (is_empty found) && not (equal o found)
              then err several_urls
              else collect url o fs)
            ≡ ok u
          → (collect url o fs ≡ ok u → Settles o u fs)
          → Settles found u (f ∷ fs)
      kept o e k next = elim (Bool-cases (not (is_empty found) && not (equal o found))) [
        | inl bad ↦ absurd (ground (arith, bad, k))
        | inr good ↦
            let v = next (ground (arith, good, k)) in
            let same : o ≡ u = elim v.shown [
              | inl p ↦ p
              | inr (n, s) ↦ absurd (field_origin-ne_nil prints f e n)
            ] in
            record {
              some_text = v.some_text;
              agreed = (inr (e ∙ ap some same), v.agreed);
              shown = elim (found_by found o good) [
                | inl p ↦ inl (p ∙ same)
                | inr n ↦ inr (n, inl (e ∙ ap some same))
              ];
            }
      ]

  allowed :
      (found u : Bytes)
      → (found ≡ u) ⊎ (found ≡ [])
      → (not (is_empty found) && not (equal u found)) ≡ false
  allowed found u (inl p) = ground (arith, p, equal_iff u found)
  allowed found u (inr n) = ground (arith, n)

  collect_done : (u : Bytes) → u ≢ [] → collect url u [] ≡ ok u
  unfolding collect
  collect_done [] h = absurd (h refl)
  collect_done (c ∷ s) h = refl

  Settles-collect :
      (found : Bytes) (fs : List Bytes) {u : Bytes}
      → Settles found u fs
      → collect url found fs ≡ ok u
  Settles-collect found [] {u} v = elim v.shown [
    | inl p ↦ rw p (collect_done u v.some_text)
    | inr (n, s) ↦ absurd s
  ]
  Settles-collect found (f ∷ fs) {u} v = elim v.agreed.0 [
    | inl e ↦
        collect-none found f fs e
        ∙ Settles-collect found fs (record {
          some_text = v.some_text;
          agreed = v.agreed.1;
          shown = elim v.shown [
            | inl p ↦ inl p
            | inr (n, inl q) ↦ absurd (ground (arith, e, q))
            | inr (n, inr s) ↦ inr (n, s)
          ];
        })
    | inr e ↦
        let open_to : (found ≡ u) ⊎ (found ≡ []) = elim v.shown [
          | inl p ↦ inl p
          | inr (n, s) ↦ inr n
        ] in
        collect-some found f fs e
        ∙ rw (allowed found u open_to) (
            Settles-collect u fs
              (record { some_text = v.some_text; agreed = v.agreed.1; shown = inl refl }))
  ]

  -- The URL of the tunnel is found exactly when some field of the output shows an origin of a Quick
  -- Tunnel and no field shows another; the hypothesis is that a URL with a scheme prints as some text.
  pub extract_quick_tunnel_url_iff :
      Prints
      → (output u : Bytes)
      → (extract_quick_tunnel_url url output ≡ ok u)
        ↔ ((u ≢ []) × All (Agrees u) (fields output) × Shown u (fields output))
  unfolding extract_quick_tunnel_url
  extract_quick_tunnel_url_iff prints output u = (
    λ h.
        let v = collect-Settles prints [] (fields output) {u = u} h in
        (
          v.some_text,
          v.agreed,
          elim v.shown [ inl p ↦ absurd (v.some_text (sym p)) | inr (n, s) ↦ s ],
        ),
    λ (some_text, agreed, shown).
        Settles-collect [] (fields output)
          (record { some_text = some_text; agreed = agreed; shown = inr (refl, shown) }),
  )
