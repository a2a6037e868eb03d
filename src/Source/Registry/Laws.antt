-- ===== src/Source/Registry/Laws.antt =====
-- No two adapters of a registry have the same ID.
use text.Mathlib.TextEquality.{eq_iff}
use mathlib.Core.List.{map-append, append_assoc, append-nil}
use cyberwatch_rs.Prelude.{
  ◌==◌, text_eq, All, bail_if, bind-eq-ok, then-eq-ok, ok-inj, ok, String, ◌≡◌, refl, ◌↔◌, false,
  ◌||◌, List, [], ◌∷◌, ◌++◌, map, arith,
}
use cyberwatch_rs.Prelude.Text.{trim}
use cyberwatch_rs.Prelude.Sets.{member, member-append}
use cyberwatch_rs.Source.Registry.{
  new, id_of, register, register_all, SourceAdapter, SourceRegistry, empty_id, duplicate_id,
}

-- No text occurs twice.
abbrev pub NoRepeat : List String → Type 0
NoRepeat [] = Unit {0}
NoRepeat (x ∷ xs) = (member x xs ≡ false) × NoRepeat xs

NoRepeat-append :
    (xs : List String) (x : String) → NoRepeat xs → member x xs ≡ false → NoRepeat (xs ++ x ∷ [])
unfolding member
NoRepeat-append [] x h k = (refl, tt)
NoRepeat-append (y ∷ ys) x (h, hs) k = (
  ground (arith, member-append y ys (x ∷ []), eq_iff x y, eq_iff y x),
  NoRepeat-append ys x hs (ground arith),
)

swap :
    (x y : String) (ys : List String) → (y == x || member x ys) ≡ (member x ys || member x (y ∷ []))
unfolding member
swap x y ys = ground arith

module _ {A : Type 0} ⦃adapter_of : SourceAdapter A⦄ where
  -- The set holds the adapters' IDs, and no two adapters have the same.
  pub record IsRegistry (registry : SourceRegistry A) : Type 0 where
    pub distinct_ids : NoRepeat (map id_of registry.adapters)
    pub same_ids : (id : String) → member id registry.ids ≡ member id (map id_of registry.adapters)

  pub new-IsRegistry : IsRegistry new
  new-IsRegistry = record { distinct_ids = tt; same_ids = λ id. refl }

  -- Registering keeps the IDs distinct, and adds the adapter at the end.
  pub register-IsRegistry :
      (registry : SourceRegistry A) (adapter : A) (next : SourceRegistry A)
      → IsRegistry registry
      → register registry adapter ≡ ok next
      → IsRegistry next × (next.adapters ≡ registry.adapters ++ adapter ∷ [])
  unfolding register
  register-IsRegistry registry adapter next r h =
      let (named, h1) = then-eq-ok (bail_if (trim (id_of adapter) == "") empty_id) h in
      let (fresh, h2) =
        then-eq-ok (bail_if (member (id_of adapter) registry.ids) (duplicate_id (id_of adapter)))
          h1 in
      rw (← ok-inj h2) (
        record {
          distinct_ids = rw (map-append id_of registry.adapters (adapter ∷ [])) (
              NoRepeat-append (map id_of registry.adapters) (id_of adapter) r.distinct_ids
                (ground (arith, r.same_ids (id_of adapter))));
          same_ids = λ id.
              rw
                (
                  map-append id_of registry.adapters (adapter ∷ []),
                  member-append id (map id_of registry.adapters) (id_of adapter ∷ []),
                  r.same_ids id,
                )
                (swap id (id_of adapter) (map id_of registry.adapters));
        },
        refl,
      )

  register-ok :
      (registry : SourceRegistry A) (adapter : A)
      → (trim (id_of adapter) == "") ≡ false
      → member (id_of adapter) registry.ids ≡ false
      → register registry adapter
        ≡ ok (record {
          adapters = registry.adapters ++ adapter ∷ [];
          ids = id_of adapter ∷ registry.ids;
        })
  unfolding register
  register-ok registry adapter h k = rw (h, k) refl

  register_all_sound :
      (registry : SourceRegistry A) (adapters : List A) (final : SourceRegistry A)
      → IsRegistry registry
      → register_all registry adapters ≡ ok final
      → IsRegistry final × (final.adapters ≡ registry.adapters ++ adapters)
  unfolding register_all
  register_all_sound registry [] final r h = rw (← ok-inj h, append-nil registry.adapters) (r, refl)
  register_all_sound registry (adapter ∷ more) final r h =
      let (next, h0, h1) = bind-eq-ok (register registry adapter) _ h in
      let (r1, e1) = register-IsRegistry registry adapter next r h0 in
      let (r2, e2) = register_all_sound next more final r1 h1 in
      (r2, rw (e2, e1) (append_assoc registry.adapters (adapter ∷ []) more))

  -- The adapter has a name that is not blank.
  abbrev pub Named : A → Type 0
  Named adapter = (trim (id_of adapter) == "") ≡ false

  register_all-Named :
      (registry : SourceRegistry A) (adapters : List A) (final : SourceRegistry A)
      → register_all registry adapters ≡ ok final
      → All Named adapters
  unfolding register_all register
  register_all-Named registry [] final h = tt
  register_all-Named registry (adapter ∷ more) final h =
      let (next, h0, h1) = bind-eq-ok (register registry adapter) _ h in
      let (named, h2) = then-eq-ok (bail_if (trim (id_of adapter) == "") empty_id) h0 in
      (ground arith, register_all-Named next more final h1)

  fresh-after :
      (registry : SourceRegistry A) (id : String) (adapters : List A)
      → member id (map id_of adapters) ≡ false
      → All (λ adapter. member (id_of adapter) registry.ids ≡ false) adapters
      → All (λ adapter. member (id_of adapter) (id ∷ registry.ids) ≡ false) adapters
  unfolding member
  fresh-after registry id [] h k = tt
  fresh-after registry id (adapter ∷ more) h (k, ks) = (
    ground (arith, eq_iff id (id_of adapter), eq_iff (id_of adapter) id),
    fresh-after registry id more (ground arith) ks,
  )

  register_all_complete :
      (adapters : List A) (registry : SourceRegistry A)
      → All Named adapters
      → NoRepeat (map id_of adapters)
      → All (λ adapter. member (id_of adapter) registry.ids ≡ false) adapters
      → (final : SourceRegistry A) × (register_all registry adapters ≡ ok final)
  unfolding register_all
  register_all_complete [] registry n d f = (registry, refl)
  register_all_complete (adapter ∷ more) registry (n, ns) (d, ds) (f, fs) =
      rw (register-ok registry adapter n f)
        (register_all_complete more _ ns ds (fresh-after registry (id_of adapter) more d fs))

  All-new : (adapters : List A) → All (λ adapter. member (id_of adapter) [] ≡ false) adapters
  unfolding member
  All-new [] = tt
  All-new (adapter ∷ more) = (refl, All-new more)

  -- The adapters of a list become a registry exactly when none has a blank ID and no two have the
  -- same; the registry then holds them in the list's order.
  pub register_all_iff :
      (adapters : List A)
      → ((final : SourceRegistry A) × (register_all new adapters ≡ ok final)
          × (final.adapters ≡ adapters))
        ↔ (All Named adapters × NoRepeat (map id_of adapters))
  register_all_iff adapters = (
    (λ (final, h, e).
        let (r, _) = register_all_sound new adapters final new-IsRegistry h in
        (register_all-Named new adapters final h, rw (← e) r.distinct_ids)),
    (λ (n, d).
        let (final, h) = register_all_complete adapters new n d (All-new adapters) in
        let (r, e) = register_all_sound new adapters final new-IsRegistry h in (final, h, e)),
  )
