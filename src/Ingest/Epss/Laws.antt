-- ===== src/Ingest/Epss/Laws.antt =====
-- What is asked for, and what the scores are.
use mathlib.Core.List.{append_assoc}
use mathlib.Core.Path.{subst}
use cyberwatch_rs.Prelude.{
  Bool-cases, Option-cases, length, take, drop, All, length-take, length-drop-le, take-append-drop,
  ok_or, bind-eq-ok, ok-inj, Result, ok, ℕ, zero, suc, ◌-◌, ◌≤◌, ◌<◌, String, ◌≡◌, refl, sym, ap,
  ◌∙◌, inl, inr, true, ◌&&◌, some, List, [], ◌∷◌, ◌++◌, map, arith,
}
use cyberwatch_rs.Prelude.Text.{to_ascii_uppercase}
use cyberwatch_rs.Prelude.Table.{upsert-All, Table}
use cyberwatch_rs.Prelude.Float.{Float}
use cyberwatch_rs.Models.{EpssScore}
use cyberwatch_rs.Ingest.Json.{◌>>?◌, Crates}
use cyberwatch_rs.Ingest.Epss.{
  chunks_from, chunks, in_unit, number, add_score, add_scores, fetch_chunks, fetch_scores,
}

abbrev pub concat {ℓ} : {A : Type ℓ} → List (List A) → List A
concat [] = []
concat (xs ∷ rest) = xs ++ concat rest

module _ {ℓ} {A : Type ℓ} where
  concat-chunks_from :
      (fuel size : ℕ) (xs : List A) → length xs ≤ fuel → concat (chunks_from fuel size xs) ≡ xs
  unfolding chunks_from
  concat-chunks_from zero size [] h = refl
  concat-chunks_from zero size (x ∷ xs) h = absurd (omega arith)
  concat-chunks_from (suc fuel) size [] h = refl
  concat-chunks_from (suc fuel) size (x ∷ xs) h = ap (◌∷◌ x) (
      ap (λ l. take (size - 1) xs ++ l)
        (concat-chunks_from fuel size (drop (size - 1) xs)
          (omega (arith, length-drop-le (size - 1) xs)))
      ∙ take-append-drop (size - 1) xs)

  chunks_from-le :
      (fuel size : ℕ) (xs : List A)
      → 0 < size
      → All (λ chunk. length chunk ≤ size) (chunks_from fuel size xs)
  unfolding chunks_from
  chunks_from-le zero size xs h = tt
  chunks_from-le (suc fuel) size [] h = tt
  chunks_from-le (suc fuel) size (x ∷ xs) h =
      (omega (arith, length-take (size - 1) xs), chunks_from-le fuel size (drop (size - 1) xs) h)

  -- Every ID is in exactly one request, in order, and no request has more than its share.
  pub chunks_lem :
      (size : ℕ) (xs : List A)
      → 0 < size
      → (concat (chunks size xs) ≡ xs) × All (λ chunk. length chunk ≤ size) (chunks size xs)
  unfolding chunks
  chunks_lem size xs h =
      (concat-chunks_from (length xs) size xs (omega arith), chunks_from-le (length xs) size xs h)

concat-map-append {ℓ κ} :
    {A : Type ℓ} {B : Type κ} (f : A → List B) (xs ys : List A)
    → concat (map f (xs ++ ys)) ≡ concat (map f xs) ++ concat (map f ys)
concat-map-append f [] ys = refl
concat-map-append f (x ∷ xs) ys =
    ap (λ l. f x ++ l) (concat-map-append f xs ys)
    ∙ sym (append_assoc (f x) (concat (map f xs)) (concat (map f ys)))

module _ {F : Type 0} ⦃float : Float F⦄ where
  abbrev pub InUnit : EpssScore F → Type 0
  InUnit score = (in_unit score.probability && in_unit score.percentile) ≡ true

  abbrev pub AllInUnit : Table (EpssScore F) → Type 0
  AllInUnit scores = All (λ (row : String × EpssScore F). InUnit row.1) scores

module _ {F : Type 0} (crates : Crates F) ⦃float : Float F⦄ where
  add_score-InUnit :
      (row : crates.Value) (scores : Table (EpssScore F))
      → AllInUnit scores
      → AllInUnit (add_score crates row scores)
  add_score-InUnit row scores a = elim (Option-cases (crates.get row "cve" >>? crates.as_str)) [
    | inl e ↦ rw (add_score, e) a
    | inr (cve, ec) ↦ elim (Option-cases (number crates (crates.get row "epss"))) [
      | inl e ↦ rw (add_score, ec, e) a
      | inr (p, ep) ↦ elim (Option-cases (number crates (crates.get row "percentile"))) [
        | inl e ↦ rw (add_score, ec, ep, e) a
        | inr (q, eq) ↦ elim (Bool-cases (in_unit p && in_unit q)) [
          | inl e ↦
              rw (add_score, ec, ep, eq, e)
                (upsert-All (λ (row : String × EpssScore F). InUnit row.1) (to_ascii_uppercase cve)
                  (record { probability = p; percentile = q }) scores e a)
          | inr e ↦ rw (add_score, ec, ep, eq, e) a
        ]
      ]
    ]
  ]

  add_scores-InUnit :
      (rows : List crates.Value) (scores : Table (EpssScore F))
      → AllInUnit scores
      → AllInUnit (add_scores crates rows scores)
  unfolding add_scores
  add_scores-InUnit [] scores a = a
  add_scores-InUnit (row ∷ rows) scores a =
      add_scores-InUnit rows (add_score crates row scores) (add_score-InUnit row scores a)

  fetch_chunks-InUnit :
      (ask : List String → Result String crates.Value) (asked : List (List String))
      (scores after : Table (EpssScore F))
      → AllInUnit scores
      → fetch_chunks crates ask asked scores ≡ ok after
      → AllInUnit after
  unfolding fetch_chunks
  fetch_chunks-InUnit ask [] scores after a h = subst AllInUnit (ok-inj h) a
  fetch_chunks-InUnit ask (chunk ∷ rest) scores after a h =
      let payload = bind-eq-ok (ask chunk) _ h in
      let rows =
        bind-eq-ok (ok_or (crates.get payload.0 "data" >>? crates.as_array) _) _ payload.2 in
      fetch_chunks-InUnit ask rest (add_scores crates rows.0 scores) after
        (add_scores-InUnit rows.0 scores a) rows.2

  -- Whatever the service answers, each score that a lookup takes over is a pair of numbers between
  -- zero and one, where the lookup succeeds.
  pub fetch_scores-InUnit :
      (ask : List String → Result String crates.Value) (cve_ids : List String)
      (scores : Table (EpssScore F))
      → fetch_scores crates ask cve_ids ≡ ok scores
      → AllInUnit scores
  unfolding fetch_scores
  fetch_scores-InUnit ask cve_ids scores h =
      fetch_chunks-InUnit ask (chunks 100 cve_ids) [] scores tt h

  -- A service that answers each request of at most 100 IDs with the rows that it has of them, in
  -- their order; of a longer request nothing is known.
  abbrev pub Serves :
      (List String → Result String crates.Value) → (String → List crates.Value) → Type 0
  Serves ask rows_of =
      (chunk : List String)
      → length chunk ≤ 100
      → (payload : crates.Value) × (ask chunk ≡ ok payload)
        × ((crates.get payload "data" >>? crates.as_array) ≡ some (concat (map rows_of chunk)))

  add_scores-append :
      (xs ys : List crates.Value) (scores : Table (EpssScore F))
      → add_scores crates (xs ++ ys) scores ≡ add_scores crates ys (add_scores crates xs scores)
  unfolding add_scores
  add_scores-append [] ys scores = refl
  add_scores-append (row ∷ xs) ys scores = add_scores-append xs ys (add_score crates row scores)

  module _ (ask : List String → Result String crates.Value) (rows_of : String → List crates.Value)
      (serves : Serves ask rows_of) where
    fetch_chunks-served :
        (asked : List (List String)) (scores : Table (EpssScore F))
        → All (λ chunk. length chunk ≤ 100) asked
        → fetch_chunks crates ask asked scores
          ≡ ok (add_scores crates (concat (map rows_of (concat asked))) scores)
    unfolding fetch_chunks add_scores
    fetch_chunks-served [] scores h = refl
    fetch_chunks-served (chunk ∷ rest) scores h =
        let (payload, answered, data_rows) = serves chunk h.0 in
        rw (answered, data_rows)
          (fetch_chunks-served rest (add_scores crates (concat (map rows_of chunk)) scores) h.1
            ∙ ap ok (
                sym (
                  add_scores-append (concat (map rows_of chunk))
                    (concat (map rows_of (concat rest))) scores)
                ∙ ap (λ rows. add_scores crates rows scores)
                    (sym (concat-map-append rows_of chunk (concat rest)))))

    -- Where the service answers each request of at most 100 IDs with the rows that it has of them, in
    -- their order, a lookup succeeds, however many IDs it has and whatever the service makes of
    -- longer requests: it takes in the rows of every ID once, in the order of the IDs, and nothing
    -- else.
    pub fetch_scores_lem :
        (cve_ids : List String)
        → fetch_scores crates ask cve_ids ≡ ok (add_scores crates (concat (map rows_of cve_ids)) [])
    unfolding fetch_scores
    fetch_scores_lem cve_ids =
        let asked = chunks_lem 100 cve_ids (omega arith) in
        fetch_chunks-served (chunks 100 cve_ids) [] asked.1
        ∙ ap (λ ids. ok (add_scores crates (concat (map rows_of ids)) [])) asked.0
