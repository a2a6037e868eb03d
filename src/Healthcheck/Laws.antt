-- ===== src/Healthcheck/Laws.antt =====
-- The probe does not depend on how the answer is cut into reads.
use mathlib.Core.List.{append_assoc, append-nil}
use cyberwatch_rs.Prelude.{
  take-all, ltb, eqb, Bool-cases, Option-cases, length, take, length-append, length-take, Result,
  err, ℕ, zero, suc, ◌+◌, ◌-◌, ◌≤◌, min, ◌≡◌, refl, sym, ap, ◌∙◌, inl, inr, Bool, true, false, ◌&&◌,
  Option, none, some, List, [], ◌∷◌, ◌++◌, arith,
}
use cyberwatch_rs.Healthcheck.{
  status_line, check_http_status, max_status_bytes, probe_reads, ProbeError, Read, io,
  line_too_long, bytes,
}

module _ {ℓ} {A : Type ℓ} where
  take-append : (n : ℕ) (xs ys : List A) → take n (xs ++ ys) ≡ take n xs ++ take (n - length xs) ys
  take-append zero xs ys = let none_left : 0 - length xs ≡ 0 = omega arith in rw none_left
  take-append (suc n) [] ys = let all_left : suc n - 0 ≡ suc n = omega arith in rw all_left
  take-append (suc n) (x ∷ xs) ys =
      let one_less : suc n - suc (length xs) ≡ n - length xs = omega arith in
      rw one_less (ap (◌∷◌ x) (take-append n xs ys))

  -- What was cut off makes no difference to the first `n`.
  take-take-append : (n : ℕ) (xs ys : List A) → take n (take n xs ++ ys) ≡ take n (xs ++ ys)
  take-take-append n xs ys =
      take-append n (take n xs) ys
      ∙ (rw (take-all n (take n xs) (omega (arith, length-take n xs)), left_same n xs)
          (sym (take-append n xs ys)))
    where
      left_same : (n : ℕ) (xs : List A) → n - length (take n xs) ≡ n - length xs
      left_same n xs = omega (arith, length-take n xs)

-- Numbers that are cut at `n` or not, and are below it or not.
ltb-min : (n x r a b : ℕ) → a ≡ min n x + r → b ≡ x + r → ltb a n ≡ ltb b n
ltb-min n x r a b h k = ground arith

ltb_full : (n r a : ℕ) → a ≡ n + r → ltb a n ≡ false
ltb_full n r a h = ground arith

-- A line that ends within the first bytes is the line of all.
status_line-append :
    (xs ys line : List ℕ) → status_line xs ≡ some line → status_line (xs ++ ys) ≡ some line
unfolding status_line
status_line-append [] ys line h = cc
status_line-append (a ∷ []) ys line h = cc
status_line-append (a ∷ b ∷ rest) ys line h = elim (Bool-cases (eqb a 13 && eqb b 10)) [
  | inl e ↦ rw e (rw e at h)
  | inr e ↦ elim (Option-cases (status_line (b ∷ rest))) [
    | inl f ↦ ground arith
    | inr f ↦ ground (arith, f.1, status_line-append (b ∷ rest) ys f.0 f.1)
  ]
]

abbrev judge : Option (List ℕ) → Bool → Result ProbeError (Unit {0})
judge (some line) short = check_http_status line
judge none true = err (io "readiness probe timed out")
judge none false = err line_too_long

-- What the probe makes of the bytes of an answer, if they come at once: the line within the first 512
-- is checked, and without one it waits or refuses the answer.
unfoldable pub judged : List ℕ → Result ProbeError (Unit {0})
judged stream =
    judge (status_line (take max_status_bytes stream)) (ltb (length stream) max_status_bytes)

-- The reads of chunks that are not empty, and their bytes.
abbrev pub Chunk : Type 0
Chunk = ℕ × List ℕ

abbrev pub reads_of : List Chunk → List Read
reads_of [] = []
reads_of ((b, bs) ∷ chunks) = bytes (b ∷ bs) ∷ reads_of chunks

abbrev pub stream_of : List Chunk → List ℕ
stream_of [] = []
stream_of ((b, bs) ∷ chunks) = (b ∷ bs) ++ stream_of chunks

judged-same :
    (s t : List ℕ)
    → take max_status_bytes s ≡ take max_status_bytes t
    → ltb (length s) max_status_bytes ≡ ltb (length t) max_status_bytes
    → judged s ≡ judged t
unfolding judged
judged-same s t h k = λ i. judge (status_line (h i)) (k i)

judged-found :
    (s line : List ℕ)
    → status_line (take max_status_bytes s) ≡ some line
    → judged s ≡ check_http_status line
unfolding judged
judged-found s line h = λ i. judge (h i) (ltb (length s) max_status_bytes)

judged-none :
    (s : List ℕ) (short : Bool)
    → status_line (take max_status_bytes s) ≡ none
    → ltb (length s) max_status_bytes ≡ short
    → judged s ≡ judge none short
unfolding judged
judged-none s short h k = λ i. judge (h i) (k i)

-- One read, when the buffer is full, when it ends the line, and when it does not.
module _ (b : ℕ) (bs : List ℕ) (reads : List Read) (used : List ℕ) where
  abbrev filled : List ℕ
  filled = used ++ take (max_status_bytes - length used) (b ∷ bs)

  probe-full :
      ltb (length used) max_status_bytes ≡ false
      → probe_reads (bytes (b ∷ bs) ∷ reads) used ≡ err line_too_long
  unfolding probe_reads
  probe-full h = rw (h, probe_reads)

  probe-line :
      (line : List ℕ)
      → ltb (length used) max_status_bytes ≡ true
      → status_line filled ≡ some line
      → probe_reads (bytes (b ∷ bs) ∷ reads) used ≡ check_http_status line
  unfolding probe_reads
  probe-line line h k = rw (h, probe_reads) (rw (k, probe_reads))

  probe-more :
      ltb (length used) max_status_bytes ≡ true
      → status_line filled ≡ none
      → probe_reads (bytes (b ∷ bs) ∷ reads) used ≡ probe_reads reads filled
  unfolding probe_reads
  probe-more h k = rw (h, probe_reads) (rw (k, probe_reads))

  -- The buffer holds the first bytes of all.
  filled-take : length used ≤ max_status_bytes → filled ≡ take max_status_bytes (used ++ b ∷ bs)
  filled-take h = sym (
      take-append max_status_bytes used (b ∷ bs)
      ∙ ap (λ l. l ++ take (max_status_bytes - length used) (b ∷ bs))
          (take-all max_status_bytes used h))

  -- With more after them, the line of the first bytes is the line of all.
  found-in :
      (line rest : List ℕ)
      → length used ≤ max_status_bytes
      → status_line filled ≡ some line
      → judged ((used ++ b ∷ bs) ++ rest) ≡ check_http_status line
  found-in line rest h f = judged-found ((used ++ b ∷ bs) ++ rest) line (
      ap status_line (take-append max_status_bytes (used ++ b ∷ bs) rest)
      ∙ status_line-append (take max_status_bytes (used ++ b ∷ bs)) _ line
          (ap status_line (sym (filled-take h)) ∙ f))

  filled-judged :
      (rest : List ℕ)
      → length used ≤ max_status_bytes
      → judged (filled ++ rest) ≡ judged ((used ++ b ∷ bs) ++ rest)
  filled-judged rest h =
      ap (λ l. judged (l ++ rest)) (filled-take h)
      ∙ judged-same (take max_status_bytes (used ++ b ∷ bs) ++ rest) ((used ++ b ∷ bs) ++ rest)
          (take-take-append max_status_bytes (used ++ b ∷ bs) rest)
          (ltb-min max_status_bytes (length (used ++ b ∷ bs)) (length rest) _ _
            (length-append (take max_status_bytes (used ++ b ∷ bs)) rest
              ∙ ap (λ k. k + length rest) (length-take max_status_bytes (used ++ b ∷ bs)))
            (length-append (used ++ b ∷ bs) rest))

  filled-le : length used ≤ max_status_bytes → length filled ≤ max_status_bytes
  filled-le h =
      omega (arith, ap length (filled-take h), length-take max_status_bytes (used ++ b ∷ bs))

-- A full buffer without a line.
judged-full :
    (used rest : List ℕ)
    → length used ≡ max_status_bytes
    → status_line used ≡ none
    → judged (used ++ rest) ≡ err line_too_long
judged-full used rest h k =
    let nothing_left : max_status_bytes - length used ≡ 0 = omega arith in
    let first : take max_status_bytes (used ++ rest) ≡ used =
      take-append max_status_bytes used rest
      ∙ rw (take-all max_status_bytes used (omega arith), nothing_left) (append-nil used) in
    judged-none (used ++ rest) false (ap status_line first ∙ k) (
      ltb_full max_status_bytes (length rest) _
        (length-append used rest ∙ ap (λ k. k + length rest) h))

judged-waiting :
    (used : List ℕ)
    → length used ≤ max_status_bytes
    → status_line used ≡ none
    → judged used ≡ judge none (ltb (length used) max_status_bytes)
judged-waiting used h k =
    judged-none used _ (ap status_line (take-all max_status_bytes used h) ∙ k) refl

probe_none : (used : List ℕ) → probe_reads [] used ≡ judge none (ltb (length used) max_status_bytes)
unfolding probe_reads
probe_none used = ground arith

probe_chunks :
    (chunks : List Chunk) (used : List ℕ)
    → length used ≤ max_status_bytes
    → status_line used ≡ none
    → probe_reads (reads_of chunks) used ≡ judged (used ++ stream_of chunks)
probe_chunks [] used h k =
    probe_none used ∙ (sym (judged-waiting used h k) ∙ ap judged (sym (append-nil used)))
probe_chunks ((b, bs) ∷ chunks) used h k = elim (Bool-cases (ltb (length used) max_status_bytes)) [
  | inr e ↦
      probe-full b bs (reads_of chunks) used e
      ∙ sym (judged-full used (b ∷ bs ++ stream_of chunks) (ground arith) k)
  | inl e ↦ elim (Option-cases (status_line (filled b bs (reads_of chunks) used))) [
    | inr f ↦
        probe-line b bs (reads_of chunks) used f.0 e f.1
        ∙ sym (
            ap judged (sym (append_assoc used (b ∷ bs) (stream_of chunks)))
            ∙ found-in b bs (reads_of chunks) used f.0 (stream_of chunks) h f.1)
    | inl f ↦
        probe-more b bs (reads_of chunks) used e f
        ∙ (probe_chunks chunks (filled b bs (reads_of chunks) used)
              (filled-le b bs (reads_of chunks) used h) f
            ∙ (filled-judged b bs (reads_of chunks) used (stream_of chunks) h
                ∙ ap judged (append_assoc used (b ∷ bs) (stream_of chunks))))
  ]
]

-- However the server's answer is cut into reads, down to single bytes, the probe comes to the same
-- verdict: that of the line that ends within the first 512 bytes. Without one it waits until the
-- deadline, and refuses an answer of 512 bytes or more.
pub probe_reads_lem :
    (chunks : List Chunk) → probe_reads (reads_of chunks) [] ≡ judged (stream_of chunks)
unfolding status_line
probe_reads_lem chunks = probe_chunks chunks [] (omega arith) refl
