-- ===== src/Healthcheck/Tests.antt =====
-- A ready answer in two reads.
use cyberwatch_rs.Prelude.{ok, ◌≡◌, refl, List, [], ◌∷◌}
use cyberwatch_rs.Healthcheck.{probe_reads}
use cyberwatch_rs.Healthcheck.Laws.{judged, Chunk, reads_of, stream_of, probe_reads_lem}

abbrev two_reads : List Chunk
two_reads =
    (b'H', b'T' ∷ b'T' ∷ b'P' ∷ b'/' ∷ b'1' ∷ b'.' ∷ b'1' ∷ b' ' ∷ b'2' ∷ [])
    ∷ (b'0', b'0' ∷ b' ' ∷ b'O' ∷ b'K' ∷ 13 ∷ 10 ∷ b'x' ∷ [])
    ∷ []

ready_answer : probe_reads (reads_of two_reads) [] ≡ ok tt
unfolding probe_reads
ready_answer = refl

probe_reads_lem_example : probe_reads (reads_of two_reads) [] ≡ judged (stream_of two_reads)
probe_reads_lem_example = probe_reads_lem two_reads
