-- ===== src/Job.antt =====
-- internal/printer/qlbackend/job.go: what a raster stream asks for, and its two-colour rewriting.
-- A position `i` of the source is the pair of the suffix `data[i:]` and the number `i`.
pub mod Parse
pub mod TwoColor
