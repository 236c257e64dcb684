-- ===== src/Job/Parse/Commands.antt =====
-- internal/printer/qlbackend/job.go: the QL raster grammar, as the source's comments describe it, and
-- what a list of commands asks for. `parse_job` is compared with this description.
use raku_sika_hub.Prelude.{
  ℕ, ◌+◌, ◌*◌, ◌≡◌, true, not, ◌&&◌, List, [], ◌∷◌, ◌++◌, length, if◌then◌else◌, has_bit,
}
use raku_sika_hub.Job.Parse.{Job}

-- One command with its operands. A raster line's count is the length of its row.
pub data Command : Type 0 where
  invalidate print print_feed zero_line initialize status_request : Command
  compression mode_switch various_mode cut_every expanded : ℕ → Command
  margin : ℕ → ℕ → Command
  raster two_colour : ℕ → List ℕ → Command
  compressed : (n1 n2 : ℕ) (row : List ℕ) → length row ≡ n1 + n2 * 256 → Command
  print_information : (flags kind width n4 n5 n6 n7 n8 n9 n10 : ℕ) → Command

unfoldable pub render : Command → List ℕ
render invalidate = 0x00 ∷ []
render print = 0x0C ∷ []
render print_feed = 0x1A ∷ []
render zero_line = b'Z' ∷ []
render initialize = 0x1B ∷ b'@' ∷ []
render status_request = 0x1B ∷ b'i' ∷ b'S' ∷ []
render (compression b) = b'M' ∷ b ∷ []
render (mode_switch b) = 0x1B ∷ b'i' ∷ b'a' ∷ b ∷ []
render (various_mode b) = 0x1B ∷ b'i' ∷ b'M' ∷ b ∷ []
render (cut_every b) = 0x1B ∷ b'i' ∷ b'A' ∷ b ∷ []
render (expanded b) = 0x1B ∷ b'i' ∷ b'K' ∷ b ∷ []
render (margin a b) = 0x1B ∷ b'i' ∷ b'd' ∷ a ∷ b ∷ []
render (raster z row) = b'g' ∷ z ∷ length row ∷ row
render (two_colour c row) = b'w' ∷ c ∷ length row ∷ row
render (compressed n1 n2 row _) = b'G' ∷ n1 ∷ n2 ∷ row
render (print_information f k w n4 n5 n6 n7 n8 n9 n10) =
    0x1B ∷ b'i' ∷ b'z' ∷ f ∷ k ∷ w ∷ n4 ∷ n5 ∷ n6 ∷ n7 ∷ n8 ∷ n9 ∷ n10 ∷ []

unfoldable pub render_all : List Command → List ℕ
render_all [] = []
render_all (c ∷ cs) = render c ++ render_all cs

-- What a command adds to what is known of the job.
unfoldable pub note : Job → Command → Job
note job print = record job { pages = job.pages + 1 }
note job print_feed = record job { pages = job.pages + 1 }
note job (two_colour _ _) = record job { two_color = true }
note job (expanded b) = if has_bit b 0 then record job { two_color = true } else job
note job (print_information flags kind width _ _ _ _ _ _ _) =
    if not job.media.known && (has_bit flags 1 && has_bit flags 2)
    then record job { media = record { known = true; kind = kind; width_mm = width } }
    else job
note job _ = job

unfoldable pub notes : Job → List Command → Job
notes job [] = job
notes job (c ∷ cs) = notes (note job c) cs
