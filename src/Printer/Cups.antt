-- ===== src/Printer/Cups.antt =====
-- internal/printer/brother.go and raw.go: the commands that the hub runs, and what answers them.
use raku_sika_hub.Prelude.{ℕ, Bool, Option, List, ◌∷◌, Option}
use raku_sika_hub.Result.{Result}
use raku_sika_hub.Commands
pub use raku_sika_hub.Commands.{pure, ◌>>=◌}
use raku_sika_hub.Printer.Lpstat.{CutArg}

-- lpstat -p NAME, lpstat -p, lpstat -d, lpstat -v NAME, lpstat -p NAME -l, lpoptions -p NAME,
-- lpoptions -p NAME -l, lpstat -W not-completed -o NAME, lpstat -W completed -o NAME.
pub data Reading : Type 0 where
  all_printers default_printer : Reading
  printer_info device_of long_state options_of option_list pending_jobs completed_jobs :
      List ℕ → Reading

-- The others: cancel -x ID, cancel -a NAME, lp -i ID -H restart, lp with a drawn label (its copies, its height and the cut options), lp -o raw with its data, and lp with the text
-- of a test print.
pub data Command : Type 0 where
  reading : Reading → Command
  cancel_id cancel_all restart_id : List ℕ → Command
  lp_label : List ℕ → ℕ → ℕ → List CutArg → Command
  lp_raw : List ℕ → List ℕ → Command
  lp_text : List ℕ → Command

-- CombinedOutput: the output, whether there is an error, and the text of the error.
pub record Outcome : Type 0 where
  pub out : List ℕ
  pub failed : Bool
  pub reason : List ℕ

pub record Url : Type 0 where
  pub scheme : List ℕ
  pub host : List ℕ
  pub port : List ℕ

-- What is outside of the program: CUPS, the parser of URLs, the network, whether the backend wrapper is
-- installed, the error of ResolveDevice for a URI, and the tables of unicode. A dialled address gives
-- the text of an error, if any.
pub record Outside : Type 0 where
  pub answer : List Command → Command → Outcome
  pub parse_url : List ℕ → Result (List ℕ) Url
  pub dial : List ℕ → List ℕ → Option (List ℕ)
  pub has_wrapper : Bool
  pub no_device : List ℕ → Option (List ℕ)
  pub is_wide : List ℕ → Bool

abbrev pub M {ℓ} : Type ℓ → Type ℓ
M A = Commands.M Command A

module _ (outside : Outside) where
  unfoldable pub run : Command → M Outcome
  run command issued = (outside.answer issued command, command ∷ issued)

  unfoldable pub read : Reading → M Outcome
  unfolding run
  read what = run (reading what)
