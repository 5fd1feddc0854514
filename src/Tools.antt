-- ===== src/Tools.antt =====
-- The command-line programs under examples/. What a program prints is a text or a list of rows; flags
-- and what the client returns are arguments, logging and sleeping are left out.
pub mod Table
pub mod Programs
pub mod Streams
mod Examples
use goros.Common.{ℕ, Text, Bool, List, [], ◌∷◌, Option, none, some, if◌then◌else◌, ◌==◌}
use goros.Roserr.{GoError}
use goros.Client.Sync.{Outcome}
use goros.Ssh.Output.{cons_first}

-- `strings.Split` by a separator of one byte.
unfoldable pub split : ℕ → Text → List Text
split c [] = [] ∷ []
split c (b ∷ s) = let rest = split c s in if b == c then [] ∷ rest else cons_first b rest

-- How a program ends: `main` returns, it exits with a status after it has logged a message and an
-- error, or a nil pointer is read.
pub data Ending : Type 0 where
  returns : Ending
  exits : ℕ → Text → GoError → Ending
  panics : Ending
