-- ===== src/Db/Checkpoints.antt =====
-- lib/boost/storagemarket/types/dealcheckpoints/checkpoints.go. A checkpoint is an `int`, and the
-- order in which Go gives the entries of the map of names is a parameter.
pub mod RoundTrip
use txcartool.Common.{
  ℕ, Bool, true, false, Option, none, some, List, [], ◌∷◌, Bytes, codes, Result, ok, err, Error,
  failed, bytes_eq, ◌==◌, if◌then◌else◌,
}

abbrev pub Checkpoint : Type 0
Checkpoint = ℕ

abbrev pub Entry : Type 0
Entry = Checkpoint × Bytes

abbrev pub accepted : Checkpoint
accepted = 0

-- `names`; the numbers are those of the constants.
abbrev pub names : List Entry
names =
    (accepted, codes "Accepted")
    ∷ (1, codes "Transferred")
    ∷ (2, codes "Published")
    ∷ (3, codes "PublishConfirmed")
    ∷ (4, codes "AddedPiece")
    ∷ (5, codes "IndexedAndAnnounced")
    ∷ (6, codes "Complete")
    ∷ []

abbrev pub complete : Checkpoint
complete = 6

unfoldable pub name_in : Checkpoint → List Entry → Bytes
name_in c [] = []
name_in c ((cp, str) ∷ es) = if cp == c then str else name_in c es

-- `String`; a number that is no checkpoint has the empty text.
unfoldable pub string : Checkpoint → Bytes
string c = name_in c names

-- `strToCP[str] = cp` for the entries, one after the other
unfoldable pub init : List Entry → (Bytes → Option Checkpoint) → Bytes → Option Checkpoint
init [] m = m
init ((cp, str) ∷ es) m = init es (λ s. if bytes_eq str s then some cp else m s)

abbrev or_unrecognized : Option Checkpoint → Result Checkpoint
or_unrecognized none = err (failed (codes "unrecognized checkpoint"))
or_unrecognized (some cp) = ok cp

unfoldable pub from_string : List Entry → Bytes → Result Checkpoint
from_string order str = or_unrecognized (init order (λ s. none) str)
