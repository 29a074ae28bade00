-- ===== src/Tests/ResealRuns.antt =====
-- The theorems about the reseal command at concrete inputs.
use txcartool.Common.{
  ◌+◌, ℕ, ◌≡◌, ◌*◌, ◌≤◌, ◌⊎◌, refl, true, false, [], ◌∷◌, Bytes, Result, ok, All, bytes_eq, arith,
}
use txcartool.Reseal.{SectorSealInfo, SectorMeta}
use txcartool.Reseal.SidFile.{read_sector_seal_infos}
use txcartool.Reseal.SidFile.Texts.{IsWordByte, decimal_digits}
use txcartool.Reseal.SidFile.RoundTrip.{CanBeWritten, file_text, read_sector_seal_infos-file_text}
use txcartool.Reseal.Stages.{PieceInfo, PathType, World, redo_sector, sector_meta, Call}
use txcartool.Reseal.Stages.Checked.{IsAllowed, redo_sector-IsAllowed}
use txcartool.Reseal.Stages.Whole.{HasPiece, Works, redo_sector-wrong_piece}
use txcartool.Reseal.Pool.{Stage, Phase, Limits, Pool, Run, step, advance}
use txcartool.Reseal.Pool.Bounds.{IsCounted, start_pool, Run-IsCounted}
use txcartool.Reseal.Pool.Termination.{IsFinished, Completion, Run-completes}
use txcartool.Reseal.Pool.Progress.{CanStep, Run-CanStep}

-- keys are texts
abbrev parse_key : Bytes → Result Bytes
parse_key b = ok b

abbrev print_key : Bytes → Bytes
print_key b = b

abbrev with_data : SectorSealInfo Bytes
with_data = record { sid = 7; seal_type = 80 ∷ 81 ∷ []; is_dc = true; car_key = 97 ∷ [] }

abbrev without_data : SectorSealInfo Bytes
without_data = record { sid = 12; seal_type = 65 ∷ 80 ∷ []; is_dc = false; car_key = [] }

word_byte : (c : ℕ) → 59 ≤ c → IsWordByte c
word_byte c h = (λ e. omega arith, (λ e. omega arith, (λ e. omega arith, λ e. omega arith)))

with_data-CanBeWritten : CanBeWritten Bytes [] parse_key print_key with_data
unfolding decimal_digits
with_data-CanBeWritten = record {
  sid_bound = omega arith;
  word = (word_byte 80 (omega arith), (word_byte 81 (omega arith), tt));
  key = ((word_byte 97 (omega arith), tt), refl);
  short = omega arith;
}

without_data-CanBeWritten : CanBeWritten Bytes [] parse_key print_key without_data
unfolding decimal_digits
without_data-CanBeWritten = record {
  sid_bound = omega arith;
  word = (word_byte 65 (omega arith), (word_byte 80 (omega arith), tt));
  key = refl;
  short = omega arith;
}

read_sector_seal_infos-file_text_example :
    read_sector_seal_infos Bytes [] parse_key
      (file_text Bytes [] parse_key print_key (with_data ∷ without_data ∷ []))
    ≡ ok (with_data ∷ without_data ∷ [])
read_sector_seal_infos-file_text_example =
    read_sector_seal_infos-file_text Bytes [] parse_key print_key (with_data ∷ without_data ∷ [])
      (with_data-CanBeWritten, (without_data-CanBeWritten, tt))

abbrev row : SectorMeta
row = record { ticket_value = 6 ∷ []; orig_unsealed_cid = 1 ∷ []; orig_sealed_cid = 2 ∷ [] }

abbrev world : World Bytes
world = record {
  select_meta = λ sid. ok (row ∷ []);
  select_pipeline = λ sid. ok [];
  decode = λ text. ok text;
  cid_text = λ c. c;
  create_car = λ key. ok (record { size = 2048; piece_cid = 1 ∷ [] });
  create_unsealed = λ key. ok tt;
  acquire = λ sid. ok tt;
  has_done = λ sid. true;
  rename = λ sid. ok tt;
  seal1 = λ sid ticket pieces. ok (9 ∷ []);
  seal2 = λ sid out. ok (2 ∷ []);
  finalize = λ sid. ok tt;
  path_types = PathType.ft_other ∷ PathType.ft_sealed ∷ PathType.ft_cache ∷ [];
  seal_path = λ pt sid. 3 ∷ sid ∷ [];
  storage_path = λ pt sid. 4 ∷ sid ∷ [];
  unsealed_path = λ sid. 5 ∷ sid ∷ [];
  expand = λ path. ok path;
  base = λ path. [];
  dir = λ path. 4 ∷ [];
  is_darwin = false;
  mkdir = λ path. ok tt;
  mv = λ from' to'. ok tt;
  rm = λ path. ok tt;
}

redo_sector-IsAllowed_example : All (IsAllowed world with_data) (redo_sector world with_data []).1
redo_sector-IsAllowed_example = redo_sector-IsAllowed world with_data

abbrev piece : PieceInfo
piece = record { size = 2048; piece_cid = 1 ∷ [] }

world-Works : Works world with_data row piece (9 ∷ []) (2 ∷ []) (2 ∷ [])
unfolding sector_meta
world-Works = record {
  car = record { has_row = refl; has_orig = refl; has_car = refl };
  has_unsealed = refl;
  has_done = refl;
  acquires = refl;
  renames = refl;
  seals1 = refl;
  seals2 = refl;
  has_orig_sealed = refl;
  same_sealed = refl;
}

-- the database has another piece
abbrev other_row : SectorMeta
other_row = record row { orig_unsealed_cid = 8 ∷ [] }

abbrev other_world : World Bytes
other_world = record world { select_meta = λ sid. ok (other_row ∷ []) }

other_world-HasPiece : HasPiece other_world without_data other_row piece (8 ∷ [])
unfolding sector_meta
other_world-HasPiece = record { has_row = refl; has_orig = refl; has_car = refl }

redo_sector-wrong_piece_example :
    redo_sector other_world without_data [] ≡ (ok tt, Call.create_car_file [] ∷ [])
unfolding bytes_eq
redo_sector-wrong_piece_example =
    redo_sector-wrong_piece other_world without_data other_row piece (8 ∷ []) (9 ∷ []) true
      other_world-HasPiece refl refl refl

-- Of two sectors, the first has come to the first stage.
abbrev limits : Limits
limits = record { smax = 1; p1max = 1 }

abbrev after_three : Pool
after_three = record {
  channels = record { sectors = 1; ap = 1; p1 = 0; p2 = 0; fin = 0 };
  workers = Phase.inside Stage.add_piece ∷ Phase.queued ∷ [];
}

three_steps : Run limits (start_pool 2) 3 after_three
unfolding step advance
three_steps = Run.more 0 true (Run.more 0 true (Run.more 0 true Run.start refl) refl) refl

Run-IsCounted_example : IsCounted limits after_three
Run-IsCounted_example = Run-IsCounted limits 2 3 after_three three_steps

Run-completes_example :
    (IsFinished after_three ⊎ CanStep limits after_three)
    × (c : Completion limits after_three) × (3 + c.left ≤ 11 * 2)
Run-completes_example = Run-completes limits 2 3 after_three three_steps (omega arith) (omega arith)

Run-CanStep_example : All (λ ph. ph ≡ Phase.ended) after_three.workers ⊎ CanStep limits after_three
Run-CanStep_example = Run-CanStep limits 2 3 after_three three_steps (omega arith) (omega arith)
