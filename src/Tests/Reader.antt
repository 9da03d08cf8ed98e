-- ===== src/Tests/Reader.antt =====
-- core/buffer_reader.go: a reader with a slice, a run of zeroes and a slice.
use akavefs.Prelude.{
  ◌≤◌, ◌≡◌, ◌⊎◌, refl, false, true, none, some, [], ◌∷◌, length, take, drop, arith,
}
use akavefs.MultiReader.{MultiReader, read, seek_reader, seek_target}
use akavefs.MultiReader.Rest.{content, rest, IsReader}
use akavefs.MultiReader.Reading.{read-rest}
use akavefs.MultiReader.Landing.{IsSized, Whence, whence_code, origin, Shift, shift_bits, landing}
use akavefs.MultiReader.Seeking.{seek_reader-rest}

-- The first byte is read.
abbrev reader : MultiReader
reader = record {
  buffers =
      record { bytes = 1 ∷ 2 ∷ []; zero = false; size = 2 }
      ∷ record { bytes = []; zero = true; size = 3 }
      ∷ record { bytes = 4 ∷ []; zero = false; size = 1 }
      ∷ [];
  idx = 0;
  pos = 1;
  buf_pos = 1;
  size = 6;
}

reader-IsReader : IsReader reader
reader-IsReader = record {
  buffers = ((refl, omega arith), ((refl, omega arith), ((refl, omega arith), tt)));
  within = omega arith;
}

read_rest : rest reader ≡ 2 ∷ 0 ∷ 0 ∷ 0 ∷ 4 ∷ []
read_rest = refl

read-rest_example :
    ((length reader.buffers ≤ reader.idx) × (read reader 3 ≡ some (reader, none)))
    ⊎ ((next : MultiReader) × (read reader 3 ≡ some (next, some (take 3 (rest reader))))
        × (rest next ≡ drop 3 (rest reader))
        × IsReader next)
read-rest_example = read-rest reader 3 reader-IsReader (omega arith)

reader-IsSized : IsSized reader
reader-IsSized = record { counted = refl; small = omega arith; inside = omega arith }

-- Three bytes before the end, from the position 1.
abbrev three_back : Shift
three_back = Shift.backward 3

seek_reader-rest_example :
    (next : MultiReader) × (seek_reader reader (shift_bits three_back) (whence_code Whence.seek_end)
      ≡ some (
        next,
        landing (length (content reader.buffers)) (origin reader Whence.seek_end) three_back,
      ))
    × (next.pos
        ≡ landing (length (content reader.buffers)) (origin reader Whence.seek_end) three_back)
    × (rest next
        ≡ drop
            (landing (length (content reader.buffers)) (origin reader Whence.seek_end) three_back)
            (content reader.buffers))
    × IsReader next
    × IsSized next
seek_reader-rest_example =
    seek_reader-rest reader Whence.seek_end three_back reader-IsReader.buffers reader-IsSized
      (omega arith)

three_back_target : seek_target reader (shift_bits three_back) (whence_code Whence.seek_end) ≡ 3
three_back_target = refl

-- From the position, three bytes back are before the start.
three_back_from_here :
    seek_target reader (shift_bits three_back) (whence_code Whence.seek_current) ≡ 0
three_back_from_here = refl
