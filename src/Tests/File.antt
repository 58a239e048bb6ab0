-- ===== src/Tests/File.antt =====
-- Files that are read in two parts.
use ryze.Base.{◌≡◌, refl, false, true, some, List, [], ◌∷◌, ok, out_of_fuel, arith}
use ryze.Util.File.{Fread, read_file, text_of, read_file-text_of, read_file-endless}

abbrev parts : List Fread
parts =
    record { bytes = 1 ∷ 2 ∷ []; failed = false } ∷ record { bytes = 3 ∷ []; failed = false } ∷ []

read_file-text_of_example :
    read_file true 3 parts ≡ ok (record { text = some (1 ∷ 2 ∷ 3 ∷ []); closed = true })
unfolding text_of
read_file-text_of_example = read_file-text_of parts (refl, (refl, tt))

read_file-endless_example : read_file true 4 parts ≡ out_of_fuel
unfolding text_of
read_file-endless_example = read_file-endless 4 parts (refl, (refl, tt)) (omega arith)
