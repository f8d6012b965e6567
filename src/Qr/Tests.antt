-- ===== src/Qr/Tests.antt =====
-- Runs of the encoder on concrete inputs, and its theorems at inputs that meet their hypotheses.
use mathlib.Core.List.{Perm, flatten}
use freenetic.Base.{
  ℕ, ◌+◌, ◌*◌, get_or, ◌<◌, ◌≤◌, bit_xor, ◌≡◌, ◌⊎◌, inr, refl, Bool, true, not, List, [], ◌∷◌, ◌++◌,
  none, some, codes, Text, length, take, for_range, for_each, arith,
}
use freenetic.Qr.Field.{init_gf256, gmul}
use freenetic.Qr.Field.Laws.{carryless, gmul-carryless}
use freenetic.Qr.Rs.{generator_polynomial, rs_encode}
use freenetic.Qr.Rs.Divides.{poly_mul}
use freenetic.Qr.Rs.Generator.{rs_encode-divides}
use freenetic.Qr.Blocks.{
  low, medium, Picked, capacity_bytes, count_bits, pick_version, try_versions,
}
use freenetic.Qr.Blocks.Pick.{Fits, IsFirst, pick_version-IsFirst}
use freenetic.Qr.Buffer.{empty, put_bit, put}
use freenetic.Qr.Buffer.Bits.{Holds, bits_of, put-Holds, empty-Holds, pack}
use freenetic.Qr.Codewords.{
  build_data_codewords, header_and_data, put_all, align, fill, pad_byte, terminate,
}
use freenetic.Qr.Codewords.Layout.{unpack, falses, padding, build_data_codewords-layout}
use freenetic.Qr.Codewords.Decode.{decode, decode-build_data_codewords}
use freenetic.Qr.Bch.{version_bits, format_bits}
use freenetic.Qr.Bch.Laws.{ones, version_bits-distance, format_bits-distance}
use freenetic.Qr.Interleave.{interleave}
use freenetic.Qr.Interleave.Order.{interleave-perm}
use freenetic.Qr.Matrix.{
  get_cell, function_patterns, blank, place_finder, place_alignments, place_timing, place_format,
  place_version, reserve,
}
use freenetic.Qr.Matrix.Placement.{Cursor, sweep, build_matrix}
use freenetic.Qr.Matrix.Untouched.{build_matrix-untouched}
use freenetic.Qr.Matrix.Sweep.{edge, sweep_turns}
use freenetic.Qr.Matrix.Complete.{build_matrix_complete}
use freenetic.Qr.Encode.{Symbol, utf8_bytes, encode, throws, too_long, symbol}
use freenetic.Qr.Encode.Outcomes.{Carries, encode_outcomes}

abbrev hi : Text
hi = codes "hi"

-- 40 D2 06 86 90 EC 11 …: the mode, the length 2, the letters and the padding.
codewords_run :
    take 7 (build_data_codewords hi 1 medium) ≡ 0x40 ∷ 0x26 ∷ 0x86 ∷ 0x90 ∷ 0xec ∷ 0x11 ∷ 0xec ∷ []
unfolding build_data_codewords header_and_data put_all put put_bit empty align fill pad_byte
    terminate capacity_bytes count_bits
codewords_run = refl

-- The format word of level M with mask 0, from the standard's table.
format_run : (format_bits medium 0 ≡ 0x5412) × (format_bits low 0 ≡ 0x77c4)
unfolding format_bits
format_run = (refl, refl)

-- The version word of version 7, from the standard's table.
version_run : version_bits 7 ≡ 0x07c94
unfolding version_bits
version_run = refl

pick_run :
    (pick_version 14 ≡ some (record { version = 1; ec_level = medium })) × (pick_version 272 ≡ none)
unfolding pick_version try_versions capacity_bytes count_bits
pick_run = (refl, refl)

gmul-carryless_example : gmul init_gf256 7 200 ≡ carryless 8 7 200
gmul-carryless_example = gmul-carryless 7 200 (omega arith) (omega arith)

rs_encode-divides_example :
    (q : List ℕ) × (length q ≡ 2)
    × (hi ++ rs_encode init_gf256 hi 10
        ≡ poly_mul init_gf256 q (generator_polynomial init_gf256 10))
    × (length (rs_encode init_gf256 hi 10) ≡ 10)
rs_encode-divides_example = rs_encode-divides hi 10 (omega arith)

pick_version-IsFirst_example :
    ((p : Picked) × (pick_version 20 ≡ some p) × IsFirst 20 1 10 medium p)
    ⊎ (((v : ℕ) → 1 ≤ v → v < 11 → ¬ Fits 20 v medium)
        × (((p : Picked) × (pick_version 20 ≡ some p) × IsFirst 20 1 10 low p)
            ⊎ ((pick_version 20 ≡ none) × ((v : ℕ) → 1 ≤ v → v < 11 → ¬ Fits 20 v low))))
pick_version-IsFirst_example = pick_version-IsFirst 20

put-Holds_example : Holds (put empty 0xa5 8) ([] ++ bits_of 0xa5 8)
put-Holds_example = put-Holds empty [] 0xa5 8 empty-Holds

decode_example : decode (count_bits 1) (build_data_codewords hi 1 medium) ≡ some hi
unfolding count_bits capacity_bytes
decode_example = decode-build_data_codewords hi 1 medium (omega arith) (omega arith) (omega arith)

version_bits-distance_example : 8 ≤ ones 18 (bit_xor (version_bits 7) (version_bits 8))
version_bits-distance_example = version_bits-distance 7 8 (omega arith) (omega arith) (omega arith)

format_bits-distance_example : 7 ≤ ones 15 (bit_xor (format_bits low 0) (format_bits low 1))
format_bits-distance_example =
    format_bits-distance low low 0 1 (omega arith) (omega arith) (inr (omega arith))

interleave-perm_example :
    Perm
      (interleave ((1 ∷ 2 ∷ []) ∷ (3 ∷ 4 ∷ 5 ∷ []) ∷ []) ((6 ∷ []) ∷ (7 ∷ []) ∷ []))
      (flatten ((1 ∷ 2 ∷ []) ∷ (3 ∷ 4 ∷ 5 ∷ []) ∷ []) ++ flatten ((6 ∷ []) ∷ (7 ∷ []) ∷ []))
interleave-perm_example =
    interleave-perm ((1 ∷ 2 ∷ []) ∷ (3 ∷ 4 ∷ 5 ∷ []) ∷ []) ((6 ∷ []) ∷ (7 ∷ []) ∷ [])

finder_corner : get_cell (function_patterns 1 medium).reserved 0 0 ≡ some true
unfolding function_patterns blank place_finder place_alignments place_timing place_format
    place_version reserve for_range for_each
finder_corner = refl

build_matrix-untouched_example :
    get_cell (build_matrix 1 medium (0x40 ∷ [])) 0 0
    ≡ get_cell (function_patterns 1 medium).matrix 0 0
build_matrix-untouched_example = build_matrix-untouched 1 medium (0x40 ∷ []) 0 0 finder_corner

build_matrix_complete_example :
    (length (build_matrix 1 low (0x40 ∷ [])) ≡ 4 * 1 + 17)
    × (length (get_or (build_matrix 1 low (0x40 ∷ [])) 20 []) ≡ 4 * 1 + 17)
    × ((dark : Bool) × (get_cell (build_matrix 1 low (0x40 ∷ [])) 20 20 ≡ some (some dark)))
build_matrix_complete_example =
    build_matrix_complete 1 low (0x40 ∷ []) 20 20 (omega arith) (omega arith) (omega arith)

abbrev at_bottom : Cursor
at_bottom = record {
  grid = record { matrix = []; reserved = [] };
  row = 20;
  up = true;
  bit_index = 7;
  byte_index = 0;
}

sweep_turns_example :
    ((sweep (0x40 ∷ []) 21 21 20 at_bottom).up ≡ not true)
    × ((sweep (0x40 ∷ []) 21 21 20 at_bottom).row ≡ edge 21 (not true))
unfolding edge
sweep_turns_example = sweep_turns (0x40 ∷ []) 21 20 true at_bottom (omega arith) refl refl

encode_outcomes_example :
    ((encode hi ≡ throws) × (utf8_bytes hi ≡ none))
    ⊎ ((bytes : List ℕ) × (utf8_bytes hi ≡ some bytes)
        × (((encode hi ≡ too_long) × (271 < length bytes))
            ⊎ ((rows : Symbol) × (encode hi ≡ symbol rows)
                × (length bytes ≤ 271)
                × Carries bytes rows)))
encode_outcomes_example = encode_outcomes hi (omega arith)

build_data_codewords-layout_example :
    (k pads : ℕ) × (bits : List Bool) × (build_data_codewords hi 1 medium ≡ pack bits)
    × (bits
        ≡ ((bits_of 4 4 ++ bits_of (length hi) (count_bits 1) ++ unpack hi)
            ++ bits_of 0 4
            ++ falses k)
          ++ unpack (padding pads 0))
    × (length bits ≡ 8 * capacity_bytes 1 medium)
    × (length (build_data_codewords hi 1 medium) ≡ capacity_bytes 1 medium)
    × (k < 8)
unfolding count_bits capacity_bytes
build_data_codewords-layout_example = build_data_codewords-layout hi 1 medium (omega arith)
