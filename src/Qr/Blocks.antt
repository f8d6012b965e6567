-- ===== src/Qr/Blocks.antt =====
-- Versions and error-correction levels of freenetic-qrcode.js: the block table RS_BLOCKS,
-- `capacityBytes` and `pickVersion`.
pub mod Pick
use freenetic.Base.{
  ℕ, zero, suc, ◌+◌, ◌-◌, ◌*◌, List, [], ◌∷◌, Option, none, some, leb, if◌then◌else◌, get_or,
  or_else,
}

pub data EcLevel : Type 0 where
  low medium : EcLevel

-- [ blockCount, totalCodewordsPerBlock, dataCodewordsPerBlock ]
pub record Group : Type 0 where
  pub count : ℕ
  pub total : ℕ
  pub payload : ℕ

abbrev group : ℕ → ℕ → ℕ → Group
group count total payload = record { count = count; total = total; payload = payload }

-- RS_BLOCKS.L and RS_BLOCKS.M, versions 1 to 10
unfoldable pub rs_blocks : EcLevel → List (List Group)
rs_blocks low =
    (group 1 26 19 ∷ [])
    ∷ (group 1 44 34 ∷ [])
    ∷ (group 1 70 55 ∷ [])
    ∷ (group 1 100 80 ∷ [])
    ∷ (group 1 134 108 ∷ [])
    ∷ (group 2 86 68 ∷ [])
    ∷ (group 2 98 78 ∷ [])
    ∷ (group 2 121 97 ∷ [])
    ∷ (group 2 146 116 ∷ [])
    ∷ (group 2 86 68 ∷ group 2 87 69 ∷ [])
    ∷ []
rs_blocks medium =
    (group 1 26 16 ∷ [])
    ∷ (group 1 44 28 ∷ [])
    ∷ (group 1 70 44 ∷ [])
    ∷ (group 2 50 32 ∷ [])
    ∷ (group 2 67 43 ∷ [])
    ∷ (group 4 43 27 ∷ [])
    ∷ (group 4 49 31 ∷ [])
    ∷ (group 2 60 38 ∷ group 2 61 39 ∷ [])
    ∷ (group 3 58 36 ∷ group 2 59 37 ∷ [])
    ∷ (group 4 69 43 ∷ group 1 70 44 ∷ [])
    ∷ []

-- RS_BLOCKS[ecLevel][version - 1]
unfoldable pub groups_of : ℕ → EcLevel → List Group
unfolding rs_blocks
groups_of version ec_level = get_or (rs_blocks ec_level) (version - 1) []

unfoldable pub sum_payload : List Group → ℕ
sum_payload [] = 0
sum_payload (g ∷ gs) = g.count * g.payload + sum_payload gs

unfoldable pub capacity_bytes : ℕ → EcLevel → ℕ
unfolding groups_of sum_payload
capacity_bytes version ec_level = sum_payload (groups_of version ec_level)

unfoldable pub count_bits : ℕ → ℕ
count_bits version = if leb version 9 then 8 else 16

pub record Picked : Type 0 where
  pub version : ℕ
  pub ec_level : EcLevel

-- The inner loop of `pickVersion` with `n` rounds left, from `version` on.
unfoldable pub try_versions : EcLevel → ℕ → ℕ → ℕ → Option Picked
try_versions ec_level byte_length zero version = none
try_versions ec_level byte_length (suc n) version =
    let header_bits = 4 + count_bits version in
    let cap_bits = capacity_bytes version ec_level * 8 in
    if leb (header_bits + 8 * byte_length + 4) cap_bits
    then some (record { version = version; ec_level = ec_level })
    else try_versions ec_level byte_length n (version + 1)

-- The outer loop tries level M, then level L.
unfoldable pub pick_version : ℕ → Option Picked
pick_version byte_length =
    or_else (try_versions medium byte_length 10 1) (try_versions low byte_length 10 1)
