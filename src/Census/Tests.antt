-- ===== src/Census/Tests.antt =====
-- Runs of the census code on a file of two leaves, with a small hash.
use mootvote.Base.{
  ℕ, ◌+◌, ◌*◌, ◌%◌, ◌≡◌, refl, arith, map, List, [], ◌∷◌, ◌++◌, Option, none, some, replicate,
}
use mootvote.Base.Int.{pos, negsuc}
use mootvote.Bytes.{norm_fp, big_loop, bytes32_to_big}
use mootvote.Merkle.{get_merkle_root, root_loop, next_level, halve_loop, default_node}
use mootvote.Census.{
  parse_loop, parse_uploaded_census, census_bin, CensusForm, on_census_file, census_check,
}
use mootvote.Census.Parse.{parse_uploaded_census-census_bin}
use mootvote.Census.Membership.{Checks, census_check-Checks}

abbrev weigh : List ℕ → ℕ
weigh [] = 1
weigh (x ∷ xs) = (x + 3 * weigh xs) % 1009

abbrev word : ℕ → List ℕ
word b = replicate 31 0 ++ (b ∷ [])

abbrev two_leaves : List ℕ
two_leaves = word 5 ++ word 9

two_leaves_parsed : parse_uploaded_census two_leaves ≡ some (5 ∷ 9 ∷ [])
unfolding parse_uploaded_census parse_loop bytes32_to_big big_loop
two_leaves_parsed = refl

two_leaves_run : parse_loop 2 two_leaves 0 ≡ some (5 ∷ 9 ∷ [])
unfolding parse_loop bytes32_to_big big_loop
two_leaves_run = refl

form_of : Option CensusForm → CensusForm
form_of none = record { census_bytes = []; census_count = 0; census_root_hex = [] }
form_of (some form) = form

abbrev form : CensusForm
form = form_of (on_census_file weigh two_leaves)

form_accepted : on_census_file weigh two_leaves ≡ some form
unfolding form_of on_census_file parse_uploaded_census parse_loop bytes32_to_big big_loop
    get_merkle_root root_loop next_level halve_loop default_node
form_accepted = refl

census_check-Checks_example : Checks weigh form (5 ∷ 9 ∷ []) 9 (census_check weigh two_leaves 9)
census_check-Checks_example =
    census_check-Checks weigh two_leaves 9 form_accepted two_leaves_parsed (omega arith)

parse_uploaded_census-census_bin_example :
    parse_uploaded_census (census_bin (pos 5 ∷ negsuc 0 ∷ []))
    ≡ some (map norm_fp (pos 5 ∷ negsuc 0 ∷ []))
parse_uploaded_census-census_bin_example = parse_uploaded_census-census_bin (pos 5 ∷ negsuc 0 ∷ [])
