-- ===== src/ContentId/Tests.antt =====
-- Content ids read and refused.
use ps4rpi.Prelude.{
  ℕ, ◌≡◌, ◌↔◌, refl, Bool, true, not, ◌&&◌, none, some, [], ◌∷◌, ◌==◌, arith, Bytes, codes, strchr,
  strrchr, Lacks,
}
use ps4rpi.Samples.{sample_id, sample_info}
use ps4rpi.ContentId.{parse_content_id}
use ps4rpi.ContentId.Sound.{IsSplit}
use ps4rpi.ContentId.Complete.{Parts, IsWellFormed, print, parse_content_id_iff, parse-print}

reads : parse_content_id (some sample_id) ≡ some sample_info
unfolding parse_content_id strchr strrchr
reads = refl

-- a label of fifteen bytes
refuses_short : parse_content_id (some (codes "UP0001-CUSA00001_00-ABCDEFGHIJKLMNO")) ≡ none
unfolding parse_content_id strchr strrchr
refuses_short = refl

refuses_null : parse_content_id none ≡ none
unfolding parse_content_id strchr strrchr
refuses_null = refl

parse_content_id_iff_example :
    (parse_content_id (some sample_id) ≡ some sample_info) ↔ IsSplit sample_id sample_info
parse_content_id_iff_example = parse_content_id_iff sample_id

abbrev parts : Parts
parts = record {
  publisher = codes "UP0001";
  title = codes "CUSA00001";
  version = codes "00";
  label = codes "ABCDEFGHIJKLMNOP";
}

abbrev none_is : ℕ → Bytes → Bool
none_is c [] = true
none_is c (x ∷ s) = not (x == c) && none_is c s

none_is-Lacks : (c : ℕ) (s : Bytes) → none_is c s ≡ true → Lacks c s
none_is-Lacks c [] h = tt
none_is-Lacks c (x ∷ s) h = (λ e. ground arith, none_is-Lacks c s (ground arith))

parts-IsWellFormed : IsWellFormed parts
parts-IsWellFormed = record {
  publisher_length = refl;
  title_length = refl;
  version_length = refl;
  label_length = refl;
  publisher_dashes = none_is-Lacks _ parts.publisher refl;
  title_dashes = none_is-Lacks _ parts.title refl;
  title_underscores = none_is-Lacks _ parts.title refl;
  version_dashes = none_is-Lacks _ parts.version refl;
  label_dashes = none_is-Lacks _ parts.label refl;
}

parse-print_example : parse_content_id (some (print parts)) ≡ some sample_info
parse-print_example = parse-print parts parts-IsWellFormed
