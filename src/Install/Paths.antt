-- ===== src/Install/Paths.antt =====
-- The names of the files of a request: three different paths, in the working directory.
use ps4rpi.Prelude.{
  ◌≤◌, ◌≡◌, ◌≢◌, refl, ap, ◌∙◌, sym, [], ◌∷◌, ◌++◌, length, length-append, length-take, take,
  take_all, Bytes, codes, str_eq, arith,
}
use ps4rpi.Text.Decimal.{lower_hex}
use ps4rpi.Disk.{ne_of_str_eq}
use ps4rpi.Install.{Site, tmp_name, ref_pkg_json_path, param_sfo_path, icon0_png_path}

path-ne-nil : (work_dir rest : Bytes) → take 1023 (work_dir ++ (b'/' ∷ rest)) ≢ []
path-ne-nil work_dir rest e = omega (
  arith,
  ap length e,
  length-take 1023 (work_dir ++ (b'/' ∷ rest)),
  length-append work_dir (b'/' ∷ rest),
)

append_cancel : (a x y : Bytes) → a ++ x ≡ a ++ y → x ≡ y
append_cancel [] x y e = e
append_cancel (c ∷ a) x y e = append_cancel a x y cc

module _ (site : Site) where
  pub ref_pkg_json_path-ne-nil : ref_pkg_json_path site ≢ []
  unfolding ref_pkg_json_path
  ref_pkg_json_path-ne-nil = path-ne-nil site.work_dir _

  pub param_sfo_path-ne-nil : param_sfo_path site ≢ []
  unfolding param_sfo_path
  param_sfo_path-ne-nil = path-ne-nil site.work_dir _

  pub icon0_png_path-ne-nil : icon0_png_path site ≢ []
  unfolding icon0_png_path
  icon0_png_path-ne-nil = path-ne-nil site.work_dir _

  -- The name of the directory leaves room for the names in it.
  abbrev pub IsRoomy : Type 0
  IsRoomy = length site.work_dir ≤ 900

  pub length-tmp_name : length (tmp_name site) ≤ 31
  unfolding tmp_name
  length-tmp_name = omega (arith, length-take 31 (codes "tmp_" ++ lower_hex site.stream_number))

  -- within the buffer nothing is cut off
  whole :
      IsRoomy
      → (suffix : Bytes) → length suffix ≤ 5
      → take 1023 (site.work_dir ++ (b'/' ∷ (tmp_name site ++ suffix)))
        ≡ site.work_dir ++ (b'/' ∷ (tmp_name site ++ suffix))
  whole room suffix short = take_all 1023 _ (
      omega (
        arith,
        room,
        short,
        length-tmp_name,
        length-append site.work_dir (b'/' ∷ (tmp_name site ++ suffix)),
        length-append (tmp_name site) suffix,
      ))

  pub ref_pkg_json_path_whole :
      IsRoomy → ref_pkg_json_path site ≡ site.work_dir ++ (b'/' ∷ (tmp_name site ++ codes ".json"))
  unfolding ref_pkg_json_path
  ref_pkg_json_path_whole room = whole room (codes ".json") (omega arith)

  distinct :
      IsRoomy
      → (s t : Bytes) → length s ≤ 5
      → length t ≤ 5
      → s ≢ t
      → take 1023 (site.work_dir ++ (b'/' ∷ (tmp_name site ++ s)))
        ≢ take 1023 (site.work_dir ++ (b'/' ∷ (tmp_name site ++ t)))
  distinct room s t short_s short_t ne e =
      let same = sym (whole room s short_s) ∙ (e ∙ whole room t short_t) in
      let tail : b'/' ∷ (tmp_name site ++ s) ≡ b'/' ∷ (tmp_name site ++ t) =
        append_cancel site.work_dir _ _ same in
      let names : tmp_name site ++ s ≡ tmp_name site ++ t = cc in
      ne (append_cancel (tmp_name site) s t names)

  pub json-ne-sfo : IsRoomy → ref_pkg_json_path site ≢ param_sfo_path site
  unfolding ref_pkg_json_path param_sfo_path str_eq
  json-ne-sfo room =
      distinct room (codes ".json") (codes ".sfo") (omega arith) (omega arith)
        (ne_of_str_eq (codes ".json") (codes ".sfo") refl)

  pub json-ne-png : IsRoomy → ref_pkg_json_path site ≢ icon0_png_path site
  unfolding ref_pkg_json_path icon0_png_path str_eq
  json-ne-png room =
      distinct room (codes ".json") (codes ".png") (omega arith) (omega arith)
        (ne_of_str_eq (codes ".json") (codes ".png") refl)

  pub sfo-ne-png : IsRoomy → param_sfo_path site ≢ icon0_png_path site
  unfolding param_sfo_path icon0_png_path str_eq
  sfo-ne-png room =
      distinct room (codes ".sfo") (codes ".png") (omega arith) (omega arith)
        (ne_of_str_eq (codes ".sfo") (codes ".png") refl)
