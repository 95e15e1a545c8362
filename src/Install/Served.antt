-- ===== src/Install/Served.antt =====
-- The address that the downloader is given is served by the program itself, RPI/server.c's
-- `handle_static`, with the reference JSON of the request.
use ps4rpi.Prelude.{
  ℕ, zero, suc, ◌≤◌, ◌≡◌, ◌∙◌, sym, ap, append_assoc, refl, Bool, true, false, none, [], ◌∷◌, ◌++◌,
  ◌==◌, length, length-append, take, take_all, All, All-append, Bytes, codes, strstr, begins_with,
  arith,
}
use ps4rpi.Text.{ends_with_nocase}
use ps4rpi.Text.Affix.{starts_with_iff, ends_with_nocase_iff}
use ps4rpi.Response.{Write}
use ps4rpi.Text.Decimal.{IsAlnum, lower_hex, lower_hex-IsAlnum, decimal_int, length-decimal_int}
use ps4rpi.Static.{Files, Stat, content_type_of, file_reply, handle_static}
use ps4rpi.Static.Confined.{handle_static-sends}
use ps4rpi.Install.{Site, tmp_name, ref_pkg_json_path, content_url}
use ps4rpi.Install.Paths.{IsRoomy, length-tmp_name, ref_pkg_json_path_whole}

-- neither a dot nor a colon
abbrev IsPlain : ℕ → Type 0
IsPlain c = (c == b'.' ≡ false) × (c == b':' ≡ false)

plain : (c : ℕ) → IsAlnum c → IsPlain c
plain c h = (ground arith, ground arith)

All-plain : (s : Bytes) → All IsAlnum s → All IsPlain s
All-plain [] h = tt
All-plain (c ∷ s) (one, rest) = (plain c one, All-plain s rest)

All-take : (n : ℕ) (s : Bytes) → All IsPlain s → All IsPlain (take n s)
All-take zero s h = tt
All-take (suc n) [] h = tt
All-take (suc n) (c ∷ s) (one, rest) = (one, All-take n s rest)

no_parent : (s : Bytes) → All IsPlain s → strstr (s ++ codes ".json") (codes "..") ≡ none
unfolding strstr begins_with
no_parent [] h = refl
no_parent (c ∷ s) ((dot, colon), rest) = rw (dot, no_parent s rest) refl

no_device : (s : Bytes) → All IsPlain s → strstr (s ++ codes ".json") (codes ":/") ≡ none
unfolding strstr begins_with
no_device [] h = refl
no_device (c ∷ s) ((dot, colon), rest) = rw (colon, no_device s rest) refl

module _ (site : Site) where
  tmp_name-plain : All IsPlain (tmp_name site)
  unfolding tmp_name
  tmp_name-plain = All-take 31 (codes "tmp_" ++ lower_hex site.stream_number) (
      All-append IsPlain (codes "tmp_") (lower_hex site.stream_number)
        ((refl, refl), ((refl, refl), ((refl, refl), ((refl, refl), tt))))
        (All-plain (lower_hex site.stream_number) (lower_hex-IsAlnum site.stream_number)))

  -- the path that is asked for
  abbrev pub served_path : Bytes
  served_path = codes "/static/" ++ (tmp_name site ++ codes ".json")

  -- the path with its first bytes, none of which is a dot or a colon
  path-plain : All IsPlain (codes "/static/" ++ tmp_name site)
  path-plain =
      All-append IsPlain (codes "/static/") (tmp_name site)
        (
          (refl, refl),
          (
            (refl, refl),
            (
              (refl, refl),
              ((refl, refl), ((refl, refl), ((refl, refl), ((refl, refl), ((refl, refl), tt))))),
            ),
          ),
        )
        tmp_name-plain

  -- The path ends with the name of a JSON.
  json_reply :
      IsRoomy site
      → file_reply (ref_pkg_json_path site)
        ≡ Write.status 200 (codes "OK")
          ∷ Write.header (codes "Connection") (codes "close")
          ∷ Write.header (codes "Content-Type") (codes "application/json")
          ∷ Write.file (ref_pkg_json_path site)
          ∷ []
  unfolding file_reply content_type_of
  json_reply room =
      let ends : ends_with_nocase (ref_pkg_json_path site) (codes ".json") ≡ true =
        (ends_with_nocase_iff (ref_pkg_json_path site) (codes ".json")).1 (
          site.work_dir ++ (b'/' ∷ tmp_name site),
          codes ".json",
          ref_pkg_json_path_whole site room
              ∙ sym (append_assoc site.work_dir (b'/' ∷ tmp_name site) (codes ".json")),
          refl,
        ) in
      rw ends refl

  -- The address that a task is registered with is that of the program, whose IPv4 address has at most
  -- fifteen bytes, and a path. The handler of static files answers a request for this path with one
  -- response of the code 200, of the type of JSON, whose body is the reference JSON of the install,
  -- where that is a file and can be sent, and the name of the working directory has at most 900
  -- bytes.
  pub content_url-Served :
      (files : Files) (http_initialized : Bool)
      → length site.ip_address ≤ 15
      → IsRoomy site
      → files.stat (ref_pkg_json_path site) ≡ Stat.regular
      → files.send_file (ref_pkg_json_path site) ≡ 0
      → (content_url site
          ≡ codes "http://"
            ++ (site.ip_address ++ (codes ":" ++ (decimal_int site.port ++ served_path))))
        × (handle_static site.np_escape http_initialized files site.work_dir served_path ≡ record {
          returned = true;
          sent =
              Write.status 200 (codes "OK")
              ∷ Write.header (codes "Connection") (codes "close")
              ∷ Write.header (codes "Content-Type") (codes "application/json")
              ∷ Write.file (ref_pkg_json_path site)
              ∷ [];
        })
  unfolding ref_pkg_json_path content_url
  content_url-Served files http_initialized short room there sends = (
    take_all 255
        (codes "http://"
          ++ (site.ip_address ++ (codes ":" ++ (decimal_int site.port ++ served_path))))
        (omega (
          arith,
          short,
          length-tmp_name site,
          length-decimal_int site.port,
          length-append site.ip_address (codes ":" ++ (decimal_int site.port ++ served_path)),
          length-append (decimal_int site.port) served_path,
          length-append (tmp_name site) (codes ".json"),
        )),
    handle_static-sends site.np_escape http_initialized files site.work_dir served_path
          ((starts_with_iff served_path (codes "/static/")).1
            (tmp_name site ++ codes ".json", refl))
          (no_device (codes "/static/" ++ tmp_name site) path-plain)
          (no_parent (codes "/static/" ++ tmp_name site) path-plain) there sends
        ∙ ap (λ r. record { returned = true; sent = r }) (json_reply room),
  )
