-- ===== src/Static/Confined.antt =====
-- Which files are sent, and where they lie.
use ps4rpi.Prelude.{
  [], ◌∷◌, take, tolower, ◌≡◌, ◌≢◌, refl, ap, Bool, true, false, Bool-cases, Option-cases, none,
  ◌++◌, inl, inr, ◌==◌, ==_iff, drop, Bytes, codes, strstr, Contains, strstr-none, strstr-some,
}
use ps4rpi.Text.{starts_with, ends_with_nocase}
use ps4rpi.Text.Affix.{FinishesWith, starts_with_iff, ends_with_nocase_iff}
use ps4rpi.Http.{JsonEscape}
use ps4rpi.Response.{Reply, Write}
use ps4rpi.Response.Shape.{IsResponse, kick_error-IsResponse}
use ps4rpi.Static.{
  Stat, Files, Served, real_path_of, content_type_of, file_reply, send, serve, handle_static,
}

-- The path names a file under /static/ without stepping out of it.
pub record IsSafe (path rest : Bytes) : Type 0 where
  pub under : path ≡ codes "/static/" ++ rest
  pub no_device : ¬ Contains path (codes ":/")
  pub no_parent : ¬ Contains path (codes "..")

-- The content type that belongs to the end of a path, whatever the case of its letters.
pub data HasType (path : Bytes) : Bytes → Type 0 where
  json : FinishesWith tolower path (codes ".json") → HasType path (codes "application/json")
  png :
      ¬ FinishesWith tolower path (codes ".json")
      → FinishesWith tolower path (codes ".png")
      → HasType path (codes "image/png")
  other :
      ¬ FinishesWith tolower path (codes ".json")
      → ¬ FinishesWith tolower path (codes ".png")
      → HasType path (codes "application/octet-stream")

-- One response with the code 200, whose body is the file.
pub record Sends (path : Bytes) (r : Reply) : Type 0 where
  pub content_type : Bytes
  pub has_type : HasType path content_type
  pub calls :
      r
      ≡ Write.status 200 (codes "OK")
        ∷ Write.header (codes "Connection") (codes "close")
        ∷ Write.header (codes "Content-Type") content_type
        ∷ Write.file path
        ∷ []

content_type_of-HasType : (path : Bytes) → HasType path (content_type_of path)
unfolding content_type_of
content_type_of-HasType path = elim (Bool-cases (ends_with_nocase path (codes ".json"))) [
  | inl text ↦ rw text (json ((ends_with_nocase_iff path (codes ".json")).0 text))
  | inr no_text ↦
      let not_json : ¬ FinishesWith tolower path (codes ".json") =
        λ e. cc ((ends_with_nocase_iff path (codes ".json")).1 e) in
      elim (Bool-cases (ends_with_nocase path (codes ".png"))) [
        | inl image ↦
            rw (no_text, image) (png not_json ((ends_with_nocase_iff path (codes ".png")).0 image))
        | inr no_image ↦
            let not_png : ¬ FinishesWith tolower path (codes ".png") =
              λ e. cc ((ends_with_nocase_iff path (codes ".png")).1 e) in
            rw (no_text, no_image) (other not_json not_png)
      ]
]

pub file_reply-Sends : (path : Bytes) → Sends path (file_reply path)
unfolding file_reply
file_reply-Sends path = record {
  content_type = content_type_of path;
  has_type = content_type_of-HasType path;
  calls = refl;
}

-- The path of a file in the working directory, cut to the buffer.
abbrev pub below : (work_dir rest : Bytes) → Bytes
below work_dir rest = take 1023 (work_dir ++ (b'/' ∷ rest))

module _ (np_escape : JsonEscape) (http_initialized : Bool) (files : Files) (work_dir : Bytes) where
  -- What a request for a path comes to.
  pub data Serves (path : Bytes) : Served → Type 0 where
    invalid :
        (r : Reply)
        → ((rest : Bytes) → ¬ IsSafe path rest)
        → IsResponse 400 r
        → Serves path (record { returned = true; sent = r })
    missing :
        (rest : Bytes) (r : Reply)
        → IsSafe path rest
        → files.stat (below work_dir rest) ≡ Stat.missing
        → IsResponse 404 r
        → Serves path (record { returned = true; sent = r })
    forbidden :
        (rest : Bytes) (r : Reply)
        → IsSafe path rest
        → files.stat (below work_dir rest) ≡ Stat.irregular
        → IsResponse 403 r
        → Serves path (record { returned = true; sent = r })
    sent :
        (rest : Bytes) (r : Reply)
        → IsSafe path rest
        → files.stat (below work_dir rest) ≡ Stat.regular
        → files.send_file (below work_dir rest) ≡ 0
        → Sends (below work_dir rest) r
        → Serves path (record { returned = true; sent = r })
    broken :
        (rest : Bytes) (begun r : Reply)
        → IsSafe path rest
        → files.stat (below work_dir rest) ≡ Stat.regular
        → files.send_file (below work_dir rest) ≢ 0
        → Sends (below work_dir rest) begun
        → IsResponse 500 r
        → Serves path (record { returned = false; sent = begun ++ r })

  send-Serves :
      (path rest : Bytes)
      → IsSafe path rest
      → files.stat (real_path_of work_dir rest) ≡ Stat.regular
      → Serves path (
          send np_escape http_initialized files work_dir
            (real_path_of work_dir rest)
            (files.send_file (real_path_of work_dir rest)))
  unfolding send
  send-Serves path rest safe there =
      elim (Bool-cases (files.send_file (real_path_of work_dir rest) == 0)) [
        | inl good ↦
            rw good (
              sent rest _ safe there ((==_iff _ _).0 good) (file_reply-Sends (below work_dir rest)))
        | inr bad ↦ rw bad (
            broken rest _ _ safe there (λ e. cc ((==_iff _ _).1 e))
              (file_reply-Sends (below work_dir rest))
              (kick_error-IsResponse np_escape http_initialized 500 _ _))
      ]

  serve-Serves :
      (path rest : Bytes) (s : Stat)
      → IsSafe path rest
      → files.stat (real_path_of work_dir rest) ≡ s
      → Serves path (serve np_escape http_initialized files work_dir (real_path_of work_dir rest) s)
  unfolding serve
  serve-Serves path rest Stat.missing safe e =
      missing rest _ safe e (kick_error-IsResponse np_escape http_initialized 404 _ _)
  serve-Serves path rest Stat.irregular safe e =
      forbidden rest _ safe e (kick_error-IsResponse np_escape http_initialized 403 _ _)
  serve-Serves path rest Stat.regular safe e = send-Serves path rest safe e

  safe-Serves :
      (path : Bytes)
      → ¬ Contains path (codes ":/")
      → ¬ Contains path (codes "..")
      → (rest : Bytes) × (path ≡ codes "/static/" ++ rest)
      → Serves path (
          serve np_escape http_initialized files work_dir
            (real_path_of work_dir (drop 8 path))
            (files.stat (real_path_of work_dir (drop 8 path))))
  safe-Serves path no_device no_parent (rest, under) =
      let same : drop 8 path ≡ rest = ap (drop 8) under in
      rw same (
        serve-Serves path rest (files.stat (real_path_of work_dir rest))
          (record { under = under; no_device = no_device; no_parent = no_parent }) refl)

  -- A request for a path that is not under /static/, or that has "..", or ":/" in it, is answered
  -- with the code 400. For every other path the file looked up and sent is the rest of the path in
  -- the working directory, cut to 1023 bytes: what is missing is answered with 404, what is no
  -- regular file with 403, and the file is sent as the body of the one response, which has the code
  -- 200 and the content type that belongs to the end of the path. Where sending fails, the handler
  -- returns false, and an error with the code 500 follows what was sent.
  pub handle_static-Serves :
      (path : Bytes) → Serves path (handle_static np_escape http_initialized files work_dir path)
  unfolding handle_static
  handle_static-Serves path = elim (Bool-cases (starts_with path (codes "/static/"))) [
    | inr outside ↦ rw outside (
        invalid _
          (λ rest safe.
            let inside = (starts_with_iff path (codes "/static/")).1 (rest, safe.under) in cc)
          (kick_error-IsResponse np_escape http_initialized 400 _ _))
    | inl inside ↦ elim (Option-cases (strstr path (codes ":/"))) [
      | inr (i, device) ↦
          rw (inside, device)
            (invalid _ (λ rest safe. safe.no_device (strstr-some path (codes ":/") device))
              (kick_error-IsResponse np_escape http_initialized 400 _ _))
      | inl no_device ↦ elim (Option-cases (strstr path (codes ".."))) [
        | inr (i, parent) ↦
            rw (inside, no_device, parent)
              (invalid _ (λ rest safe. safe.no_parent (strstr-some path (codes "..") parent))
                (kick_error-IsResponse np_escape http_initialized 400 _ _))
        | inl no_parent ↦
            rw (inside, no_device, no_parent)
              (safe-Serves path (strstr-none path (codes ":/") no_device)
                (strstr-none path (codes "..") no_parent)
                ((starts_with_iff path (codes "/static/")).0 inside))
      ]
    ]
  ]

  -- a file below the directory that is there and can be sent
  pub handle_static-sends :
      (path : Bytes)
      → starts_with path (codes "/static/") ≡ true
      → strstr path (codes ":/") ≡ none
      → strstr path (codes "..") ≡ none
      → files.stat (real_path_of work_dir (drop 8 path)) ≡ Stat.regular
      → files.send_file (real_path_of work_dir (drop 8 path)) ≡ 0
      → handle_static np_escape http_initialized files work_dir path
        ≡ record { returned = true; sent = file_reply (real_path_of work_dir (drop 8 path)) }
  unfolding handle_static serve send
  handle_static-sends path inside no_device no_parent there sends =
      rw (inside, no_device, no_parent, there, sends) refl
