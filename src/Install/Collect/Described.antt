-- ===== src/Install/Collect/Described.antt =====
-- What is collected for a registration, and that collecting leaves the disk as the preparation did.
use mathlib.Core.Path.{subst}
use ps4rpi.Prelude.{
  inl, inr, Bool-cases, ==_iff, ℕ, ◌+◌, ◌≡◌, refl, sym, ap, ◌∙◌, Bool, true, false, not, ◌&&◌,
  Option, none, some, List, ◌==◌, ltb, take, Bytes, codes,
}
use ps4rpi.ContentId.{content_id_size}
use ps4rpi.Sfo.{Entry, sfo_find_entry}
use ps4rpi.Sfo.File.{sfo_load_from_file}
use ps4rpi.Tls.{SslVerify}
use ps4rpi.Http.{escape_json_string}
use ps4rpi.Package.{World, Outcome, ok, thrown, continue, PackageInfo}
use ps4rpi.Package.Frame.{Keeps, keeps_rules, after-ok}
use ps4rpi.Install.{Site, param_sfo_path, content_url}
use ps4rpi.Install.Collect.{
  Registration, sfo_format_string, package_type_of, demand, given, about_package, invalid_format,
  prerequisites, set_up, prepare, loaded, load_sfo, string_of, or_title, find_title, escape_title,
  icon_path_of, describe, read_sfo, collect,
}

module _ (P : Bytes → Type 0) where
  demand-Keeps : (b : Bool) (message : Bytes) → Keeps P (demand b message)
  demand-Keeps true message = record { keeps = λ w q p. refl }
  demand-Keeps false message = record { keeps = λ w q p. refl }

  given-Keeps : {A : Type 0} (message : Bytes) (o : Option A) → Keeps P (given message o)
  given-Keeps message none = record { keeps = λ w q p. refl }
  given-Keeps message (some a) = record { keeps = λ w q p. refl }

ruleset collect_rules = (keeps_rules, demand-Keeps, given-Keeps)

module _ (P : Bytes → Type 0) (site : Site) where
  load_sfo-Keeps : (url : Bytes) → Keeps P (load_sfo site url)
  unfolding load_sfo
  load_sfo-Keeps url = record {
    keeps = λ w q p.
        let f = site.source w.disk (param_sfo_path site) in
        (given-Keeps P _ (loaded site (sfo_load_from_file site.sfo_malloc f))).keeps w q p;
  }

  escape_title-Keeps : (title_name : Bytes) → Keeps P (escape_title site title_name)
  unfolding escape_title
  escape_title-Keeps title_name = record {
    keeps = λ w q p. (given-Keeps P _ (escape_json_string _ _ _ _)).keeps w q p;
  }

  or_title-Keeps :
      (entries : List Entry) (url key : Bytes) (o : Option Entry)
      → Keeps P (or_title site entries url key o)
  unfolding or_title
  or_title-Keeps entries url key none = search collect_rules
  or_title-Keeps entries url key (some e) = search collect_rules

  find_title-Keeps :
      (entries : List Entry) (url : Bytes) (lang_id : ℕ)
      → Keeps P (find_title site entries url lang_id)
  unfolding find_title
  find_title-Keeps entries url lang_id = or_title-Keeps entries url _ _

  read_sfo-Keeps :
      (url : Bytes) (lang_id : ℕ) (info : PackageInfo) → Keeps P (read_sfo site url lang_id info)
  unfolding read_sfo
  read_sfo-Keeps url lang_id info =
      search (collect_rules, find_title-Keeps, escape_title-Keeps, load_sfo-Keeps) depth 24 fits
        4000

-- The kind of a package, by its content type, as the service names it.
pub data HasKind : ℕ → Bytes → Type 0 where
  game_data : HasKind 0x1A (codes "PS4GD")
  additional_content : HasKind 0x1B (codes "PS4AC")
  additional_license : HasKind 0x1C (codes "PS4AL")
  delta_patch : HasKind 0x1E (codes "PS4DP")

kind_at :
    (n m : ℕ) (kind : Bytes) {t : Bytes}
    → HasKind m kind
    → n == m ≡ true
    → some kind ≡ some t
    → HasKind n t
kind_at n m kind {t} h same e =
    let at : m ≡ n = sym ((==_iff _ _).0 same) in
    let named : kind ≡ t = cc in subst (HasKind n) named (subst (λ q. HasKind q kind) at h)

package_type_of-HasKind : (n : ℕ) {t : Bytes} → package_type_of n ≡ some t → HasKind n t
unfolding package_type_of
package_type_of-HasKind n e = elim (Bool-cases (n == 0x1A)) [
  | inl a ↦ kind_at n 0x1A _ game_data a (rw a at e)
  | inr a ↦ elim (Bool-cases (n == 0x1B)) [
    | inl b ↦ kind_at n 0x1B _ additional_content b (rw (a, b) at e)
    | inr b ↦ elim (Bool-cases (n == 0x1C)) [
      | inl c ↦ kind_at n 0x1C _ additional_license c (rw (a, b, c) at e)
      | inr c ↦ elim (Bool-cases (n == 0x1E)) [
        | inl d ↦ kind_at n 0x1E _ delta_patch d (rw (a, b, c, d) at e)
        | inr d ↦ absurd (cc (rw (a, b, c, d) at e))
      ]
    ]
  ]
]

module _ (site : Site) where
  -- The task is that of the package: its address, icon, size and kinds are those prepared.
  pub record Describes (info : PackageInfo) (r : Registration) : Type 0 where
    pub at_url : r.task.content_url ≡ content_url site
    pub with_icon : r.task.icon_path ≡ icon_path_of site info.has_icon
    pub of_type : HasKind info.content_type r.task.package_type
    pub of_size : r.task.package_size ≡ info.package_size
    pub of_patch : r.task.is_patch ≡ info.is_patch

  abbrev IsDescribed : PackageInfo → Outcome Registration × World → Type 0
  IsDescribed info (ok r, w) = Describes info r
  IsDescribed info (thrown message, w) = Unit {0}

  given-ok :
      {A : Type 0} (message : Bytes) (o : Option A) (w : World) {a : A}
      → (given message o w).0 ≡ ok a
      → o ≡ some a
  given-ok message none w e = cc
  given-ok message (some b) w e = cc

  describe-Describes :
      (entries : List Entry) (url : Bytes) (lang_id : ℕ) (info : PackageInfo) (package_type : Bytes)
      (w : World) {r : Registration} {w' : World}
      → package_type_of info.content_type ≡ some package_type
      → describe site entries url lang_id info package_type w ≡ (ok r, w')
      → Describes info r
  unfolding describe
  describe-Describes entries url lang_id info package_type w {r} typed e =
      after-ok (find_title site entries url lang_id) _ w e λ title x1 e1.
        after-ok
          (demand (title.1.format == sfo_format_string && not (ltb title.1.size 1))
            (invalid_format title.0 url))
          _ _ e1
          λ y2 x2 e2.
            after-ok (escape_title site (take 255 (string_of site title.1))) _ _ e2 λ escaped x3 e3.
              after-ok
                (given (about_package (codes "Unable to get content id for package '") url)
                  (sfo_find_entry entries (codes "CONTENT_ID")))
                _ _ e3
                λ entry x4 e4.
                  after-ok
                    (demand (entry.format == sfo_format_string && entry.size == content_id_size + 1)
                      (invalid_format (codes "CONTENT_ID") url))
                    _ _ e4
                    λ y5 x5 e5. subst (IsDescribed info) e5 (record {
                      at_url = refl;
                      with_icon = refl;
                      of_type = package_type_of-HasKind info.content_type typed;
                      of_size = refl;
                      of_patch = refl;
                    })

  read_sfo-Describes :
      (url : Bytes) (lang_id : ℕ) (info : PackageInfo) (w : World) {r : Registration} {w' : World}
      → read_sfo site url lang_id info w ≡ (ok r, w')
      → Describes info r
  unfolding read_sfo
  read_sfo-Describes url lang_id info w e =
      after-ok
        (given (about_package (codes "Unsupported content type for package '") url)
          (package_type_of info.content_type))
        _ w e
        λ package_type typed e1.
          after-ok
            (demand site.sfo_alloc
              (about_package (codes "Unable to allocate system file object for package '") url))
            _ _ e1
            λ x2 y2 e2. after-ok (load_sfo site url) _ _ e2 λ entries y3 e3.
              describe-Describes entries url lang_id info package_type _
                (given-ok _ (package_type_of info.content_type) w typed) e3

  -- How collecting ends: with a message, or with what describes a package that was prepared; the
  -- disk is then as the preparation left it.
  pub data Collects (url : Bytes) (urls : List Bytes) (mode : SslVerify) (w : World)
      : Outcome Registration × World → Type 0 where
    not_set_up :
        {message error : Bytes} {v : World}
        → set_up site url urls mode w ≡ (thrown error, v)
        → Collects url urls mode w (thrown message, v)
    not_read :
        {message : Bytes} {info : PackageInfo} {v v' : World}
        → set_up site url urls mode w ≡ (ok info, v)
        → ((q : Bytes) → v'.disk q ≡ v.disk q)
        → Collects url urls mode w (thrown message, v')
    read :
        {info : PackageInfo} {r : Registration} {v v' : World}
        → set_up site url urls mode w ≡ (ok info, v)
        → ((q : Bytes) → v'.disk q ≡ v.disk q)
        → Describes info r
        → Collects url urls mode w (ok r, v')

  reads :
      (url : Bytes) (urls : List Bytes) (lang_id : ℕ) (mode : SslVerify) (w : World)
      (info : PackageInfo) (v : World)
      → set_up site url urls mode w ≡ (ok info, v)
      → (o : Outcome Registration) (v' : World) → read_sfo site url lang_id info v ≡ (o, v')
      → Collects url urls mode w (o, v')
  reads url urls lang_id mode w info v e o v' went =
      let kept = λ (q : Bytes).
        ap (λ r. r.1.disk q) (sym went)
        ∙ (read_sfo-Keeps (λ p. Unit {0}) site url lang_id info).keeps v q tt in
      elim o
          as (λ o. read_sfo site url lang_id info v ≡ (o, v') → Collects url urls mode w (o, v')) [
            | ok r ↦ λ went. read e kept (read_sfo-Describes url lang_id info v went)
            | thrown message ↦ λ went. not_read e kept
          ]
        went

  sets_up :
      (url : Bytes) (urls : List Bytes) (lang_id : ℕ) (mode : SslVerify) (w : World)
      (o : Outcome PackageInfo) (v : World)
      → set_up site url urls mode w ≡ (o, v)
      → Collects url urls mode w (continue (prerequisites site url o) (read_sfo site url lang_id) v)
  unfolding prerequisites
  sets_up url urls lang_id mode w (thrown error) v e = not_set_up e
  sets_up url urls lang_id mode w (ok info) v e =
      let r = read_sfo site url lang_id info v in
      reads url urls lang_id mode w info v e r.0 r.1 refl

  pub collect-Collects :
      (url : Bytes) (urls : List Bytes) (lang_id : ℕ) (mode : SslVerify) (w : World)
      → Collects url urls mode w (collect site url urls lang_id mode w)
  unfolding collect prepare
  collect-Collects url urls lang_id mode w =
      let r = set_up site url urls mode w in sets_up url urls lang_id mode w r.0 r.1 refl
