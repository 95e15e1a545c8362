-- ===== src/Package/Inspect/Fetched.antt =====
-- Where what is found out about a package comes from: the requests that were made for it.
use mathlib.Core.Path.{subst}
use ps4rpi.Prelude.{
  ℕ, ◌*◌, ◌≡◌, inl, inr, refl, Bool, true, false, not, ◌&&◌, ◌||◌, Bool-cases, Option, none, some,
  ◌==◌, ==_iff, ltb, take, Bytes, codes, str_eq, str_eq_iff,
}
use ps4rpi.Text.{bytes_to_hex}
use ps4rpi.Sfo.{zeros, cstring, sfo_magic}
use ps4rpi.Tls.{SslVerify, HttpState, TlsLog}
use ps4rpi.Client.Transfer.{Downloaded, http_download_file}
use ps4rpi.Package.Header.{
  sizeof_pkg_header, sizeof_pkg_table_entry, pkg_magic, entry_count_of, entry_table_offset_of,
  package_size_of, digest_of, Entries, no_entries, find_entries,
}
use ps4rpi.Package.{
  Host, World, Outcome, ok, thrown, bytes_of, about, require, outcome_of, fetched, download,
}
use ps4rpi.Package.Inspect.{
  Inspected, digest_str, fetch_icon, fetch_param_sfo, fetch_header, fetch_entries, inspect,
}
use ps4rpi.Package.Frame.{after-ok}

module _ (h : Host) (error_buf_size : ℕ) (mode : SslVerify) where
  require_good :
      (b : Bool) (message : Bytes) (w : World) {x : Unit {0}}
      → (require h error_buf_size mode b message w).0 ≡ ok x
      → b ≡ true
  unfolding require
  require_good true message w e = refl
  require_good false message w e = cc

  -- The bytes at an offset were downloaded, as many as were asked.
  pub record IsFetched (url : Bytes) (size offset : ℕ) (d : Downloaded) : Type 0 where
    pub state : HttpState
    pub log : TlsLog
    pub got :
        (http_download_file h.errors h.lib (some url) size offset mode state log).value ≡ some d
    pub whole : d.data_size ≡ size

  value_ok :
      {A : Type 0} (message : Bytes) (o : Option A) (w : World) {a : A}
      → (outcome_of h error_buf_size mode message o w).0 ≡ ok a
      → o ≡ some a
  unfolding outcome_of
  value_ok message none w e = cc
  value_ok message (some b) w e = cc

  download-ok :
      (message url : Bytes) (size offset : ℕ) (w : World) {d : Downloaded}
      → (download h error_buf_size mode message url size offset w).0 ≡ ok d
      → (http_download_file h.errors h.lib (some url) size offset mode w.state w.log).value ≡ some d
  unfolding download fetched
  download-ok message url size offset w e = value_ok message _ _ e

  -- a download that is checked to be whole
  is_fetched :
      (message url : Bytes) (size offset : ℕ) (w : World) (d : Downloaded)
      → (download h error_buf_size mode message url size offset w).0 ≡ ok d
      → d.data_size == size ≡ true
      → IsFetched url size offset d
  is_fetched message url size offset w d e same = record {
    state = w.state;
    log = w.log;
    got = download-ok message url size offset w e;
    whole = (==_iff _ _).0 same;
  }

  -- The header is the first bytes of the package, and begins with its magic number.
  pub record IsHeader (url : Bytes) (r : Bytes × ℕ) : Type 0 where
    pub file : Downloaded
    pub is_first : IsFetched url sizeof_pkg_header 0 file
    pub bytes : r.0 ≡ bytes_of file.content
    pub size : r.1 ≡ file.total_size
    pub magic : take 4 r.0 ≡ pkg_magic

  abbrev IsHeaderOf : Bytes → Outcome (Bytes × ℕ) → Type 0
  IsHeaderOf url (ok r) = IsHeader url r
  IsHeaderOf url (thrown message) = Unit {0}

  header-IsHeader :
      (url : Bytes) (piece_count : ℕ) (w : World) {r : Bytes × ℕ} {w' : World}
      → fetch_header h error_buf_size mode url piece_count w ≡ (ok r, w')
      → IsHeader url r
  unfolding fetch_header
  header-IsHeader url piece_count w {r} e =
      after-ok (download h error_buf_size mode _ url sizeof_pkg_header 0) _ w e λ d went e1.
        after-ok (require h error_buf_size mode (d.data_size == sizeof_pkg_header) _) _ _ e1
          λ x1 whole e2.
            after-ok
              (require h error_buf_size mode (str_eq (take 4 (bytes_of d.content)) pkg_magic) _) _ _
              e2
              λ x2 magic e3.
                after-ok
                  (require h error_buf_size mode
                    (not (
                      piece_count == 1
                      && ltb 0 (package_size_of (bytes_of d.content))
                      && not (d.total_size == package_size_of (bytes_of d.content))))
                    (about (codes "Unexpected file size for '") url))
                  _ _ e3
                  λ x3 sized e4.
                    subst {A = Outcome (Bytes × ℕ) × World} (λ o. IsHeaderOf url o.0) e4
                      (record {
                        file = d;
                        is_first =
                            is_fetched _ url sizeof_pkg_header 0 w d went
                              (require_good _ _ _ whole);
                        bytes = refl;
                        size = refl;
                        magic = (str_eq_iff _ _).0 (require_good _ _ _ magic);
                      })

  -- The entries are those of the table that the header points at.
  pub record AreEntries (url hdr : Bytes) (found : Entries) : Type 0 where
    pub table : Downloaded
    pub at_offset :
        IsFetched url
          (entry_count_of hdr * sizeof_pkg_table_entry)
          (entry_table_offset_of hdr)
          table
    pub entries : found ≡ find_entries (bytes_of table.content) (entry_count_of hdr) 0 no_entries

  abbrev AreEntriesOf : (url hdr : Bytes) → Outcome Entries → Type 0
  AreEntriesOf url hdr (ok r) = AreEntries url hdr r
  AreEntriesOf url hdr (thrown message) = Unit {0}

  entries-AreEntries :
      (url hdr : Bytes) (w : World) {found : Entries} {w' : World}
      → fetch_entries h error_buf_size mode url hdr w ≡ (ok found, w')
      → AreEntries url hdr found
  unfolding fetch_entries
  entries-AreEntries url hdr w e =
      let size = entry_count_of hdr * sizeof_pkg_table_entry in
      after-ok (require h error_buf_size mode (not (size == 0)) _) _ w e λ x1 there e1.
        after-ok (download h error_buf_size mode _ url size (entry_table_offset_of hdr)) _ _ e1
          λ t went e2.
            after-ok (require h error_buf_size mode (t.data_size == size) _) _ _ e2 λ x3 whole e3.
              subst {A = Outcome Entries × World} (λ o. AreEntriesOf url hdr o.0) e3
                (record {
                  table = t;
                  at_offset =
                      is_fetched _ url size (entry_table_offset_of hdr) _ t went
                        (require_good _ _ _ whole);
                  entries = refl;
                })

  -- The bytes of an entry of the package.
  pub record IsEntry (url : Bytes) (size offset : ℕ) (s : Bytes) : Type 0 where
    pub file : Downloaded
    pub at_offset : IsFetched url size offset file
    pub bytes : s ≡ bytes_of file.content

  abbrev IsEntryOf : Bytes → ℕ → ℕ → Outcome Bytes → Type 0
  IsEntryOf url size offset (ok s) = IsEntry url size offset s
  IsEntryOf url size offset (thrown message) = Unit {0}

  param_sfo-IsEntry :
      (url : Bytes) (found : Entries) (w : World) {s : Bytes} {w' : World}
      → fetch_param_sfo h error_buf_size mode url found w ≡ (ok s, w')
      → IsEntry url found.param_sfo_size found.param_sfo_offset s
  unfolding fetch_param_sfo
  param_sfo-IsEntry url found w e =
      after-ok
        (require h error_buf_size mode
          (not (found.param_sfo_offset == 0 || found.param_sfo_size == 0))
          (about (codes "No param.sfo entry in package '") url))
        _ w e
        λ x1 there e1.
          after-ok
            (download h error_buf_size mode _ url found.param_sfo_size found.param_sfo_offset) _ _
            e1
            λ d went e2.
              after-ok (require h error_buf_size mode (d.data_size == found.param_sfo_size) _) _ _
                e2
                λ x3 whole e3.
                  after-ok
                    (require h error_buf_size mode
                      (not (
                        ltb found.param_sfo_size 4
                        || not (str_eq (take 4 (bytes_of d.content)) sfo_magic)))
                      (about (codes "Invalid param.sfo contents for '") url))
                    _ _ e3
                    λ x4 magic e4.
                      subst {A = Outcome Bytes × World}
                        (λ o. IsEntryOf url found.param_sfo_size found.param_sfo_offset o.0) e4
                        (record {
                          file = d;
                          at_offset =
                              is_fetched _ url found.param_sfo_size found.param_sfo_offset _ d went
                                (require_good _ _ _ whole);
                          bytes = refl;
                        })

  -- The icon, where the table has one.
  abbrev pub IsIconEntry : Bytes → Entries → Option Bytes → Type 0
  IsIconEntry url found none = ltb 0 found.icon0_png_offset && ltb 0 found.icon0_png_size ≡ false
  IsIconEntry url found (some s) = IsEntry url found.icon0_png_size found.icon0_png_offset s

  abbrev IsIconOf : Bytes → Entries → Outcome (Option Bytes) → Type 0
  IsIconOf url found (ok o) = IsIconEntry url found o
  IsIconOf url found (thrown message) = Unit {0}

  icon-IsIconEntry :
      (url : Bytes) (found : Entries) (w : World) {o : Option Bytes} {w' : World}
      → fetch_icon h error_buf_size mode url found w ≡ (ok o, w')
      → IsIconEntry url found o
  unfolding fetch_icon
  icon-IsIconEntry url found w e =
      elim (Bool-cases (ltb 0 found.icon0_png_offset && ltb 0 found.icon0_png_size)) [
        | inr lacking ↦
            subst {A = Outcome (Option Bytes) × World} (λ o. IsIconOf url found o.0)
              (rw lacking at e) lacking
        | inl there ↦
            after-ok
              (download h error_buf_size mode _ url found.icon0_png_size found.icon0_png_offset) _ w
              (rw there at e)
              λ d went e1.
                after-ok (require h error_buf_size mode (d.data_size == found.icon0_png_size) _) _ _
                  e1
                  λ x2 whole e2.
                    subst {A = Outcome (Option Bytes) × World} (λ o. IsIconOf url found o.0) e2
                      (record {
                        file = d;
                        at_offset =
                            is_fetched _ url found.icon0_png_size found.icon0_png_offset _ d went
                              (require_good _ _ _ whole);
                        bytes = refl;
                      })
      ]

  -- The text of a digest.
  abbrev pub digits : (buf_size : ℕ) → Bytes → Bytes
  digits buf_size digest =
      bytes_of (cstring (bytes_to_hex h.hex true buf_size (some digest)).stored)

  abbrev IsDigestOf : (buf_size : ℕ) → Bytes → Outcome Bytes → Type 0
  IsDigestOf buf_size digest (ok s) = s ≡ digits buf_size digest
  IsDigestOf buf_size digest (thrown message) = Unit {0}

  digest_str-digits :
      (url : Bytes) (buf_size : ℕ) (digest : Bytes) (w : World) {s : Bytes} {w' : World}
      → digest_str h error_buf_size mode url buf_size digest w ≡ (ok s, w')
      → s ≡ digits buf_size digest
  unfolding digest_str
  digest_str-digits url buf_size digest w e =
      after-ok
        (require h error_buf_size mode ((bytes_to_hex h.hex true buf_size (some digest)).ret == 0)
          (about (codes "Unable to convert digest for '") url))
        _ w e
        λ x1 good e1.
          subst {A = Outcome Bytes × World} (λ o. IsDigestOf buf_size digest o.0) e1 refl

  -- What was found out about the package at a URL is what its server sent.
  pub record Fetches (url : Bytes) (found : Inspected) : Type 0 where
    pub header : IsHeader url (found.hdr, found.total_size)
    pub entries : Entries
    pub are_entries : AreEntries url found.hdr entries
    pub sfo : IsEntry url entries.param_sfo_size entries.param_sfo_offset found.param_sfo
    pub icon : IsIconEntry url entries found.icon0_png
    pub pkg_digest : found.pkg_digest_str ≡ digits 65 (digest_of found.hdr)
    pub piece_digest : found.piece_digest_str ≡ digits 41 (zeros 20)

  abbrev FetchesOf : Bytes → Outcome Inspected → Type 0
  FetchesOf url (ok found) = Fetches url found
  FetchesOf url (thrown message) = Unit {0}

  pub inspect-Fetches :
      (url : Bytes) (piece_count : ℕ) (w : World) {found : Inspected} {w' : World}
      → inspect h error_buf_size mode url piece_count w ≡ (ok found, w')
      → Fetches url found
  unfolding inspect
  inspect-Fetches url piece_count w e =
      let m1 = fetch_header h error_buf_size mode url piece_count in
      after-ok m1 _ w e λ header got1 e1.
        let w1 = (m1 w).1 in
        let m2 = fetch_entries h error_buf_size mode url header.0 in
        after-ok m2 _ w1 e1 λ entries got2 e2.
          let w2 = (m2 w1).1 in
          let m3 = fetch_param_sfo h error_buf_size mode url entries in
          after-ok m3 _ w2 e2 λ param_sfo got3 e3.
            let w3 = (m3 w2).1 in
            let m4 = fetch_icon h error_buf_size mode url entries in
            after-ok m4 _ w3 e3 λ icon got4 e4.
              let w4 = (m4 w3).1 in
              let m5 = digest_str h error_buf_size mode url 65 (digest_of header.0) in
              after-ok m5 _ w4 e4 λ pkg got5 e5.
                let w5 = (m5 w4).1 in
                let m6 = digest_str h error_buf_size mode url 41 (zeros 20) in
                after-ok m6 _ w5 e5 λ piece got6 e6.
                  subst {A = Outcome Inspected × World} (λ o. FetchesOf url o.0) e6
                    (record {
                      header = header-IsHeader url piece_count w (λ i. (got1 i, w1));
                      entries = entries;
                      are_entries = entries-AreEntries url header.0 w1 (λ i. (got2 i, w2));
                      sfo = param_sfo-IsEntry url entries w2 (λ i. (got3 i, w3));
                      icon = icon-IsIconEntry url entries w3 (λ i. (got4 i, w4));
                      pkg_digest =
                          digest_str-digits url 65 (digest_of header.0) w4 (λ i. (got5 i, w5));
                      piece_digest =
                          digest_str-digits url 41 (zeros 20) w5 (λ i. (got6 i, (m6 w5).1));
                    })
