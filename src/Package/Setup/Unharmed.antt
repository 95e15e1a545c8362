-- ===== src/Package/Setup/Unharmed.antt =====
-- A package that could not be prepared leaves no file behind, and no other file is touched.
use ps4rpi.Prelude.{
  ℕ, suc, ◌≡◌, ◌≢◌, refl, ◌∙◌, true, not, Bool-cases, inl, inr, Option, none, some, List, [], ◌∷◌,
  length, Bytes,
}
use ps4rpi.Files.{write_file}
use ps4rpi.Disk.{Disk, unlink, unlink_self, unlink_other, unlink-none, put_other, put_written_other}
use ps4rpi.Tls.{SslVerify}
use ps4rpi.Package.Inspect.{Inspected}
use ps4rpi.Package.Inspect.Kept.{inspect-Keeps}
use ps4rpi.Package.{Host, World, Outcome, ok, thrown, continue, PackageInfo}
use ps4rpi.Package.Frame.{Keeps, keeps_rules, require-Keeps}
use ps4rpi.Package.Setup.{
  more_pieces, all_pieces, write_trunc, write_icon, close_text, write_files, write_out, unlink_all,
  or_unlink, open_and_write, is_path, pkg_setup_prerequisites,
}

module _ (h : Host) (error_buf_size : ℕ) (mode : SslVerify) where
  more_pieces-Keeps :
      (P : Bytes → Type 0) (digest : Bytes) (urls : List Bytes) (offset : ℕ)
      → Keeps P (more_pieces h error_buf_size mode digest urls offset)
  unfolding more_pieces
  more_pieces-Keeps P digest [] offset = search keeps_rules
  more_pieces-Keeps P digest (url ∷ urls) offset =
      search (keeps_rules, more_pieces-Keeps P digest urls)

  pub all_pieces-Keeps :
      (P : Bytes → Type 0) (url : Bytes) (urls : List Bytes) (found : Inspected)
      → Keeps P (all_pieces h error_buf_size mode url urls found)
  unfolding all_pieces
  all_pieces-Keeps P url urls found = search (keeps_rules, more_pieces-Keeps)

  -- a file is written at a path that is not among those kept
  module _ (P : Bytes → Type 0) where
    pub write_trunc-Keeps :
        (path content message : Bytes)
        → ((q : Bytes) → P q → path ≢ q)
        → Keeps P (write_trunc h error_buf_size mode path content message)
    unfolding write_trunc
    write_trunc-Keeps path content message apart = record {
      keeps = λ w q p.
          (require-Keeps P h error_buf_size mode (write_file (h.sink path) content).status
              message).keeps
            _ q p
          ∙ put_written_other (h.sink path).opens path q (write_file (h.sink path) content) w.disk
              (apart q p);
    }

    pub write_icon-Keeps :
        (path url : Bytes) (icon : Option Bytes)
        → ((q : Bytes) → P q → path ≢ q)
        → Keeps P (write_icon h error_buf_size mode path url icon)
    unfolding write_icon
    write_icon-Keeps path url none apart = search keeps_rules
    write_icon-Keeps path url (some icon) apart = search (keeps_rules, write_trunc-Keeps)

    pub close_text-Keeps :
        (path text : Bytes)
        → ((q : Bytes) → P q → path ≢ q)
        → Keeps P (close_text h error_buf_size mode path text)
    unfolding close_text
    close_text-Keeps path text apart = record {
      keeps = λ w q p. put_other path q (h.printed text) w.disk (apart q p);
    }

  module _ (json sfo icon : Bytes) where
    -- a path that is none of the three
    abbrev pub IsOther : Bytes → Type 0
    IsOther q = (json ≢ q) × (sfo ≢ q) × (icon ≢ q)

    write_out-Keeps :
        (url : Bytes) (urls : List Bytes) (found : Inspected)
        → Keeps IsOther (write_out h error_buf_size mode json sfo icon url urls found)
    unfolding write_out write_files
    write_out-Keeps url urls found =
        let at_json : (q : Bytes) → IsOther q → json ≢ q = λ q p. p.0 in
        let at_sfo : (q : Bytes) → IsOther q → sfo ≢ q = λ q p. p.1 in
        let at_icon : (q : Bytes) → IsOther q → icon ≢ q = λ q p. p.2 in
        search
          (
            keeps_rules,
            all_pieces-Keeps,
            write_trunc-Keeps IsOther sfo _ _ at_sfo,
            write_icon-Keeps IsOther icon _ _ at_icon,
            close_text-Keeps IsOther json _ at_json,
          )
          depth 20 fits 4000

    -- Nothing is at the three paths.
    abbrev pub AreGone : Disk → Type 0
    AreGone disk = (disk json ≡ none) × (disk sfo ≡ none) × (disk icon ≡ none)

    -- The files at other paths are as they were, and after a failure nothing is at the three.
    pub record IsUnharmed (before : Disk) (r : Outcome PackageInfo × World) : Type 0 where
      pub others : (q : Bytes) → IsOther q → r.1.disk q ≡ before q
      pub gone : (message : Bytes) → r.0 ≡ thrown message → AreGone r.1.disk

    unlink_all-AreGone :
        (disk : Disk) → AreGone (unlink_all h error_buf_size mode json sfo icon disk)
    unfolding unlink_all
    unlink_all-AreGone disk = (
      unlink_self json _,
      unlink-none json sfo _ (unlink_self sfo _),
      unlink-none json icon _ (unlink-none sfo icon _ (unlink_self icon _)),
    )

    unlink_all_other :
        (disk : Disk) (q : Bytes)
        → IsOther q
        → unlink_all h error_buf_size mode json sfo icon disk q ≡ disk q
    unfolding unlink_all
    unlink_all_other disk q (a, b, c) =
        unlink_other json q _ a ∙ (unlink_other sfo q _ b ∙ unlink_other icon q _ c)

    or_unlink-IsUnharmed :
        (before : Disk) (o : Outcome PackageInfo) (w : World)
        → ((q : Bytes) → IsOther q → w.disk q ≡ before q)
        → IsUnharmed before (or_unlink h error_buf_size mode json sfo icon (o, w))
    unfolding or_unlink
    or_unlink-IsUnharmed before (ok info) w same = record { others = same; gone = λ m e. cc }
    or_unlink-IsUnharmed before (thrown message) w same = record {
      others = λ q p. unlink_all_other w.disk q p ∙ same q p;
      gone = λ m e. unlink_all-AreGone w.disk;
    }

    open-IsUnharmed :
        (before : Disk) (url : Bytes) (urls : List Bytes) (found : Inspected) (w : World)
        → ((q : Bytes) → IsOther q → w.disk q ≡ before q)
        → AreGone w.disk
        → IsUnharmed before (open_and_write h error_buf_size mode json sfo icon url urls found w)
    unfolding open_and_write
    open-IsUnharmed before url urls found w same gone = elim (Bool-cases (not (h.fopens json))) [
      | inl shut ↦ rw shut (record { others = same; gone = λ m e. gone })
      | inr opens ↦ rw opens (
          or_unlink-IsUnharmed before _ _ (λ q p.
            (write_out-Keeps url urls found).keeps _ q p
            ∙ (put_other json q [] w.disk p.0 ∙ same q p)))
    ]

    after_inspect :
        (before : Disk) (url : Bytes) (urls : List Bytes) (o : Outcome Inspected) (w : World)
        → ((q : Bytes) → IsOther q → w.disk q ≡ before q)
        → AreGone w.disk
        → IsUnharmed before
            (continue o (open_and_write h error_buf_size mode json sfo icon url urls) w)
    after_inspect before url urls (ok found) w same gone =
        open-IsUnharmed before url urls found w same gone
    after_inspect before url urls (thrown message) w same gone = record {
      others = same;
      gone = λ m e. gone;
    }

    pub unlinked : Disk → Disk
    unlinked disk = unlink icon (unlink sfo (unlink json disk))

    pub unlinked-AreGone : (disk : Disk) → AreGone (unlinked disk)
    unfolding unlinked
    unlinked-AreGone disk = (
      unlink-none icon json _ (unlink-none sfo json _ (unlink_self json _)),
      unlink-none icon sfo _ (unlink_self sfo _),
      unlink_self icon _,
    )

    unlinked_other : (disk : Disk) (q : Bytes) → IsOther q → unlinked disk q ≡ disk q
    unfolding unlinked
    unlinked_other disk q (a, b, c) =
        unlink_other icon q _ c ∙ (unlink_other sfo q _ b ∙ unlink_other json q _ a)

    pub is_path-true :
        (path : Bytes) → path ≢ [] → is_path h error_buf_size mode json sfo icon path ≡ true
    is_path-true [] some_path = absurd (some_path refl)
    is_path-true (c ∷ path) some_path = refl

    -- Whatever becomes of the preparation of a package with at least one piece, no file is touched but
    -- those at the three paths given, and where it fails, at whichever step, nothing is left at these.
    pub pkg_setup_prerequisites-IsUnharmed :
        (url : Bytes) (urls : List Bytes) (w : World)
        → json ≢ []
        → sfo ≢ []
        → icon ≢ []
        → IsUnharmed w.disk
            (pkg_setup_prerequisites h error_buf_size mode json sfo icon (url ∷ urls) w)
    unfolding pkg_setup_prerequisites unlinked
    pkg_setup_prerequisites-IsUnharmed url urls w a b c =
        let kept = inspect-Keeps (λ q. Unit {0}) h error_buf_size mode url (suc (length urls)) in
        let w1 : World = record w { disk = unlinked w.disk } in
        let quiet = λ (q : Bytes). kept.keeps w1 q tt in
        let (g0, g1, g2) = unlinked-AreGone w.disk in
        rw (is_path-true json a, is_path-true sfo b, is_path-true icon c)
          (after_inspect w.disk url urls _ _ (λ q p. quiet q ∙ unlinked_other w.disk q p)
            (quiet json ∙ g0, quiet sfo ∙ g1, quiet icon ∙ g2))
